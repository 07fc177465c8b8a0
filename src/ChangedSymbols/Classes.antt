-- ===== src/ChangedSymbols/Classes.antt =====
-- Which symbols a file's classification names, and that nothing differs from itself.
use veska.Common.{
  ◌≡◌, refl, sym, ap, ◌∙◌, Bool, true, false, not, ◌&&◌, ◌||◌, Option, none, some, List, [], ◌∷◌,
  ◌++◌, map, String, ◌==◌, string_eq, eq_iff, nat_eq, contains, arith, Bool-cases, inl, inr, All,
  All-map,
}
use veska.Common.Dict.{Dict, lookup, insert, is_present, lookup-insert}
use veska.Domain.Node.{Node}
use veska.ChangedSymbols.{
  SymbolChange, SymbolDiff, no_changes, symbol_key, keyed, content_hash, compare_symbol,
  classify_new, compare_gone, classify_gone, classify_file, to_change, added_symbol, removed_symbol,
  modified_symbol,
}

-- Each node stands under its own key, and no key twice.
abbrev pub IsKeyed : Dict String Node → Type 0
IsKeyed [] = Unit
IsKeyed ((key, n) ∷ m) = (symbol_key n ≡ key) × (is_present (lookup key m) ≡ false) × IsKeyed m

insert-IsKeyed : (n : Node) (m : Dict String Node) → IsKeyed m → IsKeyed (insert (symbol_key n) n m)
unfolding insert lookup
insert-IsKeyed n [] k = (refl, refl, tt)
insert-IsKeyed n ((key, n') ∷ m) (own, new, k) = elim (Bool-cases (symbol_key n == key)) [
  | inl same ↦ rw same ((eq_iff (symbol_key n) key).0 same, new, k)
  | inr other ↦ rw other (
    own,
    ground (
      arith,
      lookup-insert (symbol_key n) key n m,
      eq_iff (symbol_key n) key,
      eq_iff key (symbol_key n),
    ),
    insert-IsKeyed n m k,
  )
]

pub keyed-IsKeyed : (ns : List Node) (m : Dict String Node) → IsKeyed m → IsKeyed (keyed ns m)
unfolding keyed
keyed-IsKeyed [] m k = k
keyed-IsKeyed (n ∷ ns) m k = elim (Bool-cases (n.kind == "chunk")) [
  | inl chunk ↦ rw chunk (keyed-IsKeyed ns m k)
  | inr symbol ↦ rw symbol (keyed-IsKeyed ns _ (insert-IsKeyed n m k))
]

-- Each pair of a keyed map is what its key finds.
pub IsKeyed-lookup : (m : Dict String Node) → IsKeyed m → All (λ p. lookup p.0 m ≡ some p.1) m
unfolding lookup
IsKeyed-lookup [] k = tt
IsKeyed-lookup ((key, n) ∷ m) (own, new, k) = (
  ground (arith, eq_iff key key),
  All-map _ _ (λ p h. ground (arith, eq_iff p.0 key, ap is_present h)) m (IsKeyed-lookup m k),
)

abbrev pub paths : List SymbolChange → List String
paths = map (λ c. c.symbol_path)

paths-snoc :
    (cs : List SymbolChange) (c : SymbolChange) (x : String)
    → contains (paths (cs ++ c ∷ [])) x ≡ (contains (paths cs) x || x == c.symbol_path)
unfolding contains
paths-snoc [] c x = ground arith
paths-snoc (d ∷ cs) c x = ground (arith, paths-snoc cs c x)

absent : (o : Option Node) → is_present o ≡ false → o ≡ none
absent none h = refl
absent (some n) h = cc

by_key : (f : String → Bool) (x key : String) → x == key ≡ true → f x ≡ f key
by_key f x key h = ap f ((eq_iff x key).0 h)

module _ (digest : String → String) where
  -- Both versions have the symbol, with different bodies.
  abbrev pub differ : Option Node → Option Node → Bool
  differ (some na) (some nb) = not (content_hash digest na == content_hash digest nb)
  differ _ _ = false

  differ-none : (o : Option Node) → differ o none ≡ false
  differ-none none = refl
  differ-none (some n) = refl

  -- What one symbol of the new version adds.
  compare_symbol_lem :
      (path : String) (o : Option Node) (nb : Node) (res : SymbolDiff) (x : String)
      → (contains (paths (compare_symbol digest path o nb res).added) x
          ≡ (contains (paths res.added) x || (x == symbol_key nb && not (is_present o))))
        × (contains (paths (compare_symbol digest path o nb res).modified) x
            ≡ (contains (paths res.modified) x || (x == symbol_key nb && differ o (some nb))))
        × ((compare_symbol digest path o nb res).removed ≡ res.removed)
  unfolding compare_symbol
  compare_symbol_lem path none nb res x =
      ground (arith, paths-snoc res.added (to_change path nb added_symbol) x)
  compare_symbol_lem path (some na) nb res x =
      ground (arith, paths-snoc res.modified (to_change path nb modified_symbol) x)

  classify_new_lem :
      (path : String) (a b : Dict String Node) (res : SymbolDiff) (x : String)
      → IsKeyed b
      → let res' = classify_new digest path a b res in
        (contains (paths res'.added) x ≡ (
          contains (paths res.added) x
          || (is_present (lookup x b) && not (is_present (lookup x a)))))
        × (contains (paths res'.modified) x
            ≡ (contains (paths res.modified) x || differ (lookup x a) (lookup x b)))
        × (res'.removed ≡ res.removed)
  unfolding classify_new lookup
  classify_new_lem path a [] res x k = ground (arith, differ-none (lookup x a))
  classify_new_lem path a ((key, nb) ∷ b) res x (own, new, k) =
      let (adds, mods, rems) =
        classify_new_lem path a b (compare_symbol digest path (lookup key a) nb res) x k in
      let (add1, mods1, rems1) = compare_symbol_lem path (lookup key a) nb res x in
      let add2 = rw own at add1 in
      let mods2 = rw own at mods1 in
      elim (Bool-cases (x == key)) [
        | inl here ↦
            let same : x ≡ key = (eq_iff x key).0 here in
            let old : lookup key a ≡ lookup x a = ap (λ z. lookup z a) (sym same) in
            let once : lookup x b ≡ none =
              absent _ (ap (λ z. is_present (lookup z b)) same ∙ new) in
            let quiet : differ (lookup x a) (lookup x b) ≡ false =
              ap (differ (lookup x a)) once ∙ differ-none (lookup x a) in
            rw here (
              ground (arith, adds, add2, here, ap is_present old, ap is_present once),
              ground (arith, mods, mods2, here, quiet, ap (λ o. differ o (some nb)) old),
              rems ∙ rems1,
            )
        | inr later ↦
            rw later
              (ground (arith, adds, add2, later), ground (arith, mods, mods2, later), rems ∙ rems1)
      ]

  compare_gone_lem :
      (path : String) (there : Bool) (na : Node) (res : SymbolDiff) (x : String)
      → (contains (paths (compare_gone digest path there na res).removed) x
          ≡ (contains (paths res.removed) x || (x == symbol_key na && not there)))
        × ((compare_gone digest path there na res).added ≡ res.added)
        × ((compare_gone digest path there na res).modified ≡ res.modified)
  unfolding compare_gone
  compare_gone_lem path true na res x = ground arith
  compare_gone_lem path false na res x =
      (paths-snoc res.removed (to_change path na removed_symbol) x ∙ ground arith, refl, refl)

  classify_gone_lem :
      (path : String) (b a : Dict String Node) (res : SymbolDiff) (x : String)
      → IsKeyed a
      → let res' = classify_gone digest path b a res in
        (contains (paths res'.removed) x ≡ (
          contains (paths res.removed) x
          || (is_present (lookup x a) && not (is_present (lookup x b)))))
        × (res'.added ≡ res.added)
        × (res'.modified ≡ res.modified)
  unfolding classify_gone lookup
  classify_gone_lem path b [] res x k = ground arith
  classify_gone_lem path b ((key, na) ∷ a) res x (own, new, k) =
      let (rems, adds, mods) =
        classify_gone_lem path b a (compare_gone digest path (is_present (lookup key b)) na res) x
          k in
      let (rem1, adds1, mods1) = compare_gone_lem path (is_present (lookup key b)) na res x in
      let rem2 = rw own at rem1 in
      (
        elim (Bool-cases (x == key)) [
          | inl here ↦
              let kept = by_key (λ z. is_present (lookup z b)) x key here in
              let once = by_key (λ z. is_present (lookup z a)) x key here ∙ new in
              rw here (ground (arith, rems, rem2, kept, once, here))
          | inr later ↦ rw later (ground (arith, rems, rem2, later))
        ],
        adds ∙ adds1,
        mods ∙ mods1,
      )

  -- Of two versions of a file, the classification names as added the symbols that only the new one
  -- has, as removed those that only the old one has, and as modified those that both have with
  -- different bodies.
  pub classify_file_lem :
      (path x : String) (old new : List Node)
      → let a = keyed old [] in
        let b = keyed new [] in
        let res = classify_file digest path a b no_changes in
        (contains (paths res.added) x ≡ (is_present (lookup x b) && not (is_present (lookup x a))))
        × (contains (paths res.removed) x
            ≡ (is_present (lookup x a) && not (is_present (lookup x b))))
        × (contains (paths res.modified) x ≡ differ (lookup x a) (lookup x b))
  unfolding classify_file contains
  classify_file_lem path x old new =
      let a = keyed old [] in
      let b = keyed new [] in
      let (adds, mods, rems) = classify_new_lem path a b no_changes x (keyed-IsKeyed new [] tt) in
      let (rems', adds', mods') =
        classify_gone_lem path b a (classify_new digest path a b no_changes) x
          (keyed-IsKeyed old [] tt) in
      (
        ap (λ cs. contains (paths cs) x) adds' ∙ adds,
        rems'
            ∙ ap
                (λ cs.
                  contains (paths cs) x
                  || (is_present (lookup x a) && not (is_present (lookup x b))))
                rems,
        ap (λ cs. contains (paths cs) x) mods' ∙ mods,
      )
