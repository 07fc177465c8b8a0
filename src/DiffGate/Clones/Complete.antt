-- ===== src/DiffGate/Clones/Complete.antt =====
-- That the clone gate of internal/application/diffgate/clonegate.go misses no new group, although it
-- asks the base only for the hashes of the overlay.
use mathlib.Core.List.{append_assoc, append-nil}
use veska.Common.{
  suc, ◌+◌, ◌≤◌, ◌<◌, ◌≡◌, refl, sym, ap, ◌∙◌, subst, inl, inr, Bool, true, false, Option, none,
  some, List, [], ◌∷◌, ◌++◌, String, ok, >>=-inv, ◌==◌, string_eq, eq_iff, if◌then◌else◌, str_lt,
  sort_by, length, length-sort_by, contains, Bool-cases, Option-cases, arith,
}
use veska.Common.Dict.{Dict, lookup, insert, lookup-insert}
use veska.Domain.ParseResult.{NodePtr}
use veska.Staging.Area.{File, snapshot}
use veska.Coverage.{NodeRef}
use veska.Duplicates.{excluded_kinds}
use veska.DiffGate.Guard.{Ephemeral}
use veska.DiffGate.Clones.{
  CloneMember, CloneGroup, CloneVerdict, eligible_hash, overlay_member, base_member, ByHash,
  list_at, put_at, put_nodes, put_files, add_base, after_members, is_nil, is_new, HashLookup,
  new_groups, verdict_of, evaluate,
}

abbrev has_hash : String → Option String → Bool
has_hash h none = false
has_hash h (some k) = h == k

-- The nodes of the overlay that take part under a hash.
abbrev only_under : String → Option String → CloneMember → List CloneMember
only_under h key member = if has_hash h key then member ∷ [] else []

unfoldable pub members_with : String → List NodePtr → List CloneMember
members_with h [] = []
members_with h (none ∷ ns) = members_with h ns
members_with h (some n ∷ ns) =
    only_under h (eligible_hash (some n)) (overlay_member n) ++ members_with h ns

unfoldable pub members_in : String → Dict String File → List CloneMember
members_in h [] = []
members_in h ((p, f) ∷ files) = members_with h f.nodes ++ members_in h files

lookup-put_at :
    (key : Option String) (member : CloneMember) (m : ByHash) (h : String)
    → list_at (lookup h (put_at key member m)) ≡ list_at (lookup h m) ++ only_under h key member
lookup-put_at none member m h = sym (append-nil (list_at (lookup h m)))
lookup-put_at (some k) member m h =
    let grown = list_at (lookup k m) ++ member ∷ [] in
    elim (Bool-cases (h == k)) [
      | inl same ↦
          rw (lookup-insert k h grown m, same, ap (λ z. list_at (lookup z m)) ((eq_iff h k).0 same))
            refl
      | inr other ↦ rw (lookup-insert k h grown m, other) (sym (append-nil (list_at (lookup h m))))
    ]

lookup-put_nodes :
    (ns : List NodePtr) (m : ByHash) (h : String)
    → list_at (lookup h (put_nodes ns m)) ≡ list_at (lookup h m) ++ members_with h ns
unfolding put_nodes members_with
lookup-put_nodes [] m h = sym (append-nil (list_at (lookup h m)))
lookup-put_nodes (none ∷ ns) m h = lookup-put_nodes ns m h
lookup-put_nodes (some n ∷ ns) m h =
    let key = eligible_hash (some n) in
    lookup-put_nodes ns (put_at key (overlay_member n) m) h
    ∙ ap (λ z. z ++ members_with h ns) (lookup-put_at key (overlay_member n) m h)
    ∙ append_assoc (list_at (lookup h m)) (only_under h key (overlay_member n)) (members_with h ns)

lookup-put_files :
    (files : Dict String File) (m : ByHash) (h : String)
    → list_at (lookup h (put_files files m)) ≡ list_at (lookup h m) ++ members_in h files
unfolding put_files members_in
lookup-put_files [] m h = sym (append-nil (list_at (lookup h m)))
lookup-put_files ((p, f) ∷ files) m h =
    lookup-put_files files (put_nodes f.nodes m) h
    ∙ ap (λ z. z ++ members_in h files) (lookup-put_nodes f.nodes m h)
    ∙ append_assoc (list_at (lookup h m)) (members_with h f.nodes) (members_in h files)

length-insert {ℓ} :
    {V : Type ℓ} (k : String) (v : V) (d : Dict String V) → length (insert k v d) ≤ suc (length d)
unfolding insert
length-insert k v [] = omega arith
length-insert k v ((j, w) ∷ d) = ground (arith, length-insert k v d)

length-add_base :
    (touched : List String) (bs : List NodeRef) (d : Dict String CloneMember)
    → length (add_base touched bs d) ≤ length d + length bs
unfolding add_base
length-add_base touched [] d = omega arith
length-add_base touched (b ∷ bs) d = elim (Bool-cases (contains touched b.file_path)) [
  | inl gone ↦ rw (add_base, gone) (omega (arith, length-add_base touched bs d))
  | inr kept ↦
      rw (add_base, kept)
        (omega (
          arith,
          length-add_base touched bs (insert b.node_id (base_member b) d),
          length-insert b.node_id (base_member b) d,
        ))
]

is_nil-sort_by :
    (groups : List CloneGroup)
    → is_nil (sort_by (λ a b. str_lt a.content_hash b.content_hash) groups) ≡ true
    → groups ≡ []
is_nil-sort_by [] h = refl
is_nil-sort_by (g ∷ gs) h =
    absurd (no_sorted _ h (length-sort_by (λ a b. str_lt a.content_hash b.content_hash) (g ∷ gs)))
  where
    no_sorted :
        (sorted : List CloneGroup) → is_nil sorted ≡ true → length sorted ≡ suc (length gs) → ⊥
    no_sorted [] nil e = omega arith
    no_sorted (x ∷ xs) nil e = cc

module _ {ℓ} {E : Type ℓ} (by_hash : HashLookup E) (touched : List String) where
  asked_not_new :
      (m : ByHash) (h : String) (ms : List CloneMember) (base : List NodeRef)
      → new_groups by_hash touched m ≡ ok []
      → lookup h m ≡ some ms
      → by_hash h excluded_kinds ≡ ok base
      → is_new touched ms base ≡ false
  unfolding new_groups lookup
  asked_not_new [] h ms base none_new found asked = absurd cc
  asked_not_new ((j, js) ∷ m) h ms base none_new found asked =
      let (asked_j, here, rest) = >>=-inv (by_hash j excluded_kinds) _ none_new in
      let (groups, below, last) = >>=-inv (new_groups by_hash touched m) _ rest in
      elim (Bool-cases (is_new touched js asked_j)) [
        | inl new ↦ absurd (cc (rw new at last))
        | inr old ↦
            let none_below : new_groups by_hash touched m ≡ ok [] = below ∙ rw old at last in
            elim (Bool-cases (h == j)) [
              | inl same ↦
                  let js_ms : js ≡ ms = cc (rw same at found) in
                  let both : ok asked_j ≡ ok base =
                    sym here
                    ∙ ap (λ z. by_hash z excluded_kinds) (sym ((eq_iff h j).0 same))
                    ∙ asked in
                  let at_base : asked_j ≡ base = cc in
                  subst (λ z. is_new touched z base ≡ false) js_ms
                    (subst (λ z. is_new touched js z ≡ false) at_base old)
              | inr other ↦ asked_not_new m h ms base none_below (rw other at found) asked
            ]
      ]

  -- A change that the gate passes leaves no group of two or more nodes of equal content under a hash
  -- that fewer than two nodes of the base have, be the hash of an overlay node or not.
  pub evaluate_clones :
      (eph : Ephemeral) (v : CloneVerdict) (h : String) (base : List NodeRef)
      → evaluate (some by_hash) touched eph ≡ ok v
      → v.pass ≡ true
      → by_hash h excluded_kinds ≡ ok base
      → length base < 2
      → length
          (after_members touched (members_in h (snapshot eph.repo_id eph.branch eph.overlay)) base)
        < 2
  unfolding evaluate lookup
  evaluate_clones eph v h base came passed asked few =
      let files = snapshot eph.repo_id eph.branch eph.overlay in
      let m = put_files files [] in
      let members : list_at (lookup h m) ≡ members_in h files = lookup-put_files files [] h in
      let (groups, got, last) = >>=-inv (new_groups by_hash touched m) _ came in
      let same : verdict_of groups ≡ v = cc in
      let none_new : new_groups by_hash touched m ≡ ok [] =
        got ∙ ap ok (is_nil-sort_by groups (ap (λ z. z.pass) same ∙ passed)) in
      elim (Option-cases (lookup h m)) [
        | inl absent ↦
            let empty : [] ≡ members_in h files = rw absent at members in
            subst (λ ms. length (after_members touched ms base) < 2) empty
              (omega (arith, length-add_base touched base []))
        | inr (ms, found) ↦
            let full : ms ≡ members_in h files = rw found at members in
            subst (λ ms. length (after_members touched ms base) < 2) full
              (ground (arith, asked_not_new m h ms base none_new found asked))
      ]
