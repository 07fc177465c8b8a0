-- ===== src/Blast/Sound.antt =====
-- What the walk reports is reachable, and where the fan-out of a repeated source is gated.
use veska.Common.{
  ℕ, zero, suc, ◌+◌, ◌≡◌, refl, ap, sym, subst, ◌∙◌, ◌≢◌, ◌⊎◌, inl, inr, Bool, true, false, some,
  List, [], ◌∷◌, ◌++◌, String, Result, ok, >>=-inv, ◌==◌, string_eq, eq_iff, leb, if◌then◌else◌,
  length, contains, contains-append, All, All-append, All-from-contains, arith, Bool-cases,
}
use veska.Common.Dict.{Dict, lookup, insert, lookup-insert, insert_absent, is_present}
use veska.Blast.{
  Direction, walks_in, walks_out, Applied, Found, enqueue, Neighbours, EdgeReader, append_each,
  list_at, appended, expand_per_source, walk,
}
use veska.Blast.Walk.{walk_keeps}

lookup-append_each :
    (m : Neighbours) (ids : List String) (out : Dict String (List String)) (id y : String)
    → contains (list_at (lookup id (append_each m ids out))) y ≡ true
    → (contains (list_at (lookup id out)) y ≡ true) ⊎ (contains (m id) y ≡ true)
unfolding append_each
lookup-append_each m [] out id y h = inl h
lookup-append_each m (x ∷ ids) out id y h =
    let out' = insert x (list_at (lookup x out) ++ m x) out in
    elim (lookup-append_each m ids out' id y h) [
      | inr new ↦ inr new
      | inl old ↦ added old (lookup-insert x id (list_at (lookup x out) ++ m x) out)
    ]
  where
    added :
        contains (list_at (lookup id (insert x (list_at (lookup x out) ++ m x) out))) y ≡ true
        → lookup id (insert x (list_at (lookup x out) ++ m x) out)
          ≡ (if id == x then some (list_at (lookup x out) ++ m x) else lookup id out)
        → (contains (list_at (lookup id out)) y ≡ true) ⊎ (contains (m id) y ≡ true)
    added old e = elim (Bool-cases (id == x)) [
      | inl same ↦ ground (arith, eq_iff id x, contains-append (list_at (lookup x out)) (m x) y)
      | inr other ↦ ground arith
    ]

contains-empty : (x y : String) → contains (list_at (lookup {V = List String} x [])) y ≡ false
unfolding contains lookup
contains-empty x y = refl

module _ (edge : String → String → Bool) (dir : Direction) (seeds : List String) where
  -- `y` is one hop from `x`, in a direction that the walk takes.
  abbrev pub Hop : String → String → Type 0
  Hop x y =
      ((walks_in dir ≡ true) × (edge y x ≡ true)) ⊎ ((walks_out dir ≡ true) × (edge x y ≡ true))

  -- A walk of just so many hops from a seed.
  abbrev pub Reaches : ℕ → String → Type 0
  Reaches zero y = (contains seeds y ≡ true) × (y ≢ "")
  Reaches (suc d) y = (x : String) × Reaches d x × Hop x y

  -- What is asked of the edge reader: it reports only edges of the graph.
  pub record Truthful {ℓ} {E : Type ℓ} (reader : EdgeReader E) : Type ℓ where
    pub ins_real :
        (ids : List String) (m : Neighbours) (x y : String)
        → reader.inbound ids ≡ ok m
        → contains (m x) y ≡ true
        → edge y x ≡ true
    pub outs_real :
        (ids : List String) (m : Neighbours) (x y : String)
        → reader.outbound ids ≡ ok m
        → contains (m x) y ≡ true
        → edge x y ≡ true

  appended-real {ℓ} :
      {E : Type ℓ} (reader : EdgeReader E) (on : Bool) (query : List String → Result E Neighbours)
      (ids : List String) (out all : Dict String (List String)) (x y : String)
      → appended reader on query ids out ≡ ok all
      → contains (list_at (lookup x all)) y ≡ true
      → (contains (list_at (lookup x out)) y ≡ true)
        ⊎ ((m : Neighbours) × (on ≡ true) × (query ids ≡ ok m) × (contains (m x) y ≡ true))
  appended-real reader false query ids out all x y e h =
      let same : out ≡ all = cc in inl (rw same h)
  appended-real reader true query ids out all x y e h =
      let (m, asked, last) = >>=-inv (query ids) _ e in
      let same : append_each m ids out ≡ all = cc in
      elim (lookup-append_each m ids out x y (rw same h)) [
        | inl old ↦ inl old
        | inr new ↦ inr (m, refl, asked, new)
      ]

  expand_per_source-Hop {ℓ} :
      {E : Type ℓ} (reader : EdgeReader E)
      → Truthful reader
      → (frontier : List String) (per_src : Neighbours) (x y : String)
      → expand_per_source reader dir frontier ≡ ok per_src
      → contains (per_src x) y ≡ true
      → Hop x y
  unfolding expand_per_source
  expand_per_source-Hop reader t frontier per_src x y e h =
      let (ins, first, rest) =
        >>=-inv (appended reader (walks_in dir) reader.inbound frontier []) _ e in
      let (all, second, last) =
        >>=-inv (appended reader (walks_out dir) reader.outbound frontier ins) _ rest in
      let same : (λ id. list_at (lookup id all)) ≡ per_src = cc in
      elim (appended-real reader (walks_out dir) reader.outbound frontier ins all x y second
        (ap (λ f. contains (f x) y) same ∙ h)) [
          | inr (m, on, asked, has) ↦ inr (on, t.outs_real frontier m x y asked has)
          | inl old ↦
              elim (appended-real reader (walks_in dir) reader.inbound frontier [] ins x y first
                old) [
                  | inr (m, on, asked, has) ↦ inl (on, t.ins_real frontier m x y asked has)
                  | inl nothing ↦ let no_entry = contains-empty x y in cc
                ]
        ]

  AllReached : Dict String ℕ → Type 0
  AllReached = All (λ p. Reaches p.1 p.0)

  enqueue-AllReached :
      (max_nodes : ℕ) (id : String) (dist : ℕ) (w : Found)
      → Reaches dist id
      → AllReached w.visited
      → AllReached (enqueue max_nodes id dist w).0.visited
  unfolding enqueue AllReached
  enqueue-AllReached max_nodes id dist w r a =
      elim (Bool-cases (is_present (lookup id w.visited))) [
        | inl seen ↦ rw seen a
        | inr new ↦ elim (Bool-cases (leb max_nodes (length w.order))) [
          | inl full ↦ rw (new, full) a
          | inr room ↦
              rw (new, room, insert_absent id dist w.visited new)
                (All-append _ w.visited ((id, dist) ∷ []) a (r, tt))
        ]
      ]

  Reaches-next : (d : ℕ) (x y : String) → Reaches d x → Hop x y → Reaches (d + 1) y
  Reaches-next d x y r h =
      let e : d + 1 ≡ suc d = omega arith in subst (λ n. Reaches n y) (sym e) (x, r, h)

  -- Every node that a walk reports at a distance can be reached from a seed in just that many hops
  -- over edges of the graph in the walk's direction, when the edge reader reports only edges of
  -- the graph.
  pub walk-Reaches {ℓ} :
      {E : Type ℓ} (reader : EdgeReader E) (o : Applied) (w : Found)
      → o.direction ≡ dir
      → Truthful reader
      → walk reader o seeds ≡ ok w
      → All (λ p. Reaches p.1 p.0) w.visited
  unfolding AllReached
  walk-Reaches reader o w same t h =
      walk_keeps reader o (λ v. AllReached v.visited) Reaches
        (λ id dist v r a. enqueue-AllReached o.max_nodes id dist v r a) (λ v hubs a. a)
        (λ frontier per_src dist src asked lt r. All-from-contains _ (per_src src) (λ y has.
          Reaches-next dist src y r
            (expand_per_source-Hop reader t frontier per_src src y (rw same at asked) has)))
        seeds w (All-from-contains _ seeds (λ id in_seeds given. (in_seeds, given))) tt h
