-- ===== src/Duplicates/UnionFind.antt =====
-- unionFind of internal/application/duplicates/duplicates.go: disjoint sets with path compression.
-- The climb of find takes fuel, one for each link; `none` stands for fuel that ran out.
use veska.Common.{
  ℕ, zero, suc, ◌<◌, ◌≤◌, ◌≡◌, refl, sym, ap, ◌∙◌, inl, inr, false, Option, none, some, List, [],
  ◌∷◌, String, ◌==◌, string_eq, eq_iff, if◌then◌else◌, Bool-cases, Option-cases, arith,
}
use veska.Common.Dict.{Dict, lookup, insert, lookup-insert, lookup-insert-inv}

-- `u.parent`.
abbrev pub Parents : Type 0
Parents = Dict String String

abbrev compressed : String → Option (Parents × String) → Option (Parents × String)
compressed x none = none
compressed x (some (u, r)) = some (insert x r u, r)

unfoldable pub find : ℕ → Parents → String → Option (Parents × String)
find zero u x = none
find (suc fuel) u x = elim (lookup x u) [
  | none ↦ some (insert x x u, x)
  | some p ↦ let above = find fuel u p in if p == x then some (u, x) else compressed x above
]

abbrev linked : String → Option (Parents × String) → Option Parents
linked ra none = none
linked ra (some (u, rb)) = if ra == rb then some u else some (insert ra rb u)

abbrev second : ℕ → String → Option (Parents × String) → Option Parents
second fuel b none = none
second fuel b (some (u, ra)) = linked ra (find fuel u b)

unfoldable pub union : ℕ → Parents → String → String → Option Parents
union fuel u a b = second fuel b (find fuel u a)

-- `uf.union(e.Src.NodeID, e.Dst.NodeID)` for each edge.
unfoldable pub union_all : ℕ → List (String × String) → Parents → Option Parents
union_all fuel [] u = some u
union_all fuel (e ∷ es) u = elim (union fuel u e.0 e.1) [
  | none ↦ none
  | some next ↦ union_all fuel es next
]

-- Every id has a root, and its links lead there.
pub record IsForest (root : String → String) (depth : String → ℕ) (u : Parents) : Type 0 where
  pub own : (x : String) → lookup x u ≡ none → root x ≡ x
  pub top : (x : String) → lookup x u ≡ some x → root x ≡ x
  pub above : (x p : String) → lookup x u ≡ some p → root p ≡ root x
  pub down : (x p : String) → lookup x u ≡ some p → (p == x) ≡ false → depth p < depth x
  pub flat : (x : String) → root (root x) ≡ root x
  pub ground_level : (x : String) → depth (root x) ≡ 0

module _ (root : String → String) (depth : String → ℕ) where
  link-IsForest :
      (u : Parents) (x r : String)
      → IsForest root depth u
      → root r ≡ root x
      → (r ≡ x → root x ≡ x)
      → ((r == x) ≡ false → depth r < depth x)
      → IsForest root depth (insert x r u)
  link-IsForest u x r f same self low = record {
    own = λ y h. ground (arith, lookup-insert x y r u, f.own y);
    top = λ y h. elim (lookup-insert-inv x y r y u h) [
      | inl (e, q) ↦ rw e (self (sym q ∙ e))
      | inr (ne, old) ↦ f.top y old
    ];
    above = λ y p h. elim (lookup-insert-inv x y r p u h) [
      | inl (e, q) ↦ rw (e, q) same
      | inr (ne, old) ↦ f.above y p old
    ];
    down = λ y p h ne. elim (lookup-insert-inv x y r p u h) [
      | inl (e, q) ↦ rw (e, q) (low (rw (e, q) at ne))
      | inr (other, old) ↦ f.down y p old ne
    ];
    flat = f.flat;
    ground_level = f.ground_level;
  }

  pub find_lem :
      (fuel : ℕ) (u : Parents) (x : String)
      → IsForest root depth u
      → depth x < fuel
      → (v : Parents) × (find fuel u x ≡ some (v, root x)) × IsForest root depth v
  unfolding find
  find_lem zero u x f enough = absurd (omega arith)
  find_lem (suc fuel) u x f enough = elim (Option-cases (lookup x u)) [
    | inl absent ↦ (
      insert x x u,
      rw (find, absent, f.own x absent) refl,
      link-IsForest u x x f refl (λ e. f.own x absent) (λ ne. ground (arith, eq_iff x x)),
    )
    | inr (p, found) ↦ elim (Bool-cases (p == x)) [
      | inl same ↦
          let e : p ≡ x = (eq_iff p x).0 same in
          (u, rw (find, found, same, f.top x (found ∙ ap some e)) refl, f)
      | inr other ↦
          let (v, came, g) = find_lem fuel u p f (omega (arith, f.down x p found other)) in
          (
            insert x (root x) v,
            rw (find, found, other, came, f.above x p found) refl,
            link-IsForest v x (root x) g (f.flat x) (λ e. e)
                (λ ne. omega (arith, f.down x p found other, f.ground_level x)),
          )
    ]
  ]

-- What a union does to the roots: those of the first tree become the root of the second.
abbrev pub merged : (String → String) → String → String → String → String
merged root a b y = if root y == root a then root b else root y

abbrev raised : (String → String) → (String → ℕ) → String → String → ℕ
raised root depth a y = if root y == root a then suc (depth y) else depth y

module _ (root : String → String) (depth : String → ℕ) where
  link_roots :
      (u : Parents) (a b : String)
      → IsForest root depth u
      → (root a == root b) ≡ false
      → IsForest (merged root a b) (raised root depth a) (insert (root a) (root b) u)
  link_roots u a b f apart =
      let apart' : (root b == root a) ≡ false =
        ground (arith, eq_iff (root a) (root b), eq_iff (root b) (root a)) in
      record {
        own = λ y h.
            let e : root y ≡ y = f.own y (ground (arith, lookup-insert (root a) y (root b) u)) in
            rw e (ground (arith, e, lookup-insert (root a) y (root b) u));
        top = λ y h. elim (lookup-insert-inv (root a) y (root b) y u h) [
          | inl (e, q) ↦ absurd (ground (arith, e, q, eq_iff (root a) (root b)))
          | inr (ne, old) ↦ rw (f.top y old) (rw ne refl)
        ];
        above = λ y p h. elim (lookup-insert-inv (root a) y (root b) p u h) [
          | inl (e, q) ↦ rw (e, q) (ground (arith, f.flat a, f.flat b, eq_iff (root a) (root a)))
          | inr (ne, old) ↦ rw (f.above y p old) refl
        ];
        down = λ y p h ne. elim (lookup-insert-inv (root a) y (root b) p u h) [
          | inl (e, q) ↦
              rw (e, q, f.flat a, f.flat b, apart')
                (rw ((eq_iff (root a) (root a)).1 refl) (omega (arith, f.ground_level b)))
          | inr (other, old) ↦ rw (f.above y p old) (ground (arith, f.down y p old ne))
        ];
        flat = λ y. elim (Bool-cases (root y == root a)) [
          | inl same ↦ rw (same, f.flat b, apart') refl
          | inr other ↦ rw (other, f.flat y, other) refl
        ];
        ground_level = λ y. elim (Bool-cases (root y == root a)) [
          | inl same ↦ rw (same, f.flat b, apart') (f.ground_level b)
          | inr other ↦ rw (other, f.flat y, other) (f.ground_level y)
        ];
      }

  -- A union with fuel for the depth of the forest succeeds.
  pub union_lem :
      (fuel : ℕ) (u : Parents) (a b : String)
      → IsForest root depth u
      → ((x : String) → depth x < fuel)
      → (v : Parents) × (root' : String → String) × (depth' : String → ℕ) × (union fuel u a b
          ≡ some v)
        × IsForest root' depth' v
        × ((y : String) → root' y ≡ merged root a b y)
        × ((y : String) → depth' y ≤ suc (depth y))
  unfolding union
  union_lem fuel u a b f enough =
      let (v, found_a, g) = find_lem root depth fuel u a f (enough a) in
      let (w, found_b, h) = find_lem root depth fuel v b g (enough b) in
      elim (Bool-cases (root a == root b)) [
        | inl same ↦ (
          w,
          root,
          depth,
          rw (found_a, found_b, same) refl,
          h,
          λ y. ground (arith, eq_iff (root a) (root b), eq_iff (root y) (root a)),
          λ y. omega arith,
        )
        | inr apart ↦ (
          insert (root a) (root b) w,
          merged root a b,
          raised root depth a,
          rw (found_a, found_b, apart) refl,
          link_roots w a b h apart,
          λ y. refl,
          λ y. ground arith,
        )
      ]
