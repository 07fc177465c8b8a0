-- ===== src/Duplicates/Connected.antt =====
-- What unionFind of internal/application/duplicates/duplicates.go computes: the connected components
-- of the edges that were united.
use mathlib.Core.List.{Memᴰ}
use mathlib.Core.List.Memᴰ
use veska.Common.{
  ℕ, suc, ◌+◌, ◌<◌, ◌≤◌, ◌≡◌, refl, sym, ◌∙◌, subst, ◌↔◌, inl, inr, some, List, [], ◌∷◌, String,
  ◌==◌, string_eq, eq_iff, Bool-cases, arith, length, All, All-map,
}
use veska.Common.Dict.{lookup}
use veska.Duplicates.UnionFind.{Parents, union_all, IsForest, union_lem, merged}

abbrev pub Edges : Type 0
Edges = List (String × String)

-- The edges join the two ids, whatever their directions.
pub data Connected (es : Edges) : String → String → Type 0 where
  edge : {a b : String} → Memᴰ (a, b) es → Connected es a b
  stay : {a : String} → Connected es a a
  back : {a b : String} → Connected es a b → Connected es b a
  through : {a b c : String} → Connected es a b → Connected es b c → Connected es a c

All-Memᴰ {ℓ κ} : {A : Type ℓ} (P : A → Type κ) (xs : List A) (a : A) → All P xs → Memᴰ a xs → P a
All-Memᴰ P [] a h m = elim m [ ]
All-Memᴰ P (x ∷ xs) a h m = elim (Memᴰ.cases_cons m) [
  | inl e ↦ subst P (sym e) h.0
  | inr later ↦ All-Memᴰ P xs a h.1 later
]

-- A function that the edges respect is constant on what they connect.
Connected-constant :
    (root : String → String) (es : Edges) (a b : String)
    → All (λ e. root e.0 ≡ root e.1) es
    → Connected es a b
    → root a ≡ root b
Connected-constant root es a b h (edge m) = All-Memᴰ (λ e. root e.0 ≡ root e.1) es (a, b) h m
Connected-constant root es a _ h stay = refl
Connected-constant root es a b h (back c) = sym (Connected-constant root es b a h c)
Connected-constant root es a c h (through {b = b} p q) =
    Connected-constant root es a b h p ∙ Connected-constant root es b c h q

-- The forest of some of the edges: what it joins is connected.
pub record Joins (es : Edges) (root : String → String) (depth : String → ℕ) (u : Parents)
    : Type 0 where
  pub forest : IsForest root depth u
  pub sound : (x : String) → Connected es x (root x)

merged_sound :
    (es : Edges) (root : String → String) (a b y : String)
    → ((x : String) → Connected es x (root x))
    → Connected es a b
    → Connected es y (merged root a b y)
merged_sound es root a b y sound c = elim (Bool-cases (root y == root a)) [
  | inl same ↦
      let e : root y ≡ root a = (eq_iff (root y) (root a)).0 same in
      rw same (
        through (through (subst (λ r. Connected es y r) e (sound y)) (back (sound a)))
          (through c (sound b)))
  | inr other ↦ rw other (sound y)
]

kept-merged :
    (root root' : String → String) (a b c d : String)
    → ((y : String) → root' y ≡ merged root a b y)
    → root c ≡ root d
    → root' c ≡ root' d
kept-merged root root' a b c d m e = m c ∙ rw e refl ∙ sym (m d)

joined-merged :
    (root root' : String → String) (a b : String)
    → ((y : String) → root' y ≡ merged root a b y)
    → root' a ≡ root' b
joined-merged root root' a b m =
    ground (arith, m a, m b, eq_iff (root a) (root a), eq_iff (root b) (root a))

-- The forest after all unions, whose roots every edge respects.
record AllJoined (es rest : Edges) (fuel : ℕ) (before root : String → String) (depth : String → ℕ)
    (u : Parents) : Type 0 where
  joins : Joins es root depth u
  shallow : (x : String) → depth x < fuel
  keeps : (c d : String) → before c ≡ before d → root c ≡ root d
  respects : All (λ e. root e.0 ≡ root e.1) rest

union_all_lem :
    (es rest : Edges) (fuel level : ℕ) (u : Parents) (root : String → String) (depth : String → ℕ)
    → All (λ e. Memᴰ e es) rest
    → Joins es root depth u
    → ((x : String) → depth x ≤ level)
    → level + length rest < fuel
    → (v : Parents) × (root' : String → String) × (depth' : String → ℕ) × (union_all fuel rest u
        ≡ some v)
      × AllJoined es rest fuel root root' depth' v
unfolding union_all
union_all_lem es [] fuel level u root depth known j low enough = (
  u,
  root,
  depth,
  refl,
  record { joins = j; shallow = λ x. omega (arith, low x); keeps = λ c d e. e; respects = tt },
)
union_all_lem es ((a, b) ∷ rest) fuel level u root depth known j low enough =
    let (v, root₁, depth₁, united, f, m, up) =
      union_lem root depth fuel u a b j.forest (λ x. omega (arith, low x)) in
    let j₁ : Joins es root₁ depth₁ v = record {
      forest = f;
      sound = λ x.
          subst (λ r. Connected es x r) (sym (m x))
            (merged_sound es root a b x j.sound (edge known.0));
    } in
    let (w, root', depth', rest_united, done) =
      union_all_lem es rest fuel (suc level) v root₁ depth₁ known.1 j₁
        (λ x. omega (arith, up x, low x)) (omega arith) in
    (
      w,
      root',
      depth',
      rw (union_all, united) rest_united,
      record {
        joins = done.joins;
        shallow = done.shallow;
        keeps = λ c d e. done.keeps c d (kept-merged root root₁ a b c d m e);
        respects = (done.keeps a b (joined-merged root root₁ a b m), done.respects);
      },
    )

-- The forest of the edges: the same root means connected.
pub record Components (es : Edges) (fuel : ℕ) (root : String → String) (depth : String → ℕ)
    (u : Parents) : Type 0 where
  pub forest : IsForest root depth u
  pub shallow : (x : String) → depth x < fuel
  pub same_root : (a b : String) → (root a ≡ root b) ↔ Connected es a b
  pub found : (x : String) → Connected es x (root x)

pub all_known : (es : Edges) → All (λ e. Memᴰ e es) es
all_known [] = tt
all_known (e ∷ es) = (
  Memᴰ.head refl,
  All-map (λ x. Memᴰ x es) (λ x. Memᴰ x (e ∷ es)) (λ x. Memᴰ.tail) es (all_known es),
)

none_yet : (es : Edges) → Joins es (λ x. x) (λ x. 0) []
unfolding lookup
none_yet es = record {
  forest = record {
    own = λ x h. refl;
    top = λ x h. refl;
    above = λ x p h. cc;
    down = λ x p h ne. cc;
    flat = λ x. refl;
    ground_level = λ x. refl;
  };
  sound = λ x. stay;
}

pub union_all-Components :
    (es : Edges) (fuel : ℕ)
    → length es < fuel
    → (u : Parents) × (root : String → String) × (depth : String → ℕ) × (union_all fuel es []
        ≡ some u)
      × Components es fuel root depth u
union_all-Components es fuel enough =
    let (u, root, depth, united, done) =
      union_all_lem es es fuel 0 [] (λ x. x) (λ x. 0) (all_known es) (none_yet es)
        (λ x. omega arith) (omega arith) in
    (
      u,
      root,
      depth,
      united,
      record {
        forest = done.joins.forest;
        shallow = done.shallow;
        same_root = λ a b. (
          λ e.
              through (done.joins.sound a)
                (back (subst (λ r. Connected es b r) (sym e) (done.joins.sound b))),
          Connected-constant root es a b done.respects,
        );
        found = done.joins.sound;
      },
    )
