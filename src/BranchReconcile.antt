-- ===== src/BranchReconcile.antt =====
-- internal/application/branchreconcile.go: the branch that the store knows against the branch of the
-- working tree. The store is a parameter, an interface of two operations that may fail.
use veska.Common.{
  ◌≡◌, ◌≢◌, refl, sym, subst, ap, ◌∙◌, true, false, String, Result, ok, err, ◌==◌, string_eq,
  eq_iff, if◌then◌else◌, Bool-cases, inl, inr,
}
use veska.Staging.Area.{Area, clear}
use veska.Staging.Gate.{Gate, bump_generation}

-- ActiveBranchStore, on the store's states.
pub record BranchStore {ℓ κ} (S : Type ℓ) (E : Type κ) : Type (ℓ ⊔ κ) where
  pub active_branch : S → String → Result E String
  pub set_active_branch : S → String → String → Result E S

pub record World {ℓ} (S : Type ℓ) : Type ℓ where
  pub store : S
  pub gate : Gate
  pub area : Area

module _ {ℓ κ} {S : Type ℓ} {E : Type κ} (b : BranchStore S E) where
  -- BumpGeneration and Clear, before the store is written.
  abbrev pub invalidated : String → String → World S → World S
  invalidated repo_id prev w = record w {
    gate = bump_generation w.gate;
    area = clear repo_id prev w.area;
  }

  -- After SetActiveBranch.
  abbrev pub after_set : String → World S → Result E S → World S × Result E String
  after_set cur w (err e) = (w, err e)
  after_set cur w (ok s) = (record w { store = s }, ok cur)

  abbrev pub against : String → String → World S → Result E String → World S × Result E String
  against repo_id cur w (err e) = (w, err e)
  against repo_id cur w (ok prev) =
      if cur == prev
      then (w, ok "")
      else after_set cur (invalidated repo_id prev w) (b.set_active_branch w.store repo_id cur)

  -- Reconcile, with the answer of CurrentBranch.
  unfoldable pub reconcile : String → Result E String → World S → World S × Result E String
  reconcile repo_id (err e) w = (w, ok "")
  reconcile repo_id (ok cur) w =
      if cur == "" then (w, ok "") else against repo_id cur w (b.active_branch w.store repo_id)

  after_set_lem :
      (cur branch : String) (w w' : World S) (r : Result E S)
      → after_set cur w r ≡ (w', ok branch)
      → (branch ≡ cur) × (w'.gate ≡ w.gate) × (w'.area ≡ w.area) × (r ≡ ok w'.store)
  after_set_lem cur branch w w' (err e) h = cc
  after_set_lem cur branch w w' (ok s) h =
      let same : record w { store = s } ≡ w' = ap (λ p. p.0) h in
      (cc, ap (λ z. z.gate) (sym same), ap (λ z. z.area) (sym same), ap (λ z. ok z.store) same)

  -- What a switch of the branch, answered by Reconcile, did.
  abbrev Switched : String → String → String → World S → World S → Result E String → Type (ℓ ⊔ κ)
  Switched repo_id cur branch w w' known =
      (branch ≡ cur)
      × ((prev : String) × (known ≡ ok prev)
          × (prev ≢ cur)
          × (w'.gate ≡ bump_generation w.gate)
          × (w'.area ≡ clear repo_id prev w.area)
          × (b.set_active_branch w.store repo_id cur ≡ ok w'.store))

  against_lem :
      (repo_id cur branch : String) (w w' : World S) (r : Result E String)
      → against repo_id cur w r ≡ (w', ok branch)
      → branch ≢ ""
      → Switched repo_id cur branch w w' r
  against_lem repo_id cur branch w w' (err e) h n = cc
  against_lem repo_id cur branch w w' (ok prev) h n = elim (Bool-cases (cur == prev)) [
    | inl same ↦
        let idle : ◌≡◌ {A = World S × Result E String} (w, ok "") (w', ok branch) = rw same at h in
        let empty : ◌≡◌ {A = Result E String} (ok "") (ok branch) = ap (λ p. p.1) idle in
        let e : branch ≡ "" = cc in absurd (n e)
    | inr other ↦
        let (took, gate, area, stored) =
          after_set_lem cur branch (invalidated repo_id prev w) w' _ (rw other at h) in
        (
          took,
          (
            prev,
            refl,
            λ e.
                let back : cur == prev ≡ true = (eq_iff cur prev).1 (sym e) in
                let bad : false ≡ true = sym other ∙ back in cc,
            gate,
            area,
            stored,
          ),
        )
  ]

  -- When Reconcile answers a branch, it is that of the working tree, the store knew another one, whose
  -- staged files are now cleared, the generation has gone up, and the store took the branch.
  pub reconcile-Switched :
      (repo_id cur branch : String) (w w' : World S)
      → reconcile repo_id (ok cur) w ≡ (w', ok branch)
      → branch ≢ ""
      → Switched repo_id cur branch w w' (b.active_branch w.store repo_id)
  unfolding reconcile
  reconcile-Switched repo_id cur branch w w' h n = elim (Bool-cases (cur == "")) [
    | inl detached ↦
        let idle : ◌≡◌ {A = World S × Result E String} (w, ok "") (w', ok branch) =
          rw detached at h in
        let empty : ◌≡◌ {A = Result E String} (ok "") (ok branch) = ap (λ p. p.1) idle in
        let e : branch ≡ "" = cc in absurd (n e)
    | inr named ↦
        against_lem repo_id cur branch w w' (b.active_branch w.store repo_id) (rw named at h) n
  ]

  against_settles :
      (repo_id cur branch : String) (w w' : World S) (r : Result E String)
      → ((s s' : S)
          → b.set_active_branch s repo_id cur ≡ ok s'
          → b.active_branch s' repo_id ≡ ok cur)
      → b.active_branch w.store repo_id ≡ r
      → against repo_id cur w r ≡ (w', ok branch)
      → against repo_id cur w' (b.active_branch w'.store repo_id) ≡ (w', ok "")
  against_settles repo_id cur branch w w' (err e) law known h = cc
  against_settles repo_id cur branch w w' (ok prev) law known h = elim (Bool-cases (cur == prev)) [
    | inl same ↦
        let idle : ◌≡◌ {A = World S × Result E String} (w, ok "") (w', ok branch) = rw same at h in
        let stays : w ≡ w' = ap (λ p. p.0) idle in
        subst (λ z. against repo_id cur z (b.active_branch z.store repo_id) ≡ (z, ok "")) stays
          (rw (known, same) refl)
    | inr other ↦
        let (took, gate, area, stored) =
          after_set_lem cur branch (invalidated repo_id prev w) w' _ (rw other at h) in
        rw (law w.store w'.store stored, (eq_iff cur cur).1 refl) refl
  ]

  -- Reconcile settles: once it has answered without an error, asking again with the same working tree
  -- changes nothing and answers no branch, when the store reads back a branch that it took.
  pub reconcile_settles :
      (repo_id cur branch : String) (w w' : World S)
      → ((s s' : S)
          → b.set_active_branch s repo_id cur ≡ ok s'
          → b.active_branch s' repo_id ≡ ok cur)
      → reconcile repo_id (ok cur) w ≡ (w', ok branch)
      → reconcile repo_id (ok cur) w' ≡ (w', ok "")
  unfolding reconcile
  reconcile_settles repo_id cur branch w w' law h = elim (Bool-cases (cur == "")) [
    | inl detached ↦ rw detached refl
    | inr named ↦ rw named (
        against_settles repo_id cur branch w w' (b.active_branch w.store repo_id) law refl
          (rw named at h))
  ]
