-- ===== src/Domain/TaskSet/Active.antt =====
-- At most one task of a repository is active.
use veska.Common.{
  ℕ, ◌≡◌, ◌≢◌, true, false, Option, none, some, String, ok, string_eq, nat_eq, eqb_iff, eq_iff,
  arith,
}
use veska.Common.Dict.{lookup, lookup-insert}
use veska.Domain.TaskSet.{Store, TaskSet, add, deactivate, set_active}

-- Every task of the set stands under its own id, and an active one is the repository's active task.
pub record IsConsistent (s : Store) (ts : TaskSet) : Type 0 where
  pub own_key : (k : String) (p : ℕ) → lookup k ts.tasks ≡ some p → (s p).id ≡ k
  pub known :
      (k : String) (p : ℕ)
      → lookup k ts.tasks ≡ some p
      → (s p).active ≡ true
      → lookup (s p).repo_id ts.active_by_repo ≡ some p

-- In a consistent set two active tasks of one repository are one task.
pub one_active :
    (s : Store) (ts : TaskSet)
    → IsConsistent s ts
    → (k j : String) (p q : ℕ) → lookup k ts.tasks ≡ some p
    → lookup j ts.tasks ≡ some q
    → (s p).active ≡ true
    → (s q).active ≡ true
    → (s p).repo_id ≡ (s q).repo_id
    → p ≡ q
one_active s ts c k j p q hp hq ap' aq e = ground (arith, c.known k p hp ap', c.known j q hq aq)

-- Adding a task to a consistent set keeps it consistent: an active one is refused where the
-- repository has another active task.
pub add-IsConsistent :
    (p : Option ℕ) (s : Store) (ts ts' : TaskSet)
    → IsConsistent s ts
    → add p s ts ≡ ok ts'
    → IsConsistent s ts'
unfolding add
add-IsConsistent none s ts ts' c e = cc
add-IsConsistent (some p) s ts ts' c e = record {
  own_key = λ k q h. ground (
    arith,
    lookup-insert (s p).id k p ts.tasks,
    lookup-insert (s p).repo_id (s q).repo_id p ts.active_by_repo,
    eq_iff k (s p).id,
    eq_iff (s q).repo_id (s p).repo_id,
    eq_iff (s q).id (s p).id,
    c.own_key k q,
    c.known k q,
  );
  known = λ k q h a. ground (
    arith,
    lookup-insert (s p).id k p ts.tasks,
    lookup-insert (s p).repo_id (s q).repo_id p ts.active_by_repo,
    eq_iff k (s p).id,
    eq_iff (s q).repo_id (s p).repo_id,
    eq_iff (s q).id (s p).id,
    c.own_key k q,
    c.known k q,
  );
}

deactivate_lem :
    (o : Option ℕ) (id : String) (s : Store) (q : ℕ)
    → ((deactivate o id s q).id ≡ (s q).id)
      × ((deactivate o id s q).repo_id ≡ (s q).repo_id)
      × ((deactivate o id s q).active ≡ true → (s q).active ≡ true)
      × (o ≡ some q → (s q).id ≢ id → (deactivate o id s q).active ≡ false)
unfolding deactivate
deactivate_lem none id s q = ground arith
deactivate_lem (some p) id s q = ground (arith, eqb_iff q p, eq_iff (s p).id id)

-- Activating a task keeps a consistent set consistent: the repository's other active task is
-- switched off in the shared store.
pub set_active-IsConsistent :
    (p : ℕ) (s : Store) (ts : TaskSet)
    → IsConsistent s ts
    → IsConsistent (set_active p s ts).0 (set_active p s ts).1
unfolding set_active
set_active-IsConsistent p s ts c = record {
  own_key = λ k q h. ground (
    arith,
    lookup-insert (s p).id k p ts.tasks,
    lookup-insert (s p).repo_id (s q).repo_id p ts.active_by_repo,
    deactivate_lem (lookup (s p).repo_id ts.active_by_repo) (s p).id s q,
    deactivate_lem (lookup (s p).repo_id ts.active_by_repo) (s p).id s p,
    eqb_iff q p,
    eq_iff k (s p).id,
    eq_iff (s q).repo_id (s p).repo_id,
    eq_iff (s p).repo_id (s p).repo_id,
    c.own_key k q,
    c.known k q,
  );
  known = λ k q h a. ground (
    arith,
    lookup-insert (s p).id k p ts.tasks,
    lookup-insert (s p).repo_id (s p).repo_id p ts.active_by_repo,
    lookup-insert (s p).repo_id (s q).repo_id p ts.active_by_repo,
    deactivate_lem (lookup (s p).repo_id ts.active_by_repo) (s p).id s q,
    deactivate_lem (lookup (s p).repo_id ts.active_by_repo) (s p).id s p,
    eqb_iff q p,
    eq_iff k (s p).id,
    eq_iff (s q).repo_id (s p).repo_id,
    eq_iff (s p).repo_id (s p).repo_id,
    c.own_key k q,
    c.known k q,
  );
}
