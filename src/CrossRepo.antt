-- ===== src/CrossRepo.antt =====
-- internal/application/crossrepo/resolver.go: the repositories that know a symbol. The registry of the
-- repositories and the lookup in one of them are parameters that may fail.
use veska.Common.{
  ℕ, ◌≡◌, refl, ap, inl, inr, Bool, true, false, not, List, [], ◌∷◌, map, String, Result,
  Result-cases, ok, err, ◌==◌, string_eq, if◌then◌else◌, length, keep_if, is_nil, Bool-cases, sym,
  ◌∙◌,
}
use veska.Domain.ParseResult.{NodePtr}

pub record RepoView : Type 0 where
  pub repo_id : String
  pub root_path : String
  pub active_branch : String

pub record RepoMatch : Type 0 where
  pub repo_id : String
  pub root_path : String
  pub active_branch : String
  pub hit_count : ℕ

pub data LookupError {ℓ} (E : Type ℓ) : Type ℓ where
  empty_symbol : LookupError E
  list_failed : E → LookupError E

abbrev pub branch_of : RepoView → String
branch_of rv = if rv.active_branch == "" then "main" else rv.active_branch

-- The matches, and the errors by repository, which `errors.Join` puts together.
pub record Outcome {ℓ} (E : Type ℓ) : Type ℓ where
  pub matches : List RepoMatch
  pub errors : List (String × E)

abbrev pub match_of : RepoView → ℕ → RepoMatch
match_of rv hits = record {
  repo_id = rv.repo_id;
  root_path = rv.root_path;
  active_branch = branch_of rv;
  hit_count = hits;
}

module _ {ℓ} {E : Type ℓ} (lookup : String → String → String → Result E (List NodePtr)) where
  abbrev pub hits_in : String → RepoView → Result E (List NodePtr)
  hits_in symbol rv = lookup rv.repo_id (branch_of rv) symbol

  abbrev pub add_hits : RepoView → Result E (List NodePtr) → Outcome E → Outcome E
  add_hits rv (err e) o = record o { errors = (rv.repo_id, e) ∷ o.errors }
  add_hits rv (ok hits) o =
      if is_nil hits then o else record o { matches = match_of rv (length hits) ∷ o.matches }

  unfoldable pub lookup_all : String → List RepoView → Outcome E
  lookup_all symbol [] = record { matches = []; errors = [] }
  lookup_all symbol (rv ∷ repos) = add_hits rv (hits_in symbol rv) (lookup_all symbol repos)

  abbrev pub listed : String → Result E (List RepoView) → Result (LookupError E) (Outcome E)
  listed symbol (err e) = err (list_failed e)
  listed symbol (ok repos) = ok (lookup_all symbol repos)

  unfoldable pub lookup_symbol :
      Result E (List RepoView) → String → Result (LookupError E) (Outcome E)
  lookup_symbol repos symbol = if symbol == "" then err empty_symbol else listed symbol repos

  abbrev hit_size : Result E (List NodePtr) → ℕ
  hit_size (err e) = 0
  hit_size (ok hits) = length hits

  abbrev has_hits : Result E (List NodePtr) → Bool
  has_hits (err e) = false
  has_hits (ok hits) = not (is_nil hits)

  abbrev has_failed : Result E (List NodePtr) → Bool
  has_failed (err e) = true
  has_failed (ok hits) = false

  -- A repository whose lookup fails hides no other: the matches are those of the repositories with a
  -- hit, in the order of the registry, and the errors name those that failed.
  pub lookup_all_lem :
      (symbol : String) (repos : List RepoView)
      → ((lookup_all symbol repos).matches
          ≡ map
              (λ rv. match_of rv (hit_size (hits_in symbol rv)))
              (keep_if (λ rv. has_hits (hits_in symbol rv)) repos))
        × (map (λ e. e.0) (lookup_all symbol repos).errors
            ≡ map (λ rv. rv.repo_id) (keep_if (λ rv. has_failed (hits_in symbol rv)) repos))
  unfolding lookup_all keep_if
  lookup_all_lem symbol [] = (refl, refl)
  lookup_all_lem symbol (rv ∷ repos) =
      let (m, e) = lookup_all_lem symbol repos in
      elim (Result-cases (hits_in symbol rv)) [
        | inl (failure, failed) ↦ rw failed (m, ap (λ z. rv.repo_id ∷ z) e)
        | inr (hits, found) ↦ elim (Bool-cases (is_nil hits)) [
          | inl empty ↦ rw (found, empty) (m, e)
          | inr full ↦
              rw (found, full)
                (
                  ap (λ z. match_of rv (length hits) ∷ z) m
                      ∙ ap
                          (λ r.
                            match_of rv (hit_size r)
                            ∷ map (λ x. match_of x (hit_size (hits_in symbol x)))
                                (keep_if (λ x. has_hits (hits_in symbol x)) repos))
                          (sym found),
                  e,
                )
        ]
      ]
