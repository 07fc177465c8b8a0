-- ===== src/Promotion.antt =====
-- internal/application/promoter.go and promotion_store.go: the flush of staged files to the store.
-- The store, the check pipeline's wiring and the clock are parameters; logging and tracing are left
-- out. Other goroutines may stage files while the store's transaction runs, so the area when the
-- store returns is an argument of its own.
pub mod Flush
use veska.Common.{
  ℕ, ◌≡◌, Bool, true, false, Option, none, some, List, [], ◌∷◌, ◌++◌, map, String, Result, ok, err,
  if◌then◌else◌,
}
use veska.Common.Dict.{Dict}
use veska.Domain.Actor.{Actor}
use veska.Domain.ParseResult.{NodePtr, EdgePtr, UnresolvedCall}
use veska.Staging.Area.{Area, File, Key, snapshot, delete_staged_file}

abbrev pub work_kinds : List String
work_kinds = "embed" ∷ "auto_link" ∷ "revalidate" ∷ "fts" ∷ []

unfoldable pub promotion_work_kinds : Bool → Bool → List String
promotion_work_kinds review_enabled summary_enabled =
    (work_kinds ++ (if review_enabled then "review" ∷ [] else []))
    ++ (if summary_enabled then "summary" ∷ [] else [])

pub record PromotionFile : Type 0 where
  pub path : String
  pub nodes : List NodePtr
  pub edges : List EdgePtr
  pub unresolved_calls : List UnresolvedCall
  pub imports : Dict String String

pub record PromotionBatch : Type 0 where
  pub repo_id : String
  pub branch : String
  pub git_sha : String
  pub actor : Actor
  pub promoted_at : ℕ
  pub files : List PromotionFile

pub record Line : Type 0 where
  pub number : ℕ
  pub text : String

abbrev pub AddedLines : Type 0
AddedLines = Dict String (List Line)

pub record CheckRunInput : Type 0 where
  pub repo_id : String
  pub branch : String
  pub git_sha : String
  pub file_paths : List String
  pub added_lines : AddedLines

abbrev pub promotion_file : String × File → PromotionFile
promotion_file (path, sf) = record {
  path = path;
  nodes = sf.nodes;
  edges = sf.edges;
  unresolved_calls = sf.unresolved_calls;
  imports = sf.imports;
}

unfoldable pub batch_of : String → String → String → Actor → ℕ → Area → PromotionBatch
batch_of repo_id branch git_sha actor now s = record {
  repo_id = repo_id;
  branch = branch;
  git_sha = git_sha;
  actor = actor;
  promoted_at = now;
  files = map promotion_file (snapshot repo_id branch s);
}

-- `p.staging.DeleteStagedFile` for each file of the batch.
unfoldable pub delete_files : String → String → List PromotionFile → Area → Area
delete_files repo_id branch [] s = s
delete_files repo_id branch (f ∷ fs) s =
    delete_files repo_id branch fs
      (delete_staged_file (record { repo_id = repo_id; branch = branch; file_path = f.path }) s)

-- What a promotion did: its error, the area that it left, and the input of the check run, if any.
pub record Outcome {ℓ} (E : Type ℓ) : Type ℓ where
  pub error : Option E
  pub area : Area
  pub checked : Option CheckRunInput

-- An error of the added-lines seam is dropped, and the checks run without diff context.
abbrev pub lines_or_nil {ℓ} : {E : Type ℓ} → Option (Result E AddedLines) → AddedLines
lines_or_nil none = []
lines_or_nil (some (ok added)) = added
lines_or_nil (some (err e)) = []

module _ {ℓ} {E : Type ℓ} (store : PromotionBatch → Option E) (has_checks : Bool)
    (added : Option (String → String → Result E AddedLines)) where
  abbrev pub added_result : PromotionBatch → Option (Result E AddedLines)
  added_result b = elim added [ none ↦ none | some f ↦ some (f b.repo_id b.git_sha) ]

  abbrev pub check_input : PromotionBatch → CheckRunInput
  check_input b = record {
    repo_id = b.repo_id;
    branch = b.branch;
    git_sha = b.git_sha;
    file_paths = map (λ f. f.path) b.files;
    added_lines = lines_or_nil (added_result b);
  }

  -- What follows the store's success; an empty batch ends early.
  unfoldable pub after_commit : PromotionBatch → List PromotionFile → Area → Outcome E
  after_commit b [] s = record { error = none; area = s; checked = none }
  after_commit b (f ∷ fs) s = record {
    error = none;
    area = delete_files b.repo_id b.branch (f ∷ fs) s;
    checked = if has_checks then some (check_input b) else none;
  }

  unfoldable pub settle : PromotionBatch → Option E → Area → Outcome E
  unfolding after_commit
  settle b (some e) s = record { error = some e; area = s; checked = none }
  settle b none s = after_commit b b.files s

  -- Promote: `s` is the area at the snapshot, and `later` the area when the store has returned.
  unfoldable pub promote : String → String → String → Actor → ℕ → (s later : Area) → Outcome E
  promote repo_id branch git_sha actor now s later =
      let b = batch_of repo_id branch git_sha actor now s in settle b (store b) later
