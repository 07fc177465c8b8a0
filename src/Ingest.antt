-- ===== src/Ingest.antt =====
-- internal/application/ingester.go. The parser is a parameter that gives a result or fails; the
-- generation that save reads and the one that Stage finds are arguments, so that a branch switch
-- may fall between them. Tracing and logging are left out.
pub mod Emission
pub mod Saving
use veska.Common.{ℕ, Bool, true, false, Option, none, some, List, [], ◌∷◌, ◌++◌, String}
use veska.Domain.ParseResult.{ParseResult, ParseFailure}
use veska.Staging.Area.{Area, File, Key, stage}
use Emission.{Emitter, StoreCall, parse_failures, clear_parse_failure, todos}

abbrev pub parsed_file : ParseResult → File
parsed_file r = record {
  nodes = r.nodes;
  edges = r.edges;
  unresolved_calls = r.unresolved_calls;
  imports = r.imports;
}

abbrev pub tombstone : File
tombstone = record { nodes = []; edges = []; unresolved_calls = []; imports = [] }

abbrev pub path_key : String → String → String → Key
path_key repo_id branch path = record { repo_id = repo_id; branch = branch; file_path = path }

module _ (emitter : Emitter) (repo_id branch path : String) where
  -- The parse-failure finding is cleared on a clean parse, but not during a cold scan.
  unfoldable pub report_failures : Bool → List ParseFailure → List StoreCall
  report_failures true [] = []
  report_failures false [] = clear_parse_failure emitter repo_id branch path
  report_failures cold_scan (f ∷ fs) = parse_failures emitter repo_id branch path (f ∷ fs)

  -- `save` after its wait: `none` is a parse error.
  unfoldable pub save : Bool → ℕ → ℕ → Option ParseResult → Area → Area × List StoreCall
  unfolding report_failures
  save cold_scan gen current none s = (s, [])
  save cold_scan gen current (some r) s = (
    (stage (some (gen, current)) (path_key repo_id branch path) (parsed_file r) s).0,
    report_failures cold_scan r.failures ++ todos emitter repo_id branch path r.todos,
  )

  unfoldable pub delete_file : ℕ → ℕ → Area → Area × List StoreCall
  delete_file gen current s = (
    (stage (some (gen, current)) (path_key repo_id branch path) tombstone s).0,
    clear_parse_failure emitter repo_id branch path,
  )
