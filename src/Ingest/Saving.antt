-- ===== src/Ingest/Saving.antt =====
-- What a save leaves in the staging area and asks of the finding store.
use veska.Common.{
  ℕ, ◌≡◌, refl, ◌≢◌, Bool, true, ◌&&◌, Option, none, some, List, [], ◌∷◌, String, ok, ◌==◌,
  string_eq, nat_eq, eq_iff, if◌then◌else◌, arith, contains,
}
use veska.Common.Dict.{lookup}
use veska.Domain.Actor.{Actor}
use veska.Domain.ParseResult.{ParseResult, ParseFailure}
use veska.Domain.Finding.{
  Finding, FindingSpec, with_file_anchor, new_finding, severity_valid, apply_options, apply_option,
  blank,
}
use veska.Staging.Area.{Area, Key, Entry, key_eq, key_beq_iff, entry_of}
use veska.Staging.Area.Laws.{lookup-stage}
use veska.Promotion.{batch_of, promotion_file}
use veska.Promotion.Flush.{carried, carried-batch_of}
use veska.Ingest.Emission.{
  Emitter, save_finding, close_obsolete, spec_for, parse_failures, clear_parse_failure,
  failure_finding, failure_message,
}
use veska.Ingest.{parsed_file, tombstone, path_key, save, delete_file}

-- The entry that a parse leaves for its file, over the old one.
abbrev pub staged_or : Option Entry → Option ParseResult → Option Entry
staged_or old none = old
staged_or old (some r) = some (entry_of (parsed_file r))

-- A finding anchored to a file is built whenever its rule, severity, layer and path are good.
abbrev file_finding : Emitter → FindingSpec → String → Finding
file_finding e spec path = record (blank spec) {
  file_path = some path;
  finding_id = e.derive spec.rule path "";
}

new_finding-file_finding :
    (e : Emitter) (repo_id branch severity rule message path : String)
    → path ≢ ""
    → rule ≢ ""
    → severity_valid severity ≡ true
    → let spec = spec_for repo_id branch severity rule message in
      new_finding e.derive spec (with_file_anchor path ∷ []) ≡ ok (file_finding e spec path)
unfolding new_finding apply_options apply_option contains
new_finding-file_finding e repo_id branch severity rule message path p r s =
    ground (arith, eq_iff rule "", eq_iff path "")

failure_finding-ok :
    (e : Emitter) (repo_id branch path message : String)
    → path ≢ ""
    → failure_finding e repo_id branch path message
      ≡ ok (file_finding e (spec_for repo_id branch "medium" "parse-failure" message) path)
unfolding severity_valid
failure_finding-ok e repo_id branch path message p =
    new_finding-file_finding e repo_id branch "medium" "parse-failure" message path p
      (ground (arith, eq_iff "parse-failure" "")) refl

module _ (e : Emitter) (repo_id branch path : String) where
  -- With a sink and a path, a parse with failures saves one finding, and a later clean parse closes
  -- just the finding with that identifier, on the same branch, whatever the failures were.
  pub clear_closes_saved :
      (first : ParseFailure) (rest : List ParseFailure)
      → e.has_sink ≡ true
      → path ≢ ""
      → (f : Finding) × (parse_failures e repo_id branch path (first ∷ rest) ≡ save_finding f ∷ [])
        × (clear_parse_failure e repo_id branch path ≡ close_obsolete f.finding_id branch ∷ [])
  unfolding parse_failures clear_parse_failure
  clear_closes_saved first rest h p =
      let message = failure_message e.decimal path first in
      (
        file_finding e (spec_for repo_id branch "medium" "parse-failure" message) path,
        rw (h, failure_finding-ok e repo_id branch path message p) refl,
        rw (h, failure_finding-ok e repo_id branch path "parse failure cleared" p) refl,
      )

  -- A save stages its file exactly when the file parsed and the generation did not move; the entry
  -- is what the parser gave, and every other entry is as it was.
  pub lookup-save :
      (cold_scan : Bool) (gen current : ℕ) (parsed : Option ParseResult) (s : Area) (j : Key)
      → lookup j (save e repo_id branch path cold_scan gen current parsed s).0 ≡ (
          if gen == current && j == path_key repo_id branch path
          then staged_or (lookup j s) parsed
          else lookup j s)
  unfolding save
  lookup-save cold_scan gen current none s j = ground arith
  lookup-save cold_scan gen current (some r) s j =
      (lookup-stage (some (gen, current)) (path_key repo_id branch path) j (parsed_file r) s).1

  -- A file that was removed from the tree, with no branch switch meanwhile, is staged as a
  -- tombstone, and the next promotion of its branch carries the file to the store with no nodes and
  -- no edges.
  pub delete_file_promoted :
      (gen : ℕ) (s : Area) (git_sha : String) (actor : Actor) (now : ℕ)
      → let after = (delete_file e repo_id branch path gen gen s).0 in
        carried path (batch_of repo_id branch git_sha actor now after).files
        ≡ some (promotion_file (path, tombstone))
  unfolding delete_file
  delete_file_promoted gen s git_sha actor now =
      rw (carried-batch_of repo_id branch git_sha actor now _ path) (
        ground (
          arith,
          lookup-stage (some (gen, gen)) (path_key repo_id branch path)
              (path_key repo_id branch path) tombstone s,
          key_beq_iff (path_key repo_id branch path) (path_key repo_id branch path),
        ))
