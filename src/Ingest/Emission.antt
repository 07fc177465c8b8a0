-- ===== src/Ingest/Emission.antt =====
-- internal/application/findingemitter.go: findings about parse failures and TODO markers. What the
-- emitter asks of the finding store is a list of calls; the store's errors are only logged. The
-- digest of a finding's identity and the decimal form of an integer are parameters.
use Prim.Native.String.{◌++◌ as concat}
use veska.Common.{
  ℕ, zero, suc, ◌-◌, Bool, not, List, [], ◌∷◌, String, Result, ok, err, ◌==◌, string_eq, length,
  ltb, ltz, ℤ, pos, if◌then◌else◌,
}
use veska.Domain.ParseResult.{ParseFailure, ParseTodo}
use veska.Domain.Finding.{Finding, FindingSpec, FindingError, with_file_anchor, new_finding}

pub data StoreCall : Type 0 where
  save_finding : Finding → StoreCall
  close_obsolete : String → String → StoreCall

pub record Emitter : Type 0 where
  pub has_sink : Bool
  pub derive : String → String → String → String
  pub decimal : ℤ → String

abbrev pub spec_for : String → String → String → String → String → FindingSpec
spec_for repo_id branch severity rule message = record {
  repo_id = repo_id;
  branch = branch;
  severity = severity;
  layer = "structural";
  rule = rule;
  message = message;
}

abbrev pub saving {ℓ} : {E : Type ℓ} → Result E Finding → List StoreCall
saving (ok f) = save_finding f ∷ []
saving (err e) = []

abbrev pub closing {ℓ} : {E : Type ℓ} → String → Result E Finding → List StoreCall
closing branch (ok f) = close_obsolete f.finding_id branch ∷ []
closing branch (err e) = []

abbrev pub failure_message : (ℤ → String) → String → ParseFailure → String
failure_message decimal path first =
    let base = concat "parse failure in " path in
    if not (first.message == "")
    then (if ltz (pos 0) first.line
        then concat base
            (concat " at line " (concat (decimal first.line) (concat ": " first.message)))
        else concat base (concat ": " first.message))
    else base

abbrev pub failure_finding :
    Emitter → String → String → String → String → Result FindingError Finding
failure_finding e repo_id branch path message =
    new_finding e.derive (spec_for repo_id branch "medium" "parse-failure" message)
      (with_file_anchor path ∷ [])

unfoldable pub parse_failures :
    Emitter → String → String → String → List ParseFailure → List StoreCall
parse_failures e repo_id branch path [] = []
parse_failures e repo_id branch path (first ∷ rest) =
    if e.has_sink
    then saving (failure_finding e repo_id branch path (failure_message e.decimal path first))
    else []

unfoldable pub clear_parse_failure : Emitter → String → String → String → List StoreCall
clear_parse_failure e repo_id branch path =
    if e.has_sink
    then closing branch (failure_finding e repo_id branch path "parse failure cleared")
    else []

abbrev inline_cap : ℕ
inline_cap = 5

-- `strings.Join(parts, "; ")` over the markers that are listed.
unfoldable pub join_parts : (ℤ → String) → ℕ → List ParseTodo → String
join_parts decimal zero ts = ""
join_parts decimal (suc n) [] = ""
join_parts decimal (suc n) (t ∷ []) = concat "L" (concat (decimal t.line) (concat ": " t.message))
join_parts decimal (suc zero) (t ∷ u ∷ ts) =
    concat "L" (concat (decimal t.line) (concat ": " t.message))
join_parts decimal (suc (suc n)) (t ∷ u ∷ ts) = concat "L" (
    concat (decimal t.line)
      (concat ": " (concat t.message (concat "; " (join_parts decimal (suc n) (u ∷ ts))))))

abbrev pub todo_message : (ℤ → String) → String → List ParseTodo → String
todo_message decimal path ts =
    let n = length ts in
    let listed = join_parts decimal inline_cap ts in
    let summary =
      if ltb inline_cap n
      then concat listed (concat "; (+" (concat (decimal (pos (n - inline_cap))) " more)"))
      else listed in
    concat (decimal (pos n))
      (concat " TODO/FIXME marker(s) in " (concat path (concat ": " summary)))

unfoldable pub todos : Emitter → String → String → String → List ParseTodo → List StoreCall
unfolding join_parts
todos e repo_id branch path [] = []
todos e repo_id branch path (t ∷ ts) =
    if e.has_sink
    then saving (
        new_finding e.derive
          (spec_for repo_id branch "info" "todo" (todo_message e.decimal path (t ∷ ts)))
          (with_file_anchor path ∷ []))
    else []
