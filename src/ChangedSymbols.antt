-- ===== src/ChangedSymbols.antt =====
-- internal/application/changedsymbols/changedsymbols.go: which symbols differ between two refs. The
-- list of changed files, the content of a file at a ref, the parser and the digest of a body are
-- parameters. The parser's nodes are not nil.
pub mod Classes
pub mod Same
use Prim.Native.String.{◌++◌ as concat}
use veska.Common.{
  ℕ, zero, suc, ◌+◌, Bool, true, false, not, ◌||◌, Option, none, some, List, [], ◌∷◌, ◌++◌, String,
  Result, ok, err, ◌>>=◌, ◌==◌, string_eq, nat_eq, if◌then◌else◌, length, ltb, sort_by, str_lt, ℤ,
  pos,
}
use veska.Common.Dict.{Dict, lookup, insert, is_present}
use veska.Domain.Node.{Node, LineRange}

pub data Change : Type 0 where
  added_symbol removed_symbol modified_symbol : Change

pub record SymbolChange : Type 0 where
  pub symbol_path : String
  pub name : String
  pub kind : String
  pub file_path : String
  pub line_start : ℤ
  pub line_end : ℤ
  pub change : Change

-- `Result`.
pub record SymbolDiff : Type 0 where
  pub added : List SymbolChange
  pub removed : List SymbolChange
  pub modified : List SymbolChange
  pub degraded_reasons : List String

abbrev pub no_changes : SymbolDiff
no_changes = record { added = []; removed = []; modified = []; degraded_reasons = [] }

pub data ReadError : Type 0 where
  absent_at_ref unreadable : ReadError

unfoldable pub symbol_key : Node → String
symbol_key n = concat n.path (concat "::" n.name)

abbrev pub start_of : Option LineRange → ℤ
start_of none = pos 0
start_of (some r) = r.start

abbrev pub end_of : Option LineRange → ℤ
end_of none = pos 0
end_of (some r) = r.end

abbrev pub to_change : String → Node → Change → SymbolChange
to_change path n c = record {
  symbol_path = symbol_key n;
  name = n.name;
  kind = n.kind;
  file_path = path;
  line_start = start_of n.lines;
  line_end = end_of n.lines;
  change = c;
}

abbrev pub size : SymbolDiff → ℕ
size res = length res.added + length res.removed + length res.modified

-- The nodes of one version of a file, by symbol; the chunks are no symbols.
unfoldable pub keyed : List Node → Dict String Node → Dict String Node
keyed [] m = m
keyed (n ∷ ns) m = keyed ns (if n.kind == "chunk" then m else insert (symbol_key n) n m)

-- The running result of Diff.
pub record Progress : Type 0 where
  pub res : SymbolDiff
  pub non_symbol_only_files : ℕ
  pub baseline_unreachable : Bool

unfoldable pub with_reasons : Progress → SymbolDiff
with_reasons p =
    if size p.res == 0
    then (if p.baseline_unreachable
        then record p.res { degraded_reasons = "baseline_ref_not_indexed" ∷ [] }
        else if ltb 0 p.non_symbol_only_files
        then record p.res { degraded_reasons = "non_symbol_changes_only" ∷ [] }
        else p.res)
    else p.res

unfoldable pub sort_changes : List SymbolChange → List SymbolChange
sort_changes = sort_by (λ x y. str_lt x.symbol_path y.symbol_path)

abbrev pub sorted : SymbolDiff → SymbolDiff
sorted res = record res {
  added = sort_changes res.added;
  removed = sort_changes res.removed;
  modified = sort_changes res.modified;
}

module _ (digest : String → String) where
  abbrev pub hash_of : Option String → Option String → String
  hash_of (some h) raw = h
  hash_of none (some raw) = digest raw
  hash_of none none = ""

  unfoldable pub content_hash : Node → String
  content_hash n = hash_of n.content_hash n.raw_content

  -- One symbol of the new version, against the old one.
  unfoldable pub compare_symbol : String → Option Node → Node → SymbolDiff → SymbolDiff
  compare_symbol path none nb res = record res {
    added = res.added ++ to_change path nb added_symbol ∷ [];
  }
  compare_symbol path (some na) nb res =
      if content_hash na == content_hash nb
      then res
      else record res { modified = res.modified ++ to_change path nb modified_symbol ∷ [] }

  unfoldable pub classify_new :
      String → Dict String Node → Dict String Node → SymbolDiff → SymbolDiff
  classify_new path a [] res = res
  classify_new path a ((key, nb) ∷ b) res =
      classify_new path a b (compare_symbol path (lookup key a) nb res)

  -- One symbol of the old version, and whether the new one has it.
  unfoldable pub compare_gone : String → Bool → Node → SymbolDiff → SymbolDiff
  compare_gone path true na res = res
  compare_gone path false na res = record res {
    removed = res.removed ++ to_change path na removed_symbol ∷ [];
  }

  unfoldable pub classify_gone :
      String → Dict String Node → Dict String Node → SymbolDiff → SymbolDiff
  classify_gone path b [] res = res
  classify_gone path b ((key, na) ∷ a) res =
      classify_gone path b a (compare_gone path (is_present (lookup key b)) na res)

  unfoldable pub classify_file :
      String → Dict String Node → Dict String Node → SymbolDiff → SymbolDiff
  classify_file path a b res = classify_gone path b a (classify_new path a b res)

  module _ {ℓ} {E : Type ℓ} (changed_files : String → String → Result E (List String))
      (file_at_ref : String → String → Result ReadError String)
      (parse_file : String → String → Result E (List Node)) where
    abbrev pub parse_read : String → Result ReadError String → Result E (Dict String Node × Bool)
    parse_read path (err absent_at_ref) = ok ([], false)
    parse_read path (err unreadable) = ok ([], true)
    parse_read path (ok content) = parse_file path content >>= λ ns. ok (keyed ns [], false)

    unfoldable pub parse_at_ref : String → String → Result E (Dict String Node × Bool)
    parse_at_ref ref path = parse_read path (file_at_ref ref path)

    -- One changed file.
    abbrev pub with_file :
        String → Dict String Node × Bool → Dict String Node × Bool → Progress → Progress
    with_file path (a, unreachable) (b, _) p =
        let after = classify_file path a b p.res in
        record {
          res = after;
          non_symbol_only_files =
              p.non_symbol_only_files + (if size p.res == size after then 1 else 0);
          baseline_unreachable = p.baseline_unreachable || unreachable;
        }

    unfoldable pub diff_files : String → String → List String → Progress → Result E Progress
    diff_files ref_a ref_b [] p = ok p
    diff_files ref_a ref_b (path ∷ paths) p = do
      a ← parse_at_ref ref_a path
      b ← parse_at_ref ref_b path
      diff_files ref_a ref_b paths (with_file path a b p)

    unfoldable pub diff : String → String → Result E SymbolDiff
    unfolding diff_files
    diff ref_a ref_b = do
      files ← changed_files ref_a ref_b
      p ←
          diff_files ref_a ref_b files
            (record { res = no_changes; non_symbol_only_files = 0; baseline_unreachable = false })
      ok (sorted (with_reasons p))
