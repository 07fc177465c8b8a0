-- ===== src/Tests/Checks.antt =====
-- The structural checks, the proposals of the auto linker and the words of a symbol on small inputs.
use Prim.Native.Char.{Char}
use veska.Common.{
  occurrences, ℕ, ◌≡◌, ◌≤◌, ◌*◌, refl, Bool, true, false, not, ◌&&◌, ◌||◌, Option, none, some, List,
  [], ◌∷◌, String, Result, ok, err, ◌==◌, string_eq, nat_eq, leb, contains, keep_if, some_of,
  is_nil, All, pos, ◌↔◌, ◌⊎◌,
}
use veska.PathFilter.{is_test_file, is_test_base, after_separator, is_vendored, split_segments}
use veska.Coverage.{NodeRef}
use veska.VecCodec.{decode_float32_le, decode_from, u32_at}
use veska.Checks.DeadCode
use veska.Checks.Untested
use veska.Autolink
use veska.Autolink.Proposals.{candidates_lem, IsProposal, proposals_of}
use veska.Tokenize
use veska.Tokenize.Split

abbrev node_row : String → String → NodeRef
node_row id name = record {
  node_id = id;
  file_path = "a.go";
  kind = "function";
  name = name;
  line_start = pos 1;
  line_end = pos 2;
  content_hash = "";
}

abbrev no_capital : Char → Bool
no_capital c = false

abbrev digest : String → String → String → String
digest rule anchor key = anchor

-- A dead function, one without an id, and the entry point.
abbrev dead_rows : List NodeRef
dead_rows = node_row "n1" "f" ∷ node_row "" "g" ∷ node_row "n3" "main" ∷ []

abbrev dead_query : String → String → List String → Result String (List NodeRef)
dead_query repo branch files = ok dead_rows

abbrev names_query : String → String → Result String (List String)
names_query repo branch = err "busy"

abbrev tracked : Option (String → Result String String)
tracked = some (λ repo. ok "tracked")

one_dead :
    keep_if (λ n. not (DeadCode.is_skipped no_capital [] n) && not (n.node_id == "")) dead_rows
    ≡ node_row "n1" "f" ∷ []
unfolding keep_if contains is_test_file is_test_base after_separator is_vendored split_segments
    some_of
one_dead = refl

abbrev caller_rows : List Untested.NodeCallers
caller_rows =
    record { node = node_row "n1" "f"; caller_files = "b.go" ∷ [] }
    ∷ record { node = node_row "n2" "g"; caller_files = "b_test.go" ∷ [] }
    ∷ []

abbrev callers_query : String → String → List String → Result String (List Untested.NodeCallers)
callers_query repo branch files = ok caller_rows

abbrev no_names : Option (String → String → Result String (List String))
no_names = none

abbrev linker : Autolink.Linker
linker = record { k = 1; threshold = 5 }

abbrev refs : Autolink.EmbeddingLookup String
refs = record {
  content_hash_for_node = λ id. ok ("h", true);
  lookup_existing = λ hash. ok (some (record { blob = 1 ∷ 0 ∷ 0 ∷ 0 ∷ []; dim = pos 1 }));
}

-- The node itself, a distant one, and two close ones.
abbrev hits : List Autolink.Hit
hits =
    record { node_id = "a"; score = 9 }
    ∷ record { node_id = "d"; score = 4 }
    ∷ record { node_id = "b"; score = 8 }
    ∷ record { node_id = "c"; score = 7 }
    ∷ []

abbrev search : List ℕ → ℕ → Result String (List Autolink.Hit)
search vec k = ok hits

abbrev proposal : Autolink.Candidate
proposal = record {
  source_node_id = "a";
  target_node_id = "b";
  score = 8;
  repo_id = "r";
  branch = "main";
}

candidates-small : Autolink.candidates linker "r" "main" refs search ("a" ∷ []) ≡ ok (proposal ∷ [])
unfolding Autolink.candidates Autolink.emit decode_float32_le decode_from u32_at
candidates-small = refl

candidates_lem_example :
    All (IsProposal linker "r" "main" ("a" ∷ [])) (proposal ∷ [])
    × ((a : String)
        → proposals_of linker "r" "main" refs search a (proposal ∷ [])
          ≤ occurrences a ("a" ∷ []) * 1)
candidates_lem_example =
    candidates_lem linker "r" "main" refs search ("a" ∷ []) (proposal ∷ []) candidates-small

-- The classes of ASCII.
abbrev ascii : Tokenize.Classes
ascii = record {
  is_upper = λ r. leb 65 r && leb r 90;
  is_lower = λ r. leb 97 r && leb r 122;
  is_digit = λ r. leb 48 r && leb r 57;
  is_letter = λ r. (leb 65 r && leb r 90) || (leb 97 r && leb r 122);
  is_space = λ r. r == 32;
}

-- "aBCd" is "a", "B" and "Cd".
abbrev camel : Tokenize.Text
camel = 97 ∷ 66 ∷ 67 ∷ 100 ∷ []

camel_parts : Tokenize.split_camel ascii camel ≡ (97 ∷ []) ∷ (66 ∷ []) ∷ (67 ∷ 100 ∷ []) ∷ []
unfolding Tokenize.split_camel Tokenize.split_from
camel_parts = refl

split_camel_lem_example :
    (Split.join_all (Tokenize.split_camel ascii camel) ≡ camel)
    × All (λ p. is_nil p ≡ false) (Tokenize.split_camel ascii camel)
    × ((i : ℕ)
        → (contains (Split.offsets 0 (Tokenize.split_camel ascii camel)) i ≡ true)
          ↔ ((i ≡ 0) ⊎ Split.BoundaryAt ascii camel i))
split_camel_lem_example = Split.split_camel_lem ascii 97 (66 ∷ 67 ∷ 100 ∷ [])

abbrev colons : Tokenize.Text
colons = 58 ∷ 66 ∷ 58 ∷ 58 ∷ []

symbol-small : Tokenize.symbol ascii (58 ∷ 97 ∷ 66 ∷ []) ≡ 97 ∷ 66 ∷ 32 ∷ 97 ∷ 32 ∷ 66 ∷ []
unfolding Tokenize.symbol Tokenize.flatten_non_alnum Tokenize.flatten_from Tokenize.trim_right
    Tokenize.fields_from Tokenize.expand_all Tokenize.split_camel Tokenize.split_from
    Tokenize.spaced
symbol-small = refl
