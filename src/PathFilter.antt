-- ===== src/PathFilter.antt =====
-- internal/application/pathfilter/pathfilter.go: the tests on repository paths. A path is read
-- character by character.
use Prim.Native.String.{◌++◌ as concat, len, slice}
use Prim.Native.Char.{Char, code}
use text.Mathlib.TextLemmas.{nil-append, cons-append}
use veska.Common.{
  ◌-◌, ◌≡◌, refl, sym, ap, ◌∙◌, inl, inr, Bool, false, ◌&&◌, ◌||◌, Option, none, some, List, [],
  ◌∷◌, ◌++◌, String, ◌==◌, string_eq, eq_iff, nat_eq, if◌then◌else◌, leb, contains, some_of,
  some_of-append, Bool-cases, Option-cases,
}

abbrev pub vendored_segments : List String
vendored_segments =
    "vendor" ∷ "node_modules" ∷ "third_party" ∷ "bower_components" ∷ "jspm_packages" ∷ []

abbrev is_slash : Char → Bool
is_slash c = code c == 47

abbrev is_separator : Char → Bool
is_separator c = code c == 47 || code c == 92

abbrev onto_first : Char → List String → List String
onto_first c [] = String.◌∷◌ c String.[] ∷ []
onto_first c (seg ∷ segs) = String.◌∷◌ c seg ∷ segs

-- `strings.SplitSeq(path, "/")`.
unfoldable pub split_segments : String → List String
split_segments String.[] = "" ∷ []
split_segments (String.◌∷◌ c s) =
    let rest = split_segments s in if is_slash c then "" ∷ rest else onto_first c rest

unfoldable pub is_vendored : String → Bool
is_vendored path =
    if path == "" then false else some_of (contains vendored_segments) (split_segments path)

-- What follows the last separator, if there is one.
unfoldable pub after_separator : String → Option String
after_separator String.[] = none
after_separator (String.◌∷◌ c s) = elim (after_separator s) [
  | some base ↦ some base
  | none ↦ if is_separator c then some s else none
]

abbrev base_or : String → Option String → String
base_or path none = path
base_or path (some base) = base

abbrev pub base_name : String → String
base_name path = base_or path (after_separator path)

-- `strings.HasPrefix` and `strings.HasSuffix`.
abbrev pub has_prefix : String → String → Bool
has_prefix s p = slice s 0 (len p) == p

abbrev pub has_suffix : String → String → Bool
has_suffix s p = leb (len p) (len s) && slice s (len s - len p) (len s) == p

abbrev script_suffixes : List String
script_suffixes =
    ".test.ts" ∷ ".test.tsx" ∷ ".test.js" ∷ ".test.jsx" ∷ ".spec.ts" ∷ ".spec.tsx" ∷ ".spec.js"
    ∷ ".spec.jsx" ∷ []

unfoldable pub is_test_base : String → Bool
is_test_base base =
    has_suffix base "_test.go"
    || (has_prefix base "test_" && has_suffix base ".py")
    || has_suffix base "_test.py"
    || some_of (has_suffix base) script_suffixes

unfoldable pub is_test_file : String → Bool
is_test_file path = if path == "" then false else is_test_base (base_name path)

onto_first-append :
    (c : Char) (segs more : List String) (first : String)
    → onto_first c ((first ∷ segs) ++ more) ≡ onto_first c (first ∷ segs) ++ more
onto_first-append c segs more first = refl

-- There is always a first segment.
split-cons :
    (s : String) → (first : String) × (segs : List String) × (split_segments s ≡ first ∷ segs)
unfolding split_segments
split-cons String.[] = ("", [], refl)
split-cons (String.◌∷◌ c s) =
    let (first, segs, e) = split-cons s in
    elim (Bool-cases (is_slash c)) [
      | inl slash ↦ ("", split_segments s, rw slash refl)
      | inr other ↦ (String.◌∷◌ c first, segs, rw (other, e) refl)
    ]

slash_front : (b : String) → concat "/" b ≡ String.◌∷◌ "/" b
slash_front b = cons-append "/" String.[] b ∙ ap (λ t. String.◌∷◌ "/" t) (nil-append b)

split-join :
    (a b : String) → split_segments (concat a (concat "/" b)) ≡ split_segments a ++ split_segments b
unfolding split_segments
split-join String.[] b = ap split_segments (nil-append (concat "/" b) ∙ slash_front b)
split-join (String.◌∷◌ c s) b =
    let (first, segs, e) = split-cons s in
    ap split_segments (cons-append c s (concat "/" b)) ∙ elim (Bool-cases (is_slash c)) [
      | inl slash ↦ rw (slash, split-join s b) refl
      | inr other ↦ rw (other, split-join s b, e) refl
    ]

is_vendored-segments :
    (path : String) → is_vendored path ≡ some_of (contains vendored_segments) (split_segments path)
unfolding is_vendored split_segments some_of contains
is_vendored-segments path = elim (Bool-cases (path == "")) [
  | inl empty ↦ rw ((eq_iff path "").0 empty) refl
  | inr other ↦ rw other refl
]

-- A path that is joined from two is vendored exactly when one of the two is.
pub is_vendored_join :
    (a b : String) → is_vendored (concat a (concat "/" b)) ≡ (is_vendored a || is_vendored b)
is_vendored_join a b =
    is_vendored-segments (concat a (concat "/" b))
    ∙ ap (some_of (contains vendored_segments)) (split-join a b)
    ∙ some_of-append (contains vendored_segments) (split_segments a) (split_segments b)
    ∙ cc (is_vendored-segments a, is_vendored-segments b)

after-slash : (b : String) → after_separator (String.◌∷◌ "/" b) ≡ some (base_name b)
unfolding after_separator
after-slash b = elim (Option-cases (after_separator b)) [
  | inl none_there ↦ rw none_there refl
  | inr (base, there) ↦ rw there refl
]

after-join : (a b : String) → after_separator (concat a (concat "/" b)) ≡ some (base_name b)
unfolding after_separator
after-join String.[] b =
    ap after_separator (nil-append (concat "/" b) ∙ slash_front b) ∙ after-slash b
after-join (String.◌∷◌ c s) b =
    ap after_separator (cons-append c s (concat "/" b)) ∙ rw (after_separator, after-join s b) refl

is_test_file-base : (path : String) → is_test_file path ≡ is_test_base (base_name path)
unfolding is_test_file is_test_base some_of after_separator
is_test_file-base path = elim (Bool-cases (path == "")) [
  | inl empty ↦ rw ((eq_iff path "").0 empty) refl
  | inr other ↦ rw other refl
]

-- Whether a file is a test file does not depend on its directory.
pub is_test_file_join :
    (dir file : String) → is_test_file (concat dir (concat "/" file)) ≡ is_test_file file
is_test_file_join dir file =
    is_test_file-base (concat dir (concat "/" file))
    ∙ ap (λ o. is_test_base (base_or (concat dir (concat "/" file)) o)) (after-join dir file)
    ∙ sym (is_test_file-base file)
