-- ===== src/Tokenize.antt =====
-- internal/platform/tokenize/symbol.go: the words of a symbol's text. A text stands as its runes; the
-- classes of Unicode are parameters.
pub mod Flatten
pub mod Split
use mathlib.Core.List.{append_assoc, append-nil}
use veska.Common.{
  ℕ, zero, suc, ◌+◌, ◌≤◌, ◌≡◌, refl, sym, ap, ◌∙◌, inl, inr, Bool, true, false, not, ◌&&◌, ◌||◌,
  List, [], ◌∷◌, ◌++◌, ◌==◌, take, past_first, ◌-◌, nat_eq, if◌then◌else◌, leb, length, is_nil,
  keep_if, All, All-append, Bool-cases, arith,
}

abbrev pub Rune : Type 0
Rune = ℕ

abbrev pub Text : Type 0
Text = List Rune

abbrev pub space : Rune
space = 32

-- `runes[start:i]`.
abbrev pub slice : ℕ → ℕ → Text → Text
slice start i runes = take (i - start) (past_first start runes)

-- `strings.TrimRight(s, " ")`.
unfoldable pub trim_right : Text → Text
trim_right [] = []
trim_right (r ∷ rs) = let rest = trim_right rs in if r == space && is_nil rest then [] else r ∷ rest

-- The classes of the package unicode.
pub record Classes : Type 0 where
  pub is_upper : Rune → Bool
  pub is_lower : Rune → Bool
  pub is_digit : Rune → Bool
  pub is_letter : Rune → Bool
  pub is_space : Rune → Bool

module _ (u : Classes) where
  abbrev pub next_lower : Text → Bool
  next_lower [] = false
  next_lower (r ∷ rs) = u.is_lower r

  -- The three boundaries of splitCamel, before `cur`.
  abbrev pub is_boundary : Rune → Rune → Text → Bool
  is_boundary prev cur rest =
      ((u.is_lower prev || u.is_digit prev) && u.is_upper cur)
      || (u.is_upper prev && (u.is_upper cur && next_lower rest))
      || ((u.is_letter prev && u.is_digit cur) || (u.is_digit prev && u.is_letter cur))

  -- The loop from `i` on, over the runes that are left there; `prev` is the rune before.
  unfoldable pub split_from : Text → ℕ → ℕ → Rune → Text → List Text
  split_from runes start i prev [] = past_first start runes ∷ []
  split_from runes start i prev (cur ∷ rest) =
      let cut = split_from runes i (i + 1) cur rest in
      let grown = split_from runes start (i + 1) cur rest in
      if is_boundary prev cur rest then slice start i runes ∷ cut else grown

  unfoldable pub split_camel : Text → List Text
  unfolding split_from
  split_camel [] = []
  split_camel (r ∷ rs) = split_from (r ∷ rs) 0 1 r rs

  abbrev pub is_alnum : Rune → Bool
  is_alnum r = u.is_letter r || u.is_digit r

  -- The loop of flattenNonAlnum, with `prevSpace`.
  unfoldable pub flatten_from : Bool → Text → Text
  flatten_from prev_space [] = []
  flatten_from prev_space (r ∷ rs) =
      let after_rune = flatten_from false rs in
      let after_space = flatten_from true rs in
      if is_alnum r then r ∷ after_rune else if prev_space then after_space else space ∷ after_space

  unfoldable pub flatten_non_alnum : Text → Text
  unfolding flatten_from trim_right
  flatten_non_alnum text = trim_right (flatten_from true text)

  abbrev with_word : Text → List Text → List Text
  with_word [] words = words
  with_word (r ∷ rs) words = (r ∷ rs) ∷ words

  -- `strings.FieldsSeq`, with the word that has begun.
  unfoldable pub fields_from : Text → Text → List Text
  fields_from word [] = with_word word []
  fields_from word (r ∷ rs) =
      let cut = fields_from [] rs in
      let grown = fields_from (word ++ r ∷ []) rs in
      if u.is_space r then with_word word cut else grown

  unfoldable pub spaced : List Text → Text
  spaced [] = []
  spaced (p ∷ ps) = (space ∷ p) ++ spaced ps

  abbrev expanded : List Text → Text
  expanded parts = if leb 2 (length parts) then spaced parts else []

  unfoldable pub expand_all : List Text → Text
  unfolding split_camel spaced
  expand_all [] = []
  expand_all (chunk ∷ chunks) = expanded (split_camel chunk) ++ expand_all chunks

  unfoldable pub symbol : Text → Text
  unfolding flatten_non_alnum fields_from expand_all
  symbol [] = []
  symbol (r ∷ rs) =
      let flat = flatten_non_alnum (r ∷ rs) in flat ++ expand_all (fields_from [] flat)
