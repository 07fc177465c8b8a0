-- ===== src/Tokenize/Flatten.antt =====
-- flattenNonAlnum of internal/platform/tokenize/symbol.go: it keeps the letters and digits, and puts
-- single spaces between them.
use veska.Common.{
  ◌≡◌, refl, sym, ap, ◌∙◌, inl, inr, Bool, true, false, not, ◌&&◌, [], ◌∷◌, ◌==◌, nat_eq,
  if◌then◌else◌, eqb_iff, is_nil, is_nil-inv, keep_if, Bool-cases, arith,
}
use veska.Tokenize.{
  Rune, Text, space, Classes, is_alnum, flatten_from, trim_right, flatten_non_alnum,
}

-- No space stands at the start after a space, beside another, or at the end.
unfoldable pub is_tidy : Bool → Text → Bool
is_tidy after_space [] = true
is_tidy after_space (r ∷ rs) =
    let next = is_tidy (r == space) rs in
    if r == space then not after_space && (not (is_nil rs) && next) else next

unfoldable is_loose : Bool → Text → Bool
is_loose after_space [] = true
is_loose after_space (r ∷ rs) =
    let next = is_loose (r == space) rs in if r == space then not after_space && next else next

is_tidy-trim_right :
    (after_space : Bool) (t : Text)
    → is_loose after_space t ≡ true
    → is_tidy after_space (trim_right t) ≡ true
unfolding is_tidy is_loose trim_right
is_tidy-trim_right after_space [] h = refl
is_tidy-trim_right after_space (r ∷ rs) h = elim (Bool-cases (r == space)) [
  | inl blank ↦ elim (Bool-cases (is_nil (trim_right rs))) [
    | inl last ↦ rw (blank, last) refl
    | inr more ↦ ground (arith, is_tidy-trim_right (r == space) rs)
  ]
  | inr rune ↦ ground (arith, is_tidy-trim_right (r == space) rs)
]

module _ (u : Classes) (apart : is_alnum u space ≡ false) where
  no_space : (r : Rune) → is_alnum u r ≡ true → (r == space) ≡ false
  no_space r h = elim (Bool-cases (r == space)) [
    | inl same ↦ absurd (cc (ap (is_alnum u) ((eqb_iff r space).0 same), h, apart))
    | inr other ↦ other
  ]

  is_loose-flatten_from : (prev : Bool) (t : Text) → is_loose prev (flatten_from u prev t) ≡ true
  unfolding is_loose flatten_from
  is_loose-flatten_from prev [] = refl
  is_loose-flatten_from prev (r ∷ rs) = elim (Bool-cases (is_alnum u r)) [
    | inl kept ↦ rw kept (
        ground (
          arith,
          no_space r kept,
          is_loose-flatten_from false rs,
          ap (λ b. is_loose b (flatten_from u false rs)) (no_space r kept),
        ))
    | inr dropped ↦ elim (Bool-cases prev) [
      | inl again ↦ rw (dropped, again) (ground (arith, is_loose-flatten_from true rs))
      | inr first ↦ rw (dropped, first) (is_loose-flatten_from true rs)
    ]
  ]

  keep_if-flatten_from :
      (prev : Bool) (t : Text)
      → keep_if (is_alnum u) (flatten_from u prev t) ≡ keep_if (is_alnum u) t
  unfolding keep_if flatten_from
  keep_if-flatten_from prev [] = refl
  keep_if-flatten_from prev (r ∷ rs) = elim (Bool-cases (is_alnum u r)) [
    | inl kept ↦ rw (kept, kept, keep_if-flatten_from false rs) refl
    | inr dropped ↦ elim (Bool-cases prev) [
      | inl again ↦ rw (dropped, again) (keep_if-flatten_from true rs)
      | inr first ↦ rw (dropped, first, apart) (keep_if-flatten_from true rs)
    ]
  ]

  keep_if-trim_right : (t : Text) → keep_if (is_alnum u) (trim_right t) ≡ keep_if (is_alnum u) t
  unfolding keep_if trim_right
  keep_if-trim_right [] = refl
  keep_if-trim_right (r ∷ rs) = elim (Bool-cases (r == space && is_nil (trim_right rs))) [
    | inl last ↦
        let blank : r ≡ space = (eqb_iff r space).0 (ground (arith, last)) in
        let none_left : trim_right rs ≡ [] = is_nil-inv (trim_right rs) (ground (arith, last)) in
        rw (last, ap (is_alnum u) blank, apart)
          (sym (ap (keep_if (is_alnum u)) none_left) ∙ keep_if-trim_right rs)
    | inr more ↦ rw (more, keep_if-trim_right rs) refl
  ]

  -- The flattened text has the letters and digits of the text, in their order, and no space at its
  -- ends or beside another.
  pub flatten_lem :
      (text : Text)
      → (keep_if (is_alnum u) (flatten_non_alnum u text) ≡ keep_if (is_alnum u) text)
        × (is_tidy true (flatten_non_alnum u text) ≡ true)
  unfolding flatten_non_alnum
  flatten_lem text = (
    keep_if-trim_right (flatten_from u true text) ∙ keep_if-flatten_from true text,
    is_tidy-trim_right true (flatten_from u true text) (is_loose-flatten_from true text),
  )
