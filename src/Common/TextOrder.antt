-- ===== src/Common/TextOrder.antt =====
-- `s < t` on Go strings: by bytes, which in UTF-8 is the order of the code points.
use Prim.Native.Nat.{Ordering, compare as compare_ℕ}
use Prim.Native.Char.{Char, code}
use Prim.Native.String.{String, compare, then}
use Prim.Native.String.compare
use mathlib.Core.Path.{◌≡◌, ap}
use mathlib.Core.Bool.{Bool, true, false}
use native.Mathlib.Omega.{arith}
use text.Mathlib.TextPositions.{compare_refl}

abbrev is_lt : Ordering → Bool
is_lt o = elim o [ Ordering.lt ↦ true | _ ↦ false ]

abbrev pub str_lt : String → String → Bool
str_lt s t = is_lt (compare s t)

compare-nil_cons : (d : Char) (t : String) → compare String.[] (String.◌∷◌ d t) ≡ Ordering.lt
compare-nil_cons d t i = compare.nil-cons d t i

compare-cons_nil : (c : Char) (s : String) → compare (String.◌∷◌ c s) String.[] ≡ Ordering.gt
compare-cons_nil c s i = compare.cons-nil c s i

compare-cons_cons :
    (c d : Char) (s t : String)
    → compare (String.◌∷◌ c s) (String.◌∷◌ d t) ≡ then (compare_ℕ (code c) (code d)) (compare s t)
compare-cons_cons c d s t i = compare.cons-cons c d s t i

pub str_lt_asymm : (s t : String) → str_lt s t ≡ true → str_lt t s ≡ false
str_lt_asymm String.[] String.[] h = ap is_lt (compare_refl String.[])
str_lt_asymm String.[] (String.◌∷◌ d t) h = ap is_lt (compare-cons_nil d t)
str_lt_asymm (String.◌∷◌ c s) String.[] h = ground (arith, compare-cons_nil c s)
str_lt_asymm (String.◌∷◌ c s) (String.◌∷◌ d t) h =
    ground (arith, compare-cons_cons c d s t, compare-cons_cons d c t s, str_lt_asymm s t)

pub str_lt_neg_trans :
    (s t u : String) → str_lt t s ≡ false → str_lt u t ≡ false → str_lt u s ≡ false
str_lt_neg_trans String.[] String.[] u h k = k
str_lt_neg_trans String.[] (String.◌∷◌ d t) String.[] h k = ap is_lt (compare_refl String.[])
str_lt_neg_trans String.[] (String.◌∷◌ d t) (String.◌∷◌ e u) h k = ap is_lt (compare-cons_nil e u)
str_lt_neg_trans (String.◌∷◌ c s) String.[] u h k = absurd (ground (arith, compare-nil_cons c s))
str_lt_neg_trans (String.◌∷◌ c s) (String.◌∷◌ d t) String.[] h k =
    absurd (ground (arith, compare-nil_cons d t))
str_lt_neg_trans (String.◌∷◌ c s) (String.◌∷◌ d t) (String.◌∷◌ e u) h k = ground (
  arith,
  compare-cons_cons d c t s,
  compare-cons_cons e d u t,
  compare-cons_cons e c u s,
  str_lt_neg_trans s t u,
)
