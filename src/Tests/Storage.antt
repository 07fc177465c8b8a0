-- ===== src/Tests/Storage.antt =====
-- The vector codec and the rotating log writer on small inputs.
use veska.Common.{
  ℕ, zero, suc, ◌-◌, ◌≡◌, refl, true, false, none, some, List, [], ◌∷◌, ◌++◌, map, length, ◌==◌,
  nat_eq, leb, if◌then◌else◌, arith, pos,
}
use veska.VecCodec
use veska.LogRotate
use veska.LogRotate.Copies
use veska.LogRotate.Failure

-- 1.0 is 0x3F800000.
encode_one : VecCodec.encode_float32_le (1065353216 ∷ []) ≡ 0 ∷ 0 ∷ 128 ∷ 63 ∷ []
unfolding VecCodec.encode_float32_le
encode_one = refl

abbrev two_words : List ℕ
two_words = 1065353216 ∷ 7 ∷ []

abbrev five_bytes : List ℕ
five_bytes = 1 ∷ 2 ∷ 3 ∷ 4 ∷ 5 ∷ []

decode-encode_example :
    VecCodec.decode_float32_le
      (VecCodec.encode_float32_le two_words ++ 255 ∷ [])
      (pos (length two_words))
    ≡ some two_words
decode-encode_example = VecCodec.decode-encode two_words (255 ∷ []) (omega arith, (omega arith, tt))

abbrev two_copies : LogRotate.Files
two_copies zero = some (10 ∷ 11 ∷ [])
two_copies (suc zero) = some (20 ∷ [])
two_copies (suc (suc zero)) = some (30 ∷ [])
two_copies _ = none

abbrev second : ℕ
second = 2

abbrev writer : LogRotate.Writer
writer = record {
  open_file = true;
  current_size = 2;
  limit_bytes = 3;
  max_files = 2;
  files = two_copies;
}

rotate_copies_example :
    let (w', fine) = LogRotate.rotate LogRotate.no_faults writer in
    (fine ≡ true)
    × (w'.open_file ≡ true)
    × (w'.current_size ≡ 0)
    × (w'.files second ≡ (
        if second == 0
        then some []
        else if leb second (suc 1)
        then two_copies (second - 1)
        else two_copies second))
rotate_copies_example = Copies.rotate_copies writer 1 second refl refl refl

abbrev rename_fails : LogRotate.Faults
rename_fails = record LogRotate.no_faults { rename = λ i. true }

rotation_fails : (LogRotate.rotate rename_fails writer).1 ≡ false
unfolding LogRotate.rotate LogRotate.rotate_closed LogRotate.shift
rotation_fails = refl

abbrev later_ops : List (LogRotate.Faults × Failure.Op)
later_ops =
    (LogRotate.no_faults, Failure.do_reopen) ∷ (LogRotate.no_faults, Failure.do_write (1 ∷ [])) ∷ []

failed_rotation_is_final_example :
    Failure.run later_ops (LogRotate.rotate rename_fails writer).0
    ≡ ((LogRotate.rotate rename_fails writer).0, map (λ o. false) later_ops)
failed_rotation_is_final_example =
    Failure.failed_rotation_is_final rename_fails writer later_ops rotation_fails
