-- ===== src/Tests/Promotion.antt =====
-- One file saved, promoted and checked.
use veska.Common.{
  ℕ, ◌≡◌, ◌≢◌, refl, true, ◌&&◌, Option, none, some, [], ◌∷◌, String, string_eq, nat_eq,
  if◌then◌else◌, Result, ok, pos,
}
use veska.Common.Dict.{lookup, is_present}
use veska.Domain.Actor.{Actor, human}
use veska.Domain.ParseResult.{ParseResult, ParseFailure}
use veska.Staging.Area.{Area, File, key_eq, in_scope, entry_of, file_of, write}
use veska.Staging.Area.Laws.{key_at}
use veska.Promotion.{PromotionBatch, AddedLines, batch_of, promotion_file, promote}
use veska.Promotion.Flush
use veska.Ingest.Emission

abbrev author : Actor
author = record { id = "jo"; kind = human }

abbrev old_file : File
old_file = record { nodes = none ∷ []; edges = []; unresolved_calls = []; imports = [] }

abbrev new_file : File
new_file = record old_file { nodes = none ∷ none ∷ [] }

abbrev staged_area : Area
staged_area = (key_at "r" "main" "a.go", entry_of old_file) ∷ []

abbrev accepting : PromotionBatch → Option String
accepting b = none

abbrev refusing : PromotionBatch → Option String
refusing b = some "locked"

abbrev one_line : Option (String → String → Result String AddedLines)
one_line = some (λ repo sha. ok (("a.go", record { number = 3; text = "x" } ∷ []) ∷ []))

lookup-promote_example :
    ((promote accepting true one_line "r" "main" "c0" author 7 staged_area staged_area).error
      ≡ none)
    × (lookup
          (key_at "r" "main" "a.go")
          (promote accepting true one_line "r" "main" "c0" author 7 staged_area staged_area).area
        ≡ (if in_scope "r" "main" (key_at "r" "main" "a.go")
              && is_present (lookup (key_at "r" "main" "a.go") staged_area)
            then none
            else lookup (key_at "r" "main" "a.go") staged_area))
lookup-promote_example =
    Flush.lookup-promote "r" "main" "c0" author 7 staged_area accepting true one_line staged_area
      (key_at "r" "main" "a.go") refl

promote_drops_newer_example :
    (lookup (key_at "r" "main" "a.go") (write (key_at "r" "main" "a.go") new_file staged_area)
      ≡ some (entry_of new_file))
    × (lookup
          (key_at "r" "main" "a.go")
          (promote accepting true one_line "r" "main" "c0" author 7 staged_area
            (write (key_at "r" "main" "a.go") new_file staged_area)).area
        ≡ none)
    × (Flush.carried "a.go" (batch_of "r" "main" "c0" author 7 staged_area).files
        ≡ some (promotion_file ("a.go", file_of (entry_of old_file))))
    × (promotion_file ("a.go", file_of (entry_of old_file)) ≢ promotion_file ("a.go", new_file))
unfolding lookup
promote_drops_newer_example =
    Flush.promote_drops_newer "r" "main" "c0" author 7 staged_area accepting true one_line "a.go"
      (entry_of old_file) new_file refl refl (λ e. cc)

abbrev emitter : Emission.Emitter
emitter = record { has_sink = true; derive = λ rule anchor key. anchor; decimal = λ n. "1" }

abbrev failure : ParseFailure
failure = record { line = pos 4; message = "unexpected }" }

abbrev parsed : ParseResult
parsed = record {
  nodes = none ∷ [];
  edges = [];
  failures = [];
  todos = [];
  unresolved_calls = [];
  imports = [];
}

abbrev gen : ℕ
gen = 2
