-- ===== src/Checks.antt =====
-- What the structural checks of internal/application/checks share: the loop that makes one finding of
-- each row of a query that no filter skips. The digest of a finding is a parameter.
pub mod DeadCode
pub mod Untested
pub mod Drift
use veska.Common.{
  ◌≡◌, refl, sym, ap, ◌∙◌, inl, inr, Bool, true, false, not, ◌&&◌, Option, none, some, List, [],
  ◌∷◌, map, String, Result, ok, err, ◌==◌, string_eq, if◌then◌else◌, keep_if, contains, Bool-cases,
  arith,
}
use veska.Common.Dict.{lookup}
use veska.Domain.Finding.{
  Finding, FindingOption, with_node_anchor, with_anchor_content_hash, FindingSpec, FindingError,
  new_finding, apply_options, apply_option, blank, severity_valid,
}

abbrev pub is_ephemeral {ℓ} : {E : Type ℓ} → Option (Result E String) → Bool
is_ephemeral (some (ok kind)) = kind == "ephemeral"
is_ephemeral _ = false

abbrev pub names_or_none {ℓ} : {E : Type ℓ} → Result E (List String) → List String
names_or_none (ok names) = names
names_or_none (err e) = []

-- What a finding takes from the row that it is about.
pub record Anchor : Type 0 where
  pub node_id : String
  pub content_hash : String
  pub message : String

module _ (derive_finding_id : String → String → String → String)
    (rule severity repo_id branch : String) where
  abbrev pub spec_of : Anchor → FindingSpec
  spec_of a = record {
    repo_id = repo_id;
    branch = branch;
    severity = severity;
    layer = "structural";
    rule = rule;
    message = a.message;
  }

  abbrev pub options_of : Anchor → List FindingOption
  options_of a =
      with_node_anchor a.node_id
      ∷ (if a.content_hash == "" then [] else with_anchor_content_hash a.content_hash ∷ [])

  abbrev pub appended : Result FindingError Finding → List Finding → List Finding
  appended (ok f) rest = f ∷ rest
  appended (err e) rest = rest

  module _ {ℓ} {A : Type ℓ} (anchor : A → Anchor) (is_skipped : A → Bool) where
    unfoldable pub report : List A → List Finding
    report [] = []
    report (n ∷ rows) =
        let rest = report rows in
        if is_skipped n
        then rest
        else appended (new_finding derive_finding_id (spec_of (anchor n)) (options_of (anchor n)))
            rest

  -- The finding on a row, written out.
  abbrev pub finding_on : Anchor → Finding
  finding_on a = record (blank (spec_of a)) {
    node_id = some a.node_id;
    anchor_content_hash = if a.content_hash == "" then none else some a.content_hash;
    finding_id = derive_finding_id rule a.node_id "";
  }

  module _ (ruled : (rule == "") ≡ false) (graded : severity_valid severity ≡ true) where
    new_finding_named :
        (a : Anchor)
        → (a.node_id == "") ≡ false
        → new_finding derive_finding_id (spec_of a) (options_of a) ≡ ok (finding_on a)
    unfolding new_finding apply_options apply_option contains
    new_finding_named a named = elim (Bool-cases (a.content_hash == "")) [
      | inl old ↦ rw (ruled, graded, old, named) refl
      | inr hashed ↦ rw (ruled, graded, hashed, named, hashed) refl
    ]

    new_finding_unnamed :
        (a : Anchor) (rest : List Finding)
        → (a.node_id == "") ≡ true
        → appended (new_finding derive_finding_id (spec_of a) (options_of a)) rest ≡ rest
    unfolding new_finding apply_options apply_option contains
    new_finding_unnamed a rest empty = rw (ruled, graded, empty) refl

    -- The report has, in the order of the rows, one finding for each row with an id that no filter
    -- skips, and no others: the construction of a finding fails for no other reason.
    pub report_lem {ℓ} :
        {A : Type ℓ} (anchor : A → Anchor) (is_skipped : A → Bool) (rows : List A)
        → report anchor is_skipped rows
          ≡ map
              (λ n. finding_on (anchor n))
              (keep_if (λ n. not (is_skipped n) && not ((anchor n).node_id == "")) rows)
    unfolding report keep_if
    report_lem anchor is_skipped [] = refl
    report_lem anchor is_skipped (n ∷ rows) = elim (Bool-cases (is_skipped n)) [
      | inl skipped ↦ rw (skipped, report_lem anchor is_skipped rows) refl
      | inr kept ↦ elim (Bool-cases ((anchor n).node_id == "")) [
        | inl empty ↦
            rw (kept, empty)
              (new_finding_unnamed (anchor n) _ empty ∙ report_lem anchor is_skipped rows)
        | inr named ↦
            rw (kept, named, new_finding_named (anchor n) named, report_lem anchor is_skipped rows)
              refl
      ]
    ]
