-- ===== src/DiffGate/Exported.antt =====
-- internal/application/diffgate/apigate.go: whether a candidate change breaks the exported
-- interface. `path.Dir` is a parameter.
use Prim.Native.String.{◌++◌ as concat}
use veska.Common.{
  ℕ, ◌≡◌, refl, ap, ◌∙◌, inl, inr, Bool, true, not, ◌&&◌, List, [], ◌∷◌, ◌++◌, map, String, ◌==◌,
  string_eq, if◌then◌else◌, str_lt, sort_by, some_of, some_of-sort_by, keep_if, contains, is_nil,
  Bool-cases, arith, ℤ,
}

-- core/ports/contract_drift.go and exported_symbol.go.
pub record DriftedNode : Type 0 where
  pub node_id : String
  pub file_path : String
  pub kind : String
  pub name : String
  pub prev_sig : String
  pub new_sig : String
  pub line_start : ℤ
  pub line_end : ℤ
  pub content_hash : String
  pub exported : Bool

pub record ExportedSymbol : Type 0 where
  pub node_id : String
  pub file_path : String
  pub kind : String
  pub name : String

pub record ApiChange : Type 0 where
  pub node_id : String
  pub file_path : String
  pub symbol_path : String
  pub kind : String
  pub prev_sig : String
  pub new_sig : String

pub record ApiRemoval : Type 0 where
  pub node_id : String
  pub file_path : String
  pub symbol_path : String
  pub kind : String

pub record ApiVerdict : Type 0 where
  pub pass : Bool
  pub breaking_changes : List ApiChange
  pub removed_symbols : List ApiRemoval

abbrev pub failures : ApiVerdict → List String
failures v =
    if v.pass
    then []
    else (if is_nil v.breaking_changes then [] else "breaking_api_change" ∷ [])
      ++ (if is_nil v.removed_symbols then [] else "removed_api_symbol" ∷ [])

abbrev pub exit_code : ApiVerdict → ℕ
exit_code v = if v.pass then 0 else 1

abbrev pub to_change : DriftedNode → ApiChange
to_change d = record {
  node_id = d.node_id;
  file_path = d.file_path;
  symbol_path = d.name;
  kind = d.kind;
  prev_sig = d.prev_sig;
  new_sig = d.new_sig;
}

abbrev pub to_removal : ExportedSymbol → ApiRemoval
to_removal s = record {
  node_id = s.node_id;
  file_path = s.file_path;
  symbol_path = s.name;
  kind = s.kind;
}

abbrev pub change_less : ApiChange → ApiChange → Bool
change_less a b =
    if a.file_path == b.file_path
    then str_lt a.node_id b.node_id
    else str_lt a.file_path b.file_path

abbrev pub removal_less : ApiRemoval → ApiRemoval → Bool
removal_less a b =
    if a.file_path == b.file_path
    then str_lt a.node_id b.node_id
    else str_lt a.file_path b.file_path

abbrev pub verdict_with : List ApiChange → List ApiRemoval → ApiVerdict
verdict_with breaking gone = record {
  pass = is_nil breaking && is_nil gone;
  breaking_changes = breaking;
  removed_symbols = gone;
}

module _ (dir : String → String) where
  abbrev pub symbol_identity : String → String → String
  symbol_identity file_path name = concat (dir file_path) (concat "\0" name)

  abbrev pub identity_of : ExportedSymbol → String
  identity_of s = symbol_identity s.file_path s.name

  -- The base symbols whose identity no candidate symbol has.
  abbrev pub removed : List ExportedSymbol → List ExportedSymbol → List ExportedSymbol
  removed candidate = keep_if λ s. not (contains (map identity_of candidate) (identity_of s))

  unfoldable pub evaluate :
      List DriftedNode → List ExportedSymbol → List ExportedSymbol → ApiVerdict
  evaluate drifted base candidate =
      let breaking = sort_by change_less (map to_change (keep_if (λ d. d.exported) drifted)) in
      let gone = sort_by removal_less (map to_removal (removed candidate base)) in
      verdict_with breaking gone

is_nil-some_of {ℓ} : {A : Type ℓ} (xs : List A) → is_nil xs ≡ not (some_of (λ x. true) xs)
unfolding some_of
is_nil-some_of [] = refl
is_nil-some_of (x ∷ xs) = refl

some_of-kept {ℓ κ} :
    {A : Type ℓ} {B : Type κ} (f : A → B) (p : A → Bool) (xs : List A)
    → some_of (λ x. true) (map f (keep_if p xs)) ≡ some_of p xs
unfolding some_of keep_if
some_of-kept f p [] = refl
some_of-kept f p (x ∷ xs) = elim (Bool-cases (p x)) [
  | inl kept ↦ rw kept refl
  | inr dropped ↦ rw dropped (some_of-kept f p xs)
]

is_nil-sorted {ℓ κ} :
    {A : Type ℓ} {B : Type κ} (less : B → B → Bool) (f : A → B) (p : A → Bool) (xs : List A)
    → is_nil (sort_by less (map f (keep_if p xs))) ≡ not (some_of p xs)
is_nil-sorted less f p xs =
    is_nil-some_of (sort_by less (map f (keep_if p xs)))
    ∙ ap not (some_of-sort_by less (λ x. true) (map f (keep_if p xs)) ∙ some_of-kept f p xs)

names_failure :
    (breaking : List ApiChange) (gone : List ApiRemoval)
    → is_nil (failures (verdict_with breaking gone)) ≡ (verdict_with breaking gone).pass
names_failure [] [] = refl
names_failure [] (r ∷ gone) = refl
names_failure (c ∷ breaking) gone = refl

-- A change passes exactly when no drifted node is exported and every exported symbol of the base is
-- there in the candidate, in the same directory and under the same name; otherwise the verdict names
-- a failing check.
pub evaluate_exported :
    (dir : String → String) (drifted : List DriftedNode) (base candidate : List ExportedSymbol)
    → let v = evaluate dir drifted base candidate in
      (v.pass ≡ (
        not (some_of (λ d. d.exported) drifted)
        && not (
            some_of
              (λ s. not (contains (map (identity_of dir) candidate) (identity_of dir s)))
              base)))
      × (is_nil (failures v) ≡ v.pass)
unfolding evaluate
evaluate_exported dir drifted base candidate =
    let changes = is_nil-sorted change_less to_change (λ d. d.exported) drifted in
    let removals =
      is_nil-sorted removal_less to_removal
        (λ s. not (contains (map (identity_of dir) candidate) (identity_of dir s))) base in
    (
      ground (arith, changes, removals),
      names_failure (sort_by change_less _) (sort_by removal_less _),
    )
