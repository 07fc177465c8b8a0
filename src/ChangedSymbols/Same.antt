-- ===== src/ChangedSymbols/Same.antt =====
-- A ref against itself: no symbol differs.
use veska.Common.{
  ◌≡◌, refl, sym, subst, ap, ◌∙◌, Bool, true, false, some, List, [], ◌∷◌, String, Result, ok, err,
  >>=-inv, string_eq, eq_iff, nat_eq, sort_by, arith, All,
}
use veska.Common.Dict.{Dict, lookup}
use veska.Domain.Node.{Node}
use veska.ChangedSymbols.{
  SymbolDiff, no_changes, ReadError, absent_at_ref, unreadable, keyed, content_hash, compare_symbol,
  compare_gone, classify_new, classify_gone, classify_file, Progress, with_reasons, sort_changes,
  sorted, parse_read, parse_at_ref, with_file, diff_files, diff,
}
use veska.ChangedSymbols.Classes.{IsKeyed, IsKeyed-lookup, keyed-IsKeyed}

with_reasons_parts :
    (p : Progress)
    → ((with_reasons p).added ≡ p.res.added)
      × ((with_reasons p).removed ≡ p.res.removed)
      × ((with_reasons p).modified ≡ p.res.modified)
unfolding with_reasons
with_reasons_parts p = ground arith

module _ (digest : String → String) where
  classify_new_same :
      (path : String) (a b : Dict String Node) (res : SymbolDiff)
      → All (λ p. lookup p.0 a ≡ some p.1) b
      → classify_new digest path a b res ≡ res
  unfolding classify_new compare_symbol
  classify_new_same path a [] res h = refl
  classify_new_same path a ((key, n) ∷ b) res (here, later) =
      let same = (eq_iff (content_hash digest n) (content_hash digest n)).1 refl in
      rw (here, same) (classify_new_same path a b res later)

  classify_gone_same :
      (path : String) (b a : Dict String Node) (res : SymbolDiff)
      → All (λ p. lookup p.0 b ≡ some p.1) a
      → classify_gone digest path b a res ≡ res
  unfolding classify_gone compare_gone
  classify_gone_same path b [] res h = refl
  classify_gone_same path b ((key, n) ∷ a) res (here, later) =
      rw here (classify_gone_same path b a res later)

  classify_file_same :
      (path : String) (a : Dict String Node) (res : SymbolDiff)
      → IsKeyed a
      → classify_file digest path a a res ≡ res
  unfolding classify_file
  classify_file_same path a res k =
      let found = IsKeyed-lookup a k in
      ap (classify_gone digest path a a) (classify_new_same path a a res found)
      ∙ classify_gone_same path a a res found

  module _ {ℓ} {E : Type ℓ} (changed_files : String → String → Result E (List String))
      (file_at_ref : String → String → Result ReadError String)
      (parse_file : String → String → Result E (List Node)) where
    parse_read-IsKeyed :
        (path : String) (r : Result ReadError String) (a : Dict String Node × Bool)
        → parse_read digest changed_files file_at_ref parse_file path r ≡ ok a
        → IsKeyed a.0
    parse_read-IsKeyed path (err absent_at_ref) a h =
        let same : ◌≡◌ {A = Dict String Node × Bool} ([], false) a = cc in
        subst (λ z. IsKeyed z.0) same tt
    parse_read-IsKeyed path (err unreadable) a h =
        let same : ◌≡◌ {A = Dict String Node × Bool} ([], true) a = cc in
        subst (λ z. IsKeyed z.0) same tt
    parse_read-IsKeyed path (ok content) a h =
        let (ns, parsed, last) = >>=-inv (parse_file path content) _ h in
        let same : ◌≡◌ {A = Dict String Node × Bool} (keyed ns [], false) a = cc in
        subst (λ z. IsKeyed z.0) same (keyed-IsKeyed ns [] tt)

    diff_files_same :
        (ref : String) (paths : List String) (p q : Progress)
        → diff_files digest changed_files file_at_ref parse_file ref ref paths p ≡ ok q
        → q.res ≡ p.res
    unfolding diff_files parse_at_ref
    diff_files_same ref [] p q h = let same : p ≡ q = cc in ap (λ z. z.res) (sym same)
    diff_files_same ref (path ∷ paths) p q h =
        let (a, read, h1) =
          >>=-inv (parse_at_ref digest changed_files file_at_ref parse_file ref path) _ h in
        let (b, read', h2) =
          >>=-inv (parse_at_ref digest changed_files file_at_ref parse_file ref path) _ h1 in
        let same : a ≡ b = cc in
        let k = parse_read-IsKeyed path (file_at_ref ref path) a read in
        diff_files_same ref paths (with_file digest changed_files file_at_ref parse_file path a b p)
          q h2
        ∙ ap (λ z. classify_file digest path a.0 z.0 p.res) (sym same)
        ∙ classify_file_same path a.0 p.res k

    -- A ref has no symbol added, removed or modified against itself, whatever files are named as
    -- changed, when these can be parsed.
    pub diff_same :
        (ref : String) (d : SymbolDiff)
        → diff digest changed_files file_at_ref parse_file ref ref ≡ ok d
        → (d.added ≡ []) × (d.removed ≡ []) × (d.modified ≡ [])
    unfolding diff sort_changes sort_by
    diff_same ref d h =
        let (files, listed, h1) = >>=-inv (changed_files ref ref) _ h in
        let (p, ran, last) =
          >>=-inv (diff_files digest changed_files file_at_ref parse_file ref ref files _) _ h1 in
        let unchanged : p.res ≡ no_changes = diff_files_same ref files _ p ran in
        let parts = with_reasons_parts p in
        let sorted_parts : sorted (with_reasons p) ≡ d = cc in
        (
          ap (λ z. z.added) (sym sorted_parts)
              ∙ ap (λ z. sort_changes z) (parts.0 ∙ ap (λ z. z.added) unchanged),
          ap (λ z. z.removed) (sym sorted_parts)
              ∙ ap (λ z. sort_changes z) (parts.1 ∙ ap (λ z. z.removed) unchanged),
          ap (λ z. z.modified) (sym sorted_parts)
              ∙ ap (λ z. sort_changes z) (parts.2 ∙ ap (λ z. z.modified) unchanged),
        )
