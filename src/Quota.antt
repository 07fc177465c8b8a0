-- ===== src/Quota.antt =====
-- internal/application/review/quota.go: the caps on the tokens of reviews. The store of the daily
-- totals is an interface over a state of its own. Totals are natural numbers, and a cap of 0 stands
-- for every one that is not positive; the mutex is left out.
use veska.Common.{
  ℕ, ◌+◌, ◌≡◌, refl, ap, ◌∙◌, inl, inr, Bool, false, not, ◌&&◌, Option, none, some, List, [], ◌∷◌,
  String, Result, ok, err, ◌==◌, string_eq, nat_eq, eq_iff, if◌then◌else◌, leb, Bool-cases, arith,
  ℤ, pos, negsuc,
}
use veska.Common.Dict.{Dict, lookup, insert, lookup-insert}

-- DailyTokenStore, on a state `S`: the total of a date, and the addition to it.
pub record DailyTokenStore {ℓ κ} (E : Type ℓ) (S : Type κ) : Type (ℓ ⊔ κ) where
  pub tokens_for : String → S → Result E ℕ
  pub add_tokens : String → ℕ → S → Result E ℕ × S

pub record Quota : Type 0 where
  pub max_per_commit : ℕ
  pub max_per_day : ℕ
  pub per_commit : Dict String ℕ

-- NewQuota.
abbrev pub new_quota : ℕ → ℕ → Quota
new_quota max_per_commit max_per_day = record {
  max_per_commit = max_per_commit;
  max_per_day = max_per_day;
  per_commit = [];
}

abbrev pub total_at : Option ℕ → ℕ
total_at none = 0
total_at (some n) = n

-- A negative count acts as 0.
abbrev pub counted : ℤ → ℕ
counted (pos n) = n
counted (negsuc n) = 0

unfoldable pub commit_exceeded : String → Quota → Bool
commit_exceeded sha q =
    if q.max_per_commit == 0
    then false
    else leb q.max_per_commit (total_at (lookup sha q.per_commit))

-- The in-memory half of Record.
abbrev pub add_commit : String → ℕ → Quota → Quota
add_commit sha tokens q = record q {
  per_commit = insert sha (total_at (lookup sha q.per_commit) + tokens) q.per_commit;
}

module _ {ℓ κ} {E : Type ℓ} {S : Type κ} (store : DailyTokenStore E S) where
  -- The answer is whether the cap is reached, and the total.
  abbrev pub paused_at : ℕ → Result E ℕ → Result E (Bool × ℕ)
  paused_at cap (err e) = err e
  paused_at cap (ok total) = ok (leb cap total, total)

  unfoldable pub daily_paused : String → Quota → S → Result E (Bool × ℕ)
  daily_paused date q s =
      if q.max_per_day == 0
      then ok (false, 0)
      else paused_at q.max_per_day (store.tokens_for date s)

  abbrev pub tokens_today : String → S → Result E ℕ
  tokens_today = store.tokens_for

  abbrev error_of : Result E ℕ → Option E
  error_of (ok n) = none
  error_of (err e) = some e

  -- Record: the commit's total grows, also when the store fails.
  unfoldable pub record_usage : String → String → ℤ → Quota → S → (Quota × S) × Option E
  record_usage date sha tokens q s =
      let added = store.add_tokens date (counted tokens) s in
      ((add_commit sha (counted tokens) q, added.1), error_of added.0)

  -- A review: the day, the commit, and the tokens it used.
  abbrev pub Review : Type 0
  Review = String × String × ℤ

  unfoldable pub record_all : List Review → Quota → S → Quota × S
  record_all [] q s = (q, s)
  record_all ((date, sha, tokens) ∷ rs) q s =
      let step = record_usage date sha tokens q s in record_all rs step.0.0 step.0.1

  -- The tokens of the reviews of one commit.
  unfoldable pub used_by : String → List Review → ℕ
  used_by sha [] = 0
  used_by sha ((date, of, tokens) ∷ rs) = (if sha == of then counted tokens else 0) + used_by sha rs

  record_all-total :
      (rs : List Review) (q : Quota) (s : S) (sha : String)
      → (total_at (lookup sha (record_all rs q s).0.per_commit)
          ≡ total_at (lookup sha q.per_commit) + used_by sha rs)
        × ((record_all rs q s).0.max_per_commit ≡ q.max_per_commit)
  unfolding record_all record_usage used_by
  record_all-total [] q s sha = (omega arith, refl)
  record_all-total ((date, of, tokens) ∷ rs) q s sha =
      let step = record_usage date of tokens q s in
      let (total, cap) = record_all-total rs step.0.0 step.0.1 sha in
      let n = counted tokens in
      (
        total ∙ elim (Bool-cases (sha == of)) [
          | inl same ↦
              rw
                (
                  lookup-insert of sha (total_at (lookup of q.per_commit) + n) q.per_commit,
                  same,
                  ap (λ z. total_at (lookup z q.per_commit)) ((eq_iff sha of).0 same),
                )
                (omega arith)
          | inr other ↦
              rw (lookup-insert of sha (total_at (lookup of q.per_commit) + n) q.per_commit, other)
                (omega arith)
        ],
        cap,
      )

  -- After any reviews, in any order and with any failures of the store, a commit is refused exactly
  -- when its cap is set and the tokens that its own reviews used have reached it.
  pub commit_exceeded_lem :
      (rs : List Review) (max_per_commit max_per_day : ℕ) (s : S) (sha : String)
      → commit_exceeded sha (record_all rs (new_quota max_per_commit max_per_day) s).0
        ≡ (not (max_per_commit == 0) && leb max_per_commit (used_by sha rs))
  unfolding commit_exceeded lookup
  commit_exceeded_lem rs max_per_commit max_per_day s sha =
      let (total, cap) = record_all-total rs (new_quota max_per_commit max_per_day) s sha in
      rw (cap, total) (ground arith)
