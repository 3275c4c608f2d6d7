-- ===== src/Reconciliation/Runner.antt =====
-- internal/reconciliation/runner.go, and `ListByDateRange` of internal/repository/attempt.go.
use zia.Base.{
  ℕ, suc, ◌+◌, String, not, ◌&&◌, none, some, List, [], ◌∷◌, map, if◌then◌else◌, str_eq, nonempty,
  ltb, leb, find,
}
use zia.Base.Int.{pos, ltb_ℤ, eqb_ℤ}
use zia.Base.Dict.{Dict, lookup}
use zia.Domain.Intent.{PaymentIntent}
use zia.Domain.Attempt.{Attempt, AttemptRow, AttemptStatus}
use zia.Domain.Message.{StatusResult}
use zia.Effects.Failure.{ok, err}
use zia.Effects.World.{World, Env, Connector, tick}
use zia.Effects.Action.{Action, ◌>>=◌, wrapped, query}
use zia.Repository.Intents.{has_id}

-- An attempt's constant, as a text.
unfoldable pub attempt_text : AttemptStatus → String
attempt_text AttemptStatus.pending = "pending"
attempt_text AttemptStatus.requires_action = "requires_action"
attempt_text AttemptStatus.processing = "processing"
attempt_text AttemptStatus.succeeded = "succeeded"
attempt_text AttemptStatus.failed = "failed"

-- Where an attempt is counted.
pub data Verdict : Type 0 where
  other_psp matched unmatched failed_lookup : Verdict

-- The checks on a provider's answer.
unfoldable pub compare_status : AttemptRow → StatusResult → Verdict
compare_status att result =
    if not result.supported
    then matched
    else if str_eq (attempt_text att.status) "succeeded" && not (str_eq result.status "succeeded")
    then unmatched
    else if ltb_ℤ (pos 0) result.amount && not (eqb_ℤ result.amount att.amount)
    then unmatched
    else matched

unfoldable pub reconcile_attempt : String → Connector → AttemptRow → World → Verdict × World
reconcile_attempt name conn att w =
    if not (str_eq att.psp name)
    then (other_psp, w)
    else if not (nonempty att.psp_reference)
    then (unmatched, w)
    else if not conn.capabilities.supports_collection && not conn.capabilities.supports_payout
    then (matched, w)
    else (
      elim (conn.get_status w.calls att.psp_reference) [
        | err _ ↦ failed_lookup
        | ok result ↦ compare_status att result
      ],
      tick w,
    )

pub record Tally : Type 0 where
  pub matched : ℕ
  pub unmatched : ℕ
  pub errors : ℕ

unfoldable pub count : Verdict → Tally → Tally
count other_psp t = t
count matched t = record t { matched = suc t.matched }
count unmatched t = record t { unmatched = suc t.unmatched }
count failed_lookup t = record t { errors = suc t.errors }

-- The loop of `reconcilePSP`; the three counts are logged.
unfoldable pub reconcile_psp : String → Connector → List AttemptRow → Tally → World → Tally × World
reconcile_psp name conn [] t w = (t, w)
reconcile_psp name conn (att ∷ atts) t w =
    let (verdict, w') = reconcile_attempt name conn att w in
    reconcile_psp name conn atts (count verdict t) w'

abbrev pub no_counts : Tally
no_counts = record { matched = 0; unmatched = 0; errors = 0 }

-- The loop of `Reconcile` over the registry's names.
unfoldable pub reconcile_each :
    Dict Connector → List String → List AttemptRow → World → List (String × Tally) × World
reconcile_each registry [] atts w = ([], w)
reconcile_each registry (name ∷ names) atts w =
    let skipped = reconcile_each registry names atts w in
    elim (lookup name registry) [
      | none ↦ skipped
      | some conn ↦
          let (t, w') = reconcile_psp name conn atts no_counts w in
          let (rest, w'') = reconcile_each registry names atts w' in ((name, t) ∷ rest, w'')
    ]

-- `JOIN payment_intents … WHERE a.created_at >= $1 AND a.created_at < $2`
unfoldable pub rows_between : ℕ → ℕ → List PaymentIntent → List Attempt → List AttemptRow
rows_between start end intents [] = []
rows_between start end intents (a ∷ as_) =
    let rest = rows_between start end intents as_ in
    if leb start a.created_at && ltb a.created_at end
    then elim (find (has_id a.payment_intent_id) intents) [
      | none ↦ rest
      | some pi ↦
          record {
            id = a.id;
            payment_intent_id = a.payment_intent_id;
            psp = a.psp;
            psp_reference = a.psp_reference;
            status = a.status;
            amount = pi.amount;
            currency = pi.currency;
            created_at = a.created_at;
          }
          ∷ rest
    ]
    else rest

unfoldable pub list_by_date_range : Env → ℕ → ℕ → Action (List AttemptRow)
list_by_date_range env start end = query env λ w. ok (rows_between start end w.intents w.attempts)

-- `24 * time.Hour`
abbrev pub day : ℕ
day = 86_400_000_000_000

-- From the start of the day, which `time.Date` gives.
unfoldable pub reconcile : Env → ℕ → Action (List (String × Tally))
reconcile env start_of_day = do
  atts ← wrapped "list attempts by date" (list_by_date_range env start_of_day (start_of_day + day))
  (λ w.
      let (counts, w') = reconcile_each env.registry (map (λ entry. entry.0) env.registry) atts w in
      (ok counts, w'))
