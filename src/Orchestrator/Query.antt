-- ===== src/Orchestrator/Query.antt =====
-- internal/orchestrator/engine.go, the query that `scheduleDelayedQuery` makes after forty seconds.
-- Where the source logs an error and returns, the error is returned here, and `run_delayed_query`
-- drops it.
use zia.Base.{String, ◌||◌, none, some, ◌∷◌, if◌then◌else◌}
use zia.Base.Dict.{lookup}
use zia.Domain.Intent.{PaymentIntent, PaymentIntentStatus, requires_action, processing, status_eq}
use zia.Domain.Attempt.{Attempt, AttemptStatus}
use zia.Domain.Message.{StatusResult}
use zia.Effects.Failure.{Result}
use zia.Effects.World.{Env, Connector, DelayedQuery, tick}
use zia.Effects.Action.{Action, Done, pure, ◌>>=◌, ◌>>◌, logged}
use zia.Repository.Attempts
use zia.Repository.Intents
use zia.Orchestrator.State.{is_valid_transition}
use zia.Orchestrator.Outcome.{EngineConfig, outcome_of, post_if_succeeded, notify}

-- `conn.GetStatus(ctx, ref)`
abbrev pub ask_status : Connector → String → Action StatusResult
ask_status conn psp_reference w = (conn.get_status w.calls psp_reference, tick w)

-- `time.AfterFunc(queryDelay, …)`
unfoldable pub schedule_delayed_query : String → String → String → Action Done
schedule_delayed_query pi_id attempt_id psp w = (
  Result.ok tt,
  record w { timers = record { pi_id = pi_id; attempt_id = attempt_id; psp = psp } ∷ w.timers },
)

module _ (env : Env) (cfg : EngineConfig) where
  -- The statuses are written if the intent still has the status that it was read with.
  unfoldable pub settle_query :
      PaymentIntent → Attempt → PaymentIntentStatus → AttemptStatus → Action Done
  settle_query pi attempt status attempt_status = do
    Attempts.update_status env attempt.id attempt_status
    was_updated ← Intents.update_status_safe env pi.id pi.status status
    (if was_updated
        then (do post_if_succeeded env cfg pi attempt status; notify env cfg pi attempt status)
        else pure tt)

  unfoldable pub apply_query_result : PaymentIntent → Attempt → StatusResult → Action Done
  apply_query_result pi attempt result = elim (outcome_of result.status) [
    | none ↦ pure tt
    | some outcome ↦
        if is_valid_transition pi.status outcome.0
        then settle_query pi attempt outcome.0 outcome.1
        else pure tt
  ]

  unfoldable pub ask_provider : DelayedQuery → PaymentIntent → Action Done
  ask_provider q pi = do
    attempt ← Attempts.get_by_id env q.attempt_id
    (elim (lookup q.psp env.registry) [
      | none ↦ pure tt
      | some conn ↦ (do
        result ← ask_status conn attempt.psp_reference
        apply_query_result pi attempt result)
    ])

  -- The timer's function.
  unfoldable pub run_delayed_query : DelayedQuery → Action Done
  run_delayed_query q = logged (do
    pi ← Intents.get_by_id env q.pi_id
    (if status_eq pi.status requires_action || status_eq pi.status processing
        then ask_provider q pi
        else pure tt))
