-- ===== src/Orchestrator/Webhook.antt =====
-- internal/orchestrator/engine.go, `HandleWebhookEvent`.
use zia.Base.{none, some, [], ◌∷◌, if◌then◌else◌, nonempty}
use zia.Domain.Intent.{PaymentIntent, PaymentIntentStatus}
use zia.Domain.Attempt.{Attempt, AttemptStatus}
use zia.Domain.Message.{WebhookEvent}
use zia.Effects.Failure.{errorf}
use zia.Effects.World.{Env}
use zia.Effects.Action.{Action, Done, pure, raise, ◌>>=◌, ◌>>◌, wrapped, logged}
use zia.Repository.Attempts
use zia.Repository.Intents
use zia.Orchestrator.State.{is_valid_transition}
use zia.Orchestrator.Outcome.{EngineConfig, outcome_of, post_if_succeeded, notify}

-- What the provider sent, kept beside the attempt.
unfoldable pub keep_evidence : Env → WebhookEvent → Attempt → Action Done
keep_evidence env evt attempt = do
  (if nonempty evt.psp_transaction_id
      then logged (Attempts.update_psp_transaction_id env attempt.id evt.psp_transaction_id)
      else pure tt)
  logged (Attempts.update_callback_payload env attempt.id evt.raw_payload)

module _ (env : Env) (cfg : EngineConfig) where
  -- The rest, once the new statuses are known.
  unfoldable pub transition :
      PaymentIntent → Attempt → PaymentIntentStatus → AttemptStatus → Action Done
  transition pi attempt status attempt_status = do
    wrapped "update attempt status" (Attempts.update_status env attempt.id attempt_status)
    wrapped "update pi status" (Intents.update_status env pi.id status)
    wrapped "ledger post" (post_if_succeeded env cfg pi attempt status)
    notify env cfg pi attempt status

  unfoldable pub apply_event : WebhookEvent → Attempt → PaymentIntent → Action Done
  apply_event evt attempt pi = elim (outcome_of evt.status) [
    | none ↦ raise (errorf "unknown webhook event status: %s" (evt.status ∷ []))
    | some outcome ↦
        if is_valid_transition pi.status outcome.0
        then transition pi attempt outcome.0 outcome.1
        else pure tt
  ]

  unfoldable pub handle_webhook_event : WebhookEvent → Action Done
  handle_webhook_event evt = do
    attempt ←
        wrapped "lookup attempt by psp ref"
          (Attempts.get_by_psp_reference env evt.psp evt.psp_reference)
    pi ← wrapped "lookup pi" (Intents.get_by_id env attempt.payment_intent_id)
    keep_evidence env evt attempt
    apply_event evt attempt pi
