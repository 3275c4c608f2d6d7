-- ===== src/Orchestrator/Outcome.antt =====
-- internal/orchestrator/engine.go: what a provider's answer means, and what follows once a payment
-- has its new status.
use zia.Base.{ℕ, String, Bool, ◌∷◌, ◌<>◌, Option, none, some, if◌then◌else◌, str_eq}
use zia.Base.Int.{ℤ, ltb_ℤ, ◌/ℤ◌}
use zia.Base.Word.{mul64}
use zia.Domain.Intent.{PaymentIntent, PaymentIntentStatus, succeeded, status_text, status_eq}
use zia.Domain.Attempt.{Attempt, AttemptStatus}
use zia.Domain.Message.{NotificationEvent}
use zia.Effects.World.{Env}
use zia.Effects.Action.{Action, Done, pure, ◌>>=◌, clock, exec, logged}
use zia.Ledger.Engine.{post_collection}

-- `FeeConfig`, and whether the engine has a notification dispatcher.
pub record EngineConfig : Type 0 where
  pub percent : ℤ  -- int
  pub min_amount : ℤ  -- int64
  pub notifies : Bool

unfoldable pub compute_fee : EngineConfig → ℤ → ℤ
compute_fee cfg amount =
    let fee = mul64 amount cfg.percent /ℤ 100 in
    if ltb_ℤ fee cfg.min_amount then cfg.min_amount else fee

-- The statuses that a provider's word stands for.
unfoldable pub outcome_of : String → Option (PaymentIntentStatus × AttemptStatus)
outcome_of word =
    if str_eq word "succeeded"
    then some (PaymentIntentStatus.succeeded, AttemptStatus.succeeded)
    else if str_eq word "failed"
    then some (PaymentIntentStatus.failed, AttemptStatus.failed)
    else none

-- The event, whose time is kept as a number.
abbrev pub event_of : PaymentIntent → Attempt → PaymentIntentStatus → ℕ → NotificationEvent
event_of pi attempt status now = record {
  event_type = "payment." <> status_text status;
  pi_id = pi.id;
  merchant_id = pi.merchant_id;
  amount = pi.amount;
  currency = pi.currency;
  psp = attempt.psp;
  psp_reference = attempt.psp_reference;
  status = status_text status;
  timestamp = now;
}

-- internal/notification/dispatcher.go, `Publish`: the message is on the stream, or it is not.
unfoldable pub publish : Env → NotificationEvent → Action Done
publish env evt = exec env λ w. record w { published = evt ∷ w.published }

module _ (env : Env) (cfg : EngineConfig) where
  unfoldable pub post_if_succeeded : PaymentIntent → Attempt → PaymentIntentStatus → Action Done
  post_if_succeeded pi attempt status =
      if status_eq status succeeded
      then post_collection env pi.merchant_id pi.id attempt.psp pi.amount pi.currency
          (compute_fee cfg pi.amount)
      else pure tt

  unfoldable pub notify : PaymentIntent → Attempt → PaymentIntentStatus → Action Done
  notify pi attempt status =
      if cfg.notifies
      then (do now ← clock env; logged (publish env (event_of pi attempt status now)))
      else pure tt
