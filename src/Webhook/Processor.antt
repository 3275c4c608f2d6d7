-- ===== src/Webhook/Processor.antt =====
-- internal/webhook/processor.go, `HandleEventAndDispatch`, and internal/webhook/dedup.go.
use zia.Base.{ℕ, ◌+◌, String, Bool, false, ◌<>◌, none, some, ltb, Option}
use zia.Base.Dict.{lookup, insert}
use zia.Domain.Message.{WebhookEvent}
use zia.Effects.Failure.{ok}
use zia.Effects.World.{World, Env, RedisEntry}
use zia.Effects.Action.{Action, Done, ◌>>=◌, ◌>>◌, logged, exec, query}
use zia.Repository.Attempts
use zia.Repository.Intents
use zia.Orchestrator.Outcome.{EngineConfig}
use zia.Orchestrator.Webhook.{handle_webhook_event}
use zia.Webhook.Dispatcher.{HttpResponse, DispatchPayload, dispatch}

-- `7 * 24 * time.Hour`
abbrev pub dedup_ttl : ℕ
dedup_ttl = 604_800_000_000_000

abbrev pub dedup_redis_key : String → String
dedup_redis_key key = "webhook_dedup:" <> key

abbrev pub is_marked : ℕ → String → World → Bool
is_marked now key w = elim (lookup (dedup_redis_key key) w.redis) [
  | none ↦ false
  | some e ↦ ltb now e.expires_at
]

unfoldable pub is_duplicate : Env → String → Action Bool
is_duplicate env key = query env λ w. ok (is_marked (env.now w.calls) key w)

unfoldable pub mark : Env → String → Action Done
mark env key = exec env λ w.
    let entry : RedisEntry = record { value = "1"; expires_at = env.now w.calls + dedup_ttl } in
    record w { redis = insert (dedup_redis_key key) entry w.redis }

module _ (env : Env) (cfg : EngineConfig) (answer : ℕ → String → String → Option HttpResponse)
    (encode : DispatchPayload → String) where
  -- Where the event was handled, the merchant of its payment is told.
  unfoldable pub handle_event_and_dispatch : WebhookEvent → String → Action Done
  handle_event_and_dispatch event event_id = logged (do
    handle_webhook_event env cfg event
    attempt ← Attempts.get_by_psp_reference env event.psp event.psp_reference
    pi ← Intents.get_by_id env attempt.payment_intent_id
    dispatch env answer encode event pi.merchant_id event_id)
