-- ===== src/Webhook/Stream.antt =====
-- internal/webhook/processor.go, `Publish` and the consumer, over the stream `zia.webhook.received`.
-- An event is on the stream as it was published: its encoding is left out.
use zia.Base.{ℕ, String, Bool, true, false, ◌∷◌, [], Option}
use zia.Domain.Message.{WebhookEvent}
use zia.Effects.Failure.{errorf, ok, err}
use zia.Effects.World.{World, Env}
use zia.Effects.Action.{Action, Done, ◌>>=◌, raise, wrapped, logged, exec}
use zia.Repository.Attempts
use zia.Repository.Intents
use zia.Orchestrator.Outcome.{EngineConfig}
use zia.Orchestrator.Webhook.{handle_webhook_event}
use zia.Webhook.Dispatcher.{HttpResponse, DispatchPayload, dispatch}

-- `connected`: whether there is a JetStream.
unfoldable pub publish_webhook : Env → Bool → WebhookEvent → Action Done
publish_webhook env false event = raise (errorf "jetstream not available" [])
publish_webhook env true event = wrapped "publish to jetstream" (
    exec env λ w. record w { api = record w.api { webhook_stream = event ∷ w.api.webhook_stream } })

-- What the consumer tells the stream of a message: that it is done, or that it shall come again.
pub data Settlement : Type 0 where
  ack nak : Settlement

module _ (env : Env) (cfg : EngineConfig) (answer : ℕ → String → String → Option HttpResponse)
    (encode : DispatchPayload → String) where
  -- The merchant of an event is told, if the event's payment can be found.
  unfoldable pub tell_merchant : WebhookEvent → Action Done
  tell_merchant event = logged (do
    attempt ← Attempts.get_by_psp_reference env event.psp event.psp_reference
    pi ← Intents.get_by_id env attempt.payment_intent_id
    dispatch env answer encode event pi.merchant_id "")

  -- One round of the consumer's loop that has got a message.
  unfoldable pub consume : WebhookEvent → World → Settlement × World
  consume event w =
      let (r, w') = handle_webhook_event env cfg event w in
      elim r [ err _ ↦ (nak, w') | ok _ ↦ (ack, (tell_merchant event w').1) ]
