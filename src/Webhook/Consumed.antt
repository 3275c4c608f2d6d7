-- ===== src/Webhook/Consumed.antt =====
-- internal/webhook/processor.go: what becomes of an event that is consumed.
use zia.Base.{ℕ, String, ◌≡◌, ◌↔◌, refl, sym, ap, subst, ◌∙◌, inl, inr, Option}
use zia.Domain.Message.{WebhookEvent}
use zia.Domain.Attempt.{Attempt}
use zia.Domain.Intent.{PaymentIntent}
use zia.Effects.Failure.{Error, Result, ok, err}
use zia.Effects.World.{World, Env, tick}
use zia.Effects.Action.{Action, Done, query, ◌>>=◌}
use zia.Effects.Cases.{bind_any, Result-cases}
use zia.Repository.Attempts
use zia.Repository.Intents
use zia.Orchestrator.Change.{Same, Change}
use zia.Orchestrator.Outcome.{EngineConfig}
use zia.Orchestrator.Webhook.{handle_webhook_event}
use zia.Orchestrator.Once.{handle_webhook_event-Change}
use zia.Webhook.Dispatcher.{HttpResponse, DispatchPayload, dispatch}
use zia.Webhook.Processor.{handle_event_and_dispatch}
use zia.Webhook.Stream.{Settlement, ack, nak, tell_merchant, consume}
use zia.Webhook.Isolation.{Change-Same, dispatch-Same, handle_event_and_dispatch-Change}

nak-clash : nak ≡ ack → ⊥
nak-clash h = cc

err-clash : (e : Error) → ◌≡◌ {A = Result (Unit {0})} (err e) (ok tt) → ⊥
err-clash e h = cc

module _ (env : Env) (answer : ℕ → String → String → Option HttpResponse)
    (encode : DispatchPayload → String) where
  tell_merchant-Same :
      (cfg : EngineConfig) (event : WebhookEvent) (w : World)
      → Same w (tell_merchant env cfg answer encode event w).1
  unfolding tell_merchant Attempts.get_by_psp_reference Intents.get_by_id query
  tell_merchant-Same cfg event w =
      let P = Same w in
      let look = Attempts.get_by_psp_reference env event.psp event.psp_reference in
      let get : Attempt → Action PaymentIntent = λ a. Intents.get_by_id env a.payment_intent_id in
      let tell : PaymentIntent → Action Done =
        λ pi. dispatch env answer encode event pi.merchant_id "" in
      bind_any P look (λ a. get a >>= tell) w (refl, refl)
        (λ a.
          bind_any P (get a) tell (tick w) (refl, refl)
            (λ pi. dispatch-Same env answer encode event pi.merchant_id "" (tick (tick w))))

  consume-settled :
      (cfg : EngineConfig) (event : WebhookEvent) (w : World) (r : Result (Unit {0}))
      → (handle_webhook_event env cfg event w).0 ≡ r
      → let w₁ = (handle_webhook_event env cfg event w).1 in
        consume env cfg answer encode event w ≡ (elim r as (λ _. Settlement × World) [
          | err _ ↦ (nak, w₁)
          | ok _ ↦ (ack, (tell_merchant env cfg answer encode event w₁).1)
        ])
  unfolding consume
  consume-settled cfg event w r h =
      let w₁ = (handle_webhook_event env cfg event w).1 in
      ap
        (λ x. elim x as (λ _. Settlement × World) [
          | err _ ↦ (nak, w₁)
          | ok _ ↦ (ack, (tell_merchant env cfg answer encode event w₁).1)
        ])
        h

  consume-Change :
      (cfg : EngineConfig) (event : WebhookEvent) (w : World)
      → Change w (consume env cfg answer encode event w).1
        × (((consume env cfg answer encode event w).0 ≡ ack)
            ↔ ((handle_webhook_event env cfg event w).0 ≡ ok tt))
  consume-Change cfg event w =
      let w₁ = (handle_webhook_event env cfg event w).1 in
      let change = handle_webhook_event-Change env cfg event w in
      let Settles : Settlement × World → Type 0 =
        λ q. Change w q.1 × ((q.0 ≡ ack) ↔ ((handle_webhook_event env cfg event w).0 ≡ ok tt)) in
      elim (Result-cases (handle_webhook_event env cfg event w).0) [
        | inl (done, h) ↦ subst Settles (sym (consume-settled cfg event w (ok done) h)) (
          Change-Same w w₁ (tell_merchant env cfg answer encode event w₁).1 change
              (tell_merchant-Same cfg event w₁),
          (λ _. h, λ _. refl),
        )
        | inr (e, h) ↦
            subst Settles (sym (consume-settled cfg event w (err e) h))
              (change, (λ s. absurd (nak-clash s), λ s. absurd (err-clash e (sym h ∙ s))))
      ]

  -- On the synchronous path and in a round of the consumer alike, an event changes no intent and posts
  -- nothing, or moves one intent one step of its life and posts for it at most once, as handling the
  -- event alone does. The consumer acknowledges it exactly if handling it returned no error, whatever
  -- becomes of telling the merchant.
  pub delivered-Change :
      (cfg : EngineConfig) (event : WebhookEvent) (event_id : String) (w : World)
      → Change w (handle_event_and_dispatch env cfg answer encode event event_id w).1
        × Change w (consume env cfg answer encode event w).1
        × (((consume env cfg answer encode event w).0 ≡ ack)
            ↔ ((handle_webhook_event env cfg event w).0 ≡ ok tt))
  delivered-Change cfg event event_id w =
      let (change, settled) = consume-Change cfg event w in
      (handle_event_and_dispatch-Change env answer encode cfg event event_id w, change, settled)
