-- ===== src/Webhook/Isolation.antt =====
-- internal/webhook/processor.go: telling the merchants touches no payment and no ledger.
use zia.Base.{
  ℕ, suc, String, refl, ◌∙◌, inl, inr, List, [], ◌∷◌, Bool-cases, str_eq, Option, if◌then◌else◌,
  select,
}
use zia.Domain.Delivery.{WebhookDelivery, WebhookEndpoint}
use zia.Domain.Message.{WebhookEvent}
use zia.Domain.Attempt.{Attempt}
use zia.Domain.Intent.{PaymentIntent}
use zia.Effects.Failure.{ok}
use zia.Effects.World.{World, Env, tick}
use zia.Effects.Action.{Action, Done, exec, query, clock, new_uuid, ◌>>=◌}
use zia.Effects.Cases.{bind_any}
use zia.Repository.Attempts
use zia.Repository.Intents
use zia.Orchestrator.Change.{Same, Change}
use zia.Orchestrator.Touched.{Same-trans}
use zia.Orchestrator.Outcome.{EngineConfig}
use zia.Orchestrator.Webhook.{handle_webhook_event}
use zia.Orchestrator.Once.{handle_webhook_event-Change}
use zia.Webhook.Dispatcher.{
  HttpResponse, DispatchPayload, Outcome, create_delivery, update_outcome, new_delivery,
  send_and_record, deliver, deliver_each, dispatch_to, dispatch, event_payload,
}
use zia.Webhook.Processor.{handle_event_and_dispatch}

pub Change-Same : (u v w : World) → Change u v → Same v w → Change u w
Change-Same u v w (inl same) still = inl (Same-trans u v w same still)
Change-Same u v w (inr (id, pi, to, now, here, step, moved, posted)) (i, e) = inr (
  id,
  pi,
  to,
  now,
  here,
  step,
  i ∙ moved,
  elim posted [
    | inl nothing ↦ inl (e ∙ nothing)
    | inr (paid, es, added, one, others) ↦ inr (paid, es, e ∙ added, one, others)
  ],
)

module _ (env : Env) (answer : ℕ → String → String → Option HttpResponse)
    (encode : DispatchPayload → String) where
  create_delivery-Same : (d : WebhookDelivery) (w : World) → Same w (create_delivery env d w).1
  unfolding exec
  create_delivery-Same d w = elim (Bool-cases (env.fails w.calls)) [
    | inl down ↦ rw down (refl, refl)
    | inr up ↦ rw up (refl, refl)
  ]

  update_outcome-Same :
      (id : String) (o : Outcome) (w : World) → Same w (update_outcome env id o w).1
  unfolding update_outcome exec
  update_outcome-Same id o w = elim (Bool-cases (env.fails w.calls)) [
    | inl down ↦ rw down (refl, refl)
    | inr up ↦ rw up (refl, refl)
  ]

  send_and_record-Same :
      (d : WebhookDelivery) (body : String) (w : World)
      → Same w (send_and_record env answer encode d body w).1
  unfolding send_and_record clock
  send_and_record-Same d body w = update_outcome-Same d.id _ (tick (tick (tick w)))

  deliver-Same :
      (endpoint_id url event_id body : String) (attempt : ℕ) (w : World)
      → Same w (deliver env answer encode endpoint_id url event_id body attempt w).1
  unfolding deliver clock new_uuid
  deliver-Same endpoint_id url event_id body attempt w =
      let d =
        new_delivery (env.uuid w.calls) (env.now (suc w.calls)) endpoint_id url event_id body
          attempt in
      let w₂ = tick (tick w) in
      let w₃ = (create_delivery env d w₂).1 in
      let saved = create_delivery-Same d w₂ in
      bind_any (Same w) (create_delivery env d) (λ _. send_and_record env answer encode d body) w₂
        saved
        (λ _.
          Same-trans w w₃ (send_and_record env answer encode d body w₃).1 saved
            (send_and_record-Same d body w₃))

  if_told-Same :
      (ep : WebhookEndpoint) (event_id body : String) (w : World)
      → Same w (
          if str_eq ep.status "active"
          then (deliver env answer encode ep.id ep.url event_id body 1 w).1
          else w)
  if_told-Same ep event_id body w = elim (Bool-cases (str_eq ep.status "active")) [
    | inl active ↦ rw active (deliver-Same ep.id ep.url event_id body 1 w)
    | inr paused ↦ rw paused (refl, refl)
  ]

  deliver_each-Same :
      (eps : List WebhookEndpoint) (event_id body : String) (w : World)
      → Same w (deliver_each env answer encode eps event_id body w).1
  unfolding deliver_each
  deliver_each-Same [] event_id body w = (refl, refl)
  deliver_each-Same (ep ∷ eps) event_id body w =
      let w₁ = (deliver env answer encode ep.id ep.url event_id body 1 w).1 in
      let w₂ : World = if str_eq ep.status "active" then w₁ else w in
      Same-trans w w₂ (deliver_each env answer encode eps event_id body w₂).1
        (if_told-Same ep event_id body w) (deliver_each-Same eps event_id body w₂)

  dispatch_to-Same :
      (event : WebhookEvent) (event_id : String) (eps : List WebhookEndpoint) (w : World)
      → Same w (dispatch_to env answer encode event event_id eps w).1
  unfolding dispatch_to clock
  dispatch_to-Same event event_id [] w = (refl, refl)
  dispatch_to-Same event event_id (ep ∷ eps) w =
      deliver_each-Same (ep ∷ eps) event_id (encode (event_payload event (env.now w.calls)))
        (tick w)

  pub dispatch-Same :
      (event : WebhookEvent) (merchant_id event_id : String) (w : World)
      → Same w (dispatch env answer encode event merchant_id event_id w).1
  unfolding dispatch query
  dispatch-Same event merchant_id event_id w =
      bind_any (Same w)
        (query env λ v. ok (select (λ ep. str_eq ep.merchant_id merchant_id) v.endpoints))
        (dispatch_to env answer encode event event_id) w (refl, refl)
        (λ eps. dispatch_to-Same event event_id eps (tick w))

  pub handle_event_and_dispatch-Change :
      (cfg : EngineConfig) (event : WebhookEvent) (event_id : String) (w : World)
      → Change w (handle_event_and_dispatch env cfg answer encode event event_id w).1
  unfolding handle_event_and_dispatch Attempts.get_by_psp_reference Intents.get_by_id query
  handle_event_and_dispatch-Change cfg event event_id w =
      let P = Change w in
      let handle = handle_webhook_event env cfg event in
      let look = Attempts.get_by_psp_reference env event.psp event.psp_reference in
      let get : Attempt → Action PaymentIntent = λ a. Intents.get_by_id env a.payment_intent_id in
      let tell : PaymentIntent → Action Done =
        λ pi. dispatch env answer encode event pi.merchant_id event_id in
      let w₁ = (handle w).1 in
      let w₃ = tick (tick w₁) in
      let change = handle_webhook_event-Change env cfg event w in
      bind_any P handle (λ _. look >>= λ a. get a >>= tell) w change
        (λ _.
          bind_any P look (λ a. get a >>= tell) w₁ (Change-Same w w₁ (tick w₁) change (refl, refl))
            (λ a. bind_any P (get a) tell (tick w₁) (Change-Same w w₁ w₃ change (refl, refl)) (λ pi.
              Change-Same w w₁ (tell pi w₃).1 change
                (dispatch-Same event pi.merchant_id event_id w₃))))
