-- ===== src/Webhook/Deliveries.antt =====
-- internal/webhook/dispatcher.go: the records that deliveries and retries leave.
use zia.Base.{
  ℕ, suc, ◌-◌, String, Bool, true, false, ◌≡◌, refl, ap, ◌∙◌, inl, inr, Option, none, some, List,
  [], ◌∷◌, ◌++◌, Bool-cases, str_eq, str_eq_self, any, find, arith,
}
use zia.Domain.Delivery.{failed, WebhookDelivery}
use zia.Effects.Failure.{ok}
use zia.Effects.World.{World, Env, tick}
use zia.Effects.Action.{exec, query, clock, new_uuid, wrapped}
use zia.Effects.Cases.{bind_run, bind-ok, wrapped_as_ok}
use zia.Webhook.Dispatcher.{
  HttpResponse, DispatchPayload, Outcome, with_outcome, set_outcome, update_outcome,
  outcome_of_answer, new_delivery, create_delivery, send_and_record, deliver, get_delivery, scan,
  has_failed, is_pending, retry_delivery, retry,
}

abbrev pub has_delivery : String → List WebhookDelivery → Bool
has_delivery id ds = any (λ d. str_eq d.id id) ds

set_outcome-append :
    (o : Outcome) (now : ℕ) (ds : List WebhookDelivery) (d : WebhookDelivery)
    → has_delivery d.id ds ≡ false
    → set_outcome d.id o now (ds ++ d ∷ []) ≡ ds ++ with_outcome o now d ∷ []
unfolding set_outcome
set_outcome-append o now [] d fresh = rw (str_eq_self d.id) refl
set_outcome-append o now (e ∷ ds) d fresh = elim (Bool-cases (str_eq e.id d.id)) [
  | inl here ↦ ground arith
  | inr other ↦ rw other (ap (λ l. e ∷ l) (set_outcome-append o now ds d (ground arith)))
]

module _ (env : Env) (answer : ℕ → String → String → Option HttpResponse)
    (encode : DispatchPayload → String) (up : (n : ℕ) → env.fails n ≡ false) where
  pub created-delivery :
      (d : WebhookDelivery) (w : World)
      → create_delivery env d w ≡ (ok tt, tick (record w { deliveries = w.deliveries ++ d ∷ [] }))
  unfolding exec
  created-delivery d w = rw (up w.calls) refl

  pub outcome-set :
      (id : String) (o : Outcome) (w : World)
      → (update_outcome env id o w).1
        ≡ tick (record w { deliveries = set_outcome id o (env.now w.calls) w.deliveries })
  unfolding update_outcome exec
  outcome-set id o w = rw (up w.calls) refl

  -- The record of one delivery, once it was sent.
  abbrev pub sent_delivery : World → String → String → String → String → ℕ → WebhookDelivery
  sent_delivery w endpoint_id url event_id body attempt =
      let c = w.calls in
      with_outcome
        (outcome_of_answer (answer (suc (suc (suc (suc c)))) url body)
          (env.now (suc (suc (suc (suc (suc c))))) - env.now (suc (suc (suc c)))))
        (env.now (suc (suc (suc (suc (suc (suc c)))))))
        (new_delivery (env.uuid c) (env.now (suc c)) endpoint_id url event_id body attempt)

  deliver-sent :
      (w : World) (endpoint_id url event_id body : String) (attempt : ℕ)
      → has_delivery (env.uuid w.calls) w.deliveries ≡ false
      → (deliver env answer encode endpoint_id url event_id body attempt w).1.deliveries
        ≡ w.deliveries ++ sent_delivery w endpoint_id url event_id body attempt ∷ []
  unfolding deliver send_and_record clock new_uuid
  deliver-sent w endpoint_id url event_id body attempt fresh =
      let c = w.calls in
      let d = new_delivery (env.uuid c) (env.now (suc c)) endpoint_id url event_id body attempt in
      let w₂ = tick (tick w) in
      let w₃ = tick (record w₂ { deliveries = w.deliveries ++ d ∷ [] }) in
      let w₆ = tick (tick (tick w₃)) in
      let o =
        outcome_of_answer (answer (suc (suc (suc (suc c)))) url body)
          (env.now (suc (suc (suc (suc (suc c))))) - env.now (suc (suc (suc c)))) in
      ap (λ m. m.1.deliveries)
        (bind_run (create_delivery env d) (λ _. send_and_record env answer encode d body) w₂ w₃ tt
          (created-delivery d w₂))
      ∙ ap (λ v. v.deliveries) (outcome-set d.id o w₆)
      ∙ set_outcome-append o (env.now (suc (suc (suc (suc (suc (suc c))))))) w.deliveries d fresh

  deliver-ok :
      (endpoint_id url event_id body : String) (attempt : ℕ) (w : World)
      → (deliver env answer encode endpoint_id url event_id body attempt w).0 ≡ ok tt
  unfolding deliver clock new_uuid
  deliver-ok endpoint_id url event_id body attempt w = refl

  failed-found :
      (id : String) (d : WebhookDelivery) (w : World)
      → find (λ x. str_eq x.id id) w.deliveries ≡ some d
      → d.status ≡ failed
      → (get_delivery env id w).0 ≡ ok d
  unfolding get_delivery query scan
  failed-found id d w here gone =
      let answered : is_pending d.status ≡ false = ap is_pending gone ∙ unfold is_pending in refl in
      rw (up w.calls, here) (rw answered refl)

  again :
      (d : WebhookDelivery) (w : World)
      → d.status ≡ failed
      → retry_delivery env answer encode d w
        ≡ deliver env answer encode d.endpoint_id d.url
            (elim d.webhook_event_id as (λ _. String) [ none ↦ "" | some e ↦ e ])
            d.request_body
            (suc d.attempt)
            w
  unfolding retry_delivery
  again d w gone =
      let has : has_failed d.status ≡ true = ap has_failed gone ∙ unfold has_failed in refl in
      rw has refl

  -- Where nothing of ours fails, a retry of a failed delivery keeps every record and adds one more
  -- under an unused id: for the same endpoint, event and body, with the next attempt's number and the
  -- outcome of the answer. It does so whatever the attempts were limited to.
  pub retry-sent :
      (id : String) (d : WebhookDelivery) (w : World)
      → find (λ x. str_eq x.id id) w.deliveries ≡ some d
      → d.status ≡ failed
      → has_delivery (env.uuid (suc w.calls)) w.deliveries ≡ false
      → let (r, w') = retry env answer encode id w in
        let event_id = elim d.webhook_event_id as (λ _. String) [ none ↦ "" | some e ↦ e ] in
        (r ≡ ok tt)
        × (w'.deliveries
            ≡ w.deliveries
              ++ sent_delivery (tick w) d.endpoint_id d.url event_id d.request_body (suc d.attempt)
                ∷ [])
  unfolding retry get_delivery query
  retry-sent id d w here gone fresh =
      let event_id = elim d.webhook_event_id as (λ _. String) [ none ↦ "" | some e ↦ e ] in
      let send_again = retry_delivery env answer encode in
      let runs : retry env answer encode id w
          ≡ deliver env answer encode d.endpoint_id d.url event_id d.request_body (suc d.attempt)
              (tick w) =
        bind-ok (wrapped "get delivery" (get_delivery env id)) send_again w d
          (wrapped_as_ok "get delivery" (get_delivery env id) w d (failed-found id d w here gone))
        ∙ again d (tick w) gone in
      (
        ap (λ m. m.0) runs
            ∙ deliver-ok d.endpoint_id d.url event_id d.request_body (suc d.attempt) (tick w),
        ap (λ m. m.1.deliveries) runs
            ∙ deliver-sent (tick w) d.endpoint_id d.url event_id d.request_body (suc d.attempt)
                fresh,
      )
