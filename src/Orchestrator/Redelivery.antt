-- ===== src/Orchestrator/Redelivery.antt =====
-- internal/orchestrator/engine.go: a webhook for a payment that is over.
use zia.Base.{
  String, Bool, true, false, ◌&&◌, ◌≡◌, refl, sym, subst, ◌⊎◌, inl, inr, some, arith, found_once,
  Bool-cases, Option-cases, str_eq, find,
}
use zia.Domain.Intent.{
  PaymentIntent, PaymentIntentStatus, created, requires_action, processing, succeeded, failed,
  expired, partially_refunded, refunded, status_eq,
}
use zia.Domain.Attempt.{Attempt, AttemptStatus}
use zia.Domain.Message.{WebhookEvent}
use zia.Effects.World.{World, Env, tick}
use zia.Effects.Action.{Action, Done, query, ◌>>=◌, ◌>>◌, wrapped}
use zia.Effects.Cases.{bind-lem, bind_any, wrapped-ok, query-found}
use zia.Repository.Attempts
use zia.Repository.Intents
use zia.Repository.Intents.{has_id}
use zia.Orchestrator.State.{is_valid_transition}
use zia.Orchestrator.Outcome.{EngineConfig, outcome_of}
use zia.Orchestrator.Webhook.{keep_evidence, apply_event, handle_webhook_event}
use zia.Orchestrator.Change.{Same}
use zia.Orchestrator.Touched.{evidence-Same}

-- A payment that succeeded, failed, expired or was given back.
unfoldable pub is_over : PaymentIntentStatus → Bool
is_over created = false
is_over requires_action = false
is_over processing = false
is_over succeeded = true
is_over failed = true
is_over expired = true
is_over partially_refunded = true
is_over refunded = true

no_way_on :
    (from : PaymentIntentStatus)
    → is_over from ≡ true
    → (is_valid_transition from succeeded ≡ false) × (is_valid_transition from failed ≡ false)
unfolding is_over is_valid_transition status_eq mathlib.Core.Bool.decide
no_way_on created over = ground arith
no_way_on requires_action over = ground arith
no_way_on processing over = ground arith
no_way_on succeeded over = (refl, refl)
no_way_on failed over = (refl, refl)
no_way_on expired over = (refl, refl)
no_way_on partially_refunded over = (refl, refl)
no_way_on refunded over = (refl, refl)

outcome_status :
    (word : String) (o : PaymentIntentStatus × AttemptStatus)
    → outcome_of word ≡ some o
    → (o.0 ≡ succeeded) ⊎ (o.0 ≡ failed)
unfolding outcome_of
outcome_status word o said = elim (Bool-cases (str_eq word "succeeded")) [
  | inl won ↦ ground arith
  | inr not_won ↦ elim (Bool-cases (str_eq word "failed")) [
    | inl won ↦ ground arith
    | inr neither ↦ ground arith
  ]
]

over_stays :
    (from : PaymentIntentStatus) (word : String) (o : PaymentIntentStatus × AttemptStatus)
    → is_over from ≡ true
    → outcome_of word ≡ some o
    → is_valid_transition from o.0 ≡ false
over_stays from word o over said =
    let (not_succeeded, not_failed) = no_way_on from over in
    elim (outcome_status word o said) [ inl e ↦ rw e not_succeeded | inr e ↦ rw e not_failed ]

module _ (env : Env) (cfg : EngineConfig) where
  apply_event-over :
      (evt : WebhookEvent) (a : Attempt) (pi : PaymentIntent) (w : World)
      → is_over pi.status ≡ true
      → (apply_event env cfg evt a pi w).1 ≡ w
  unfolding apply_event
  apply_event-over evt a pi w over = elim (Option-cases (outcome_of evt.status)) [
    | inl unknown ↦ rw (unknown, apply_event) refl
    | inr (o, known) ↦ rw (known, apply_event, over_stays pi.status evt.status o over known) refl
  ]

  -- A webhook whose attempt belongs to a payment that is over changes no intent's row and posts
  -- nothing, whether or not the payment was ever taken in.
  pub handle_webhook_event-over :
      (evt : WebhookEvent) (a : Attempt) (pi : PaymentIntent) (w : World)
      → find (λ x. str_eq x.psp evt.psp && str_eq x.psp_reference evt.psp_reference) w.attempts
        ≡ some a
      → find (has_id a.payment_intent_id) w.intents ≡ some pi
      → is_over pi.status ≡ true
      → let w' = (handle_webhook_event env cfg evt w).1 in
        (w'.intents ≡ w.intents) × (w'.entries ≡ w.entries)
  unfolding handle_webhook_event Attempts.get_by_psp_reference Intents.get_by_id query
  handle_webhook_event-over evt a pi w matched owner over =
      let P = Same w in
      let look = Attempts.get_by_psp_reference env evt.psp evt.psp_reference in
      let get : Attempt → Action PaymentIntent = λ a. Intents.get_by_id env a.payment_intent_id in
      let finish : Attempt → PaymentIntent → Action Done =
        λ a pi. keep_evidence env evt a >> apply_event env cfg evt a pi in
      let is_match : Attempt → Bool =
        λ x. str_eq x.psp evt.psp && str_eq x.psp_reference evt.psp_reference in
      let w₁ = tick w in
      let w₂ = tick w₁ in
      bind-lem P (wrapped "lookup attempt by psp ref" look)
        (λ a. wrapped "lookup pi" (get a) >>= finish a) w
        (λ b hit.
          let is_a : b ≡ a =
            found_once
              (query-found env (λ v. find is_match v.attempts) w b
                (wrapped-ok "lookup attempt by psp ref" look w b hit))
              matched in
          bind-lem P (wrapped "lookup pi" (get b)) (finish b) w₁
            (λ p hit.
              let is_pi : p ≡ pi =
                found_once
                  (query-found env (λ v. find (has_id b.payment_intent_id) v.intents) w₁ p
                    (wrapped-ok "lookup pi" (get b) w₁ p hit))
                  (rw is_a owner) in
              let kept : Same w (keep_evidence env evt b w₂).1 = evidence-Same env evt b w₂ in
              bind_any P (keep_evidence env evt b) (λ _. apply_event env cfg evt b p) w₂ kept
                (λ _.
                  subst P
                    (sym (apply_event-over evt b p (keep_evidence env evt b w₂).1 (rw is_pi over)))
                    kept))
            (λ e _. (refl, refl)))
        (λ e _. (refl, refl))
