-- ===== src/Orchestrator/Once.antt =====
-- internal/orchestrator/engine.go: what `HandleWebhookEvent` and the delayed query do to the books.
use zia.Base.{
  ℕ, String, ◌≡◌, refl, sym, ap, subst, ◌∙◌, inl, inr, some, ◌++◌, arith, Bool-cases, Option-cases,
  find,
}
use zia.Domain.Intent.{PaymentIntent, PaymentIntentStatus, succeeded, status_eq, status_eq_iff}
use zia.Domain.Attempt.{Attempt, AttemptStatus}
use zia.Domain.Message.{WebhookEvent}
use zia.Effects.Failure.{Error, ok, err}
use zia.Effects.World.{World, Env, tick}
use zia.Effects.Action.{Action, Done, exec, query, ◌>>=◌, ◌>>◌, wrapped}
use zia.Effects.Cases.{bind-lem, bind_any, wrapped-ok, wrapped-err}
use zia.Repository.Attempts
use zia.Repository.Intents
use zia.Repository.Intents.{has_id, set_status, is_at}
use zia.Repository.Keys.{get_by_id-found}
use zia.Ledger.Engine.{post_collection}
use zia.Orchestrator.State.{is_valid_transition}
use zia.Orchestrator.Lifecycle.{◌⟶◌, is_valid_transition_iff}
use zia.Orchestrator.Outcome.{EngineConfig, outcome_of, notify, post_if_succeeded, compute_fee}
use zia.Orchestrator.Webhook.{keep_evidence, transition, apply_event, handle_webhook_event}
use zia.Orchestrator.Change.{Posted, Same, Moved, Change}
use zia.Orchestrator.Touched.{
  Same-trans, attempt_status-Same, evidence-Same, notify-Same, post_collection-Posted,
}

module _ (env : Env) (cfg : EngineConfig) where
  pub post-collects :
      (pi : PaymentIntent) (a : Attempt) (w : World)
      → post_if_succeeded env cfg pi a succeeded w
        ≡ post_collection env pi.merchant_id pi.id a.psp pi.amount pi.currency
            (compute_fee cfg pi.amount)
            w
  unfolding post_if_succeeded
  post-collects pi a w = rw ((status_eq_iff succeeded succeeded).1 refl) refl

  pub post_if_succeeded-Posted :
      (pi : PaymentIntent) (a : Attempt) (s : PaymentIntentStatus) (w : World)
      → let w' = (post_if_succeeded env cfg pi a s w).1 in
        (w'.intents ≡ w.intents) × Posted w w' pi.id s
  unfolding post_if_succeeded
  post_if_succeeded-Posted pi a s w = elim (Bool-cases (status_eq s succeeded)) [
    | inl paid ↦
        let fee = compute_fee cfg pi.amount in
        let w' = (post_collection env pi.merchant_id pi.id a.psp pi.amount pi.currency fee w).1 in
        let (still, posted) =
          post_collection-Posted env w pi.merchant_id pi.id a.psp pi.amount pi.currency fee in
        rw paid (still, subst (Posted w w' pi.id) (sym ((status_eq_iff s succeeded).0 paid)) posted)
    | inr unpaid ↦ rw unpaid (refl, inl refl)
  ]

  pub update_status-set :
      (id : String) (s : PaymentIntentStatus) (w : World)
      → (Intents.update_status env id s w).0 ≡ ok tt
      → let w' = (Intents.update_status env id s w).1 in
        (w'.intents ≡ set_status id s (env.now w.calls) w.intents) × (w'.entries ≡ w.entries)
  unfolding Intents.update_status exec
  update_status-set id s w h = elim (Bool-cases (env.fails w.calls)) [
    | inl down ↦ ground arith
    | inr up ↦ rw up (refl, refl)
  ]

  update_status-failed :
      (id : String) (s : PaymentIntentStatus) (w : World) (e : Error)
      → (Intents.update_status env id s w).0 ≡ err e
      → Same w (Intents.update_status env id s w).1
  unfolding Intents.update_status exec
  update_status-failed id s w e h = elim (Bool-cases (env.fails w.calls)) [
    | inl down ↦ rw down (refl, refl)
    | inr up ↦ ground arith
  ]

  -- What follows a status that was written.
  pub finish-Moved :
      (w₀ w : World) (row pi : PaymentIntent) (a : Attempt) (s : PaymentIntentStatus) (now : ℕ)
      → find (has_id pi.id) w₀.intents ≡ some row
      → row.status ⟶ s
      → (w.intents ≡ set_status pi.id s now w₀.intents) × (w.entries ≡ w₀.entries)
      → (w₁ w₂ : World) → (w₁.intents ≡ w.intents) × Posted w w₁ pi.id s
      → Same w₁ w₂
      → Moved w₀ w₂
  finish-Moved w₀ w row pi a s now here step (moved, kept) w₁ w₂ (still, posted) (i, e) = (
    pi.id,
    row,
    s,
    now,
    here,
    step,
    i ∙ still ∙ moved,
    elim posted [
      | inl nothing ↦ inl (e ∙ nothing ∙ kept)
      | inr (paid, es, added, one, others) ↦
          inr (paid, es, e ∙ added ∙ ap (λ l. l ++ es) kept, one, others)
    ],
  )

  transition-Change :
      (w₀ w : World) (pi : PaymentIntent) (a : Attempt) (s : PaymentIntentStatus)
      (t : AttemptStatus)
      → Same w₀ w
      → find (has_id pi.id) w₀.intents ≡ some pi
      → pi.status ⟶ s
      → Change w₀ (transition env cfg pi a s t w).1
  unfolding transition
  transition-Change w₀ w pi a s t same here step =
      let set_attempt = wrapped "update attempt status" (Attempts.update_status env a.id t) in
      let set_pi = wrapped "update pi status" (Intents.update_status env pi.id s) in
      let post = wrapped "ledger post" (post_if_succeeded env cfg pi a s) in
      let tell = notify env cfg pi a s in
      let P = Change w₀ in
      let w₁ = (set_attempt w).1 in
      let same₁ = Same-trans w₀ w w₁ same (attempt_status-Same env a.id t w) in
      let w₂ = (set_pi w₁).1 in
      let w₃ = (post w₂).1 in
      let moved = finish-Moved w₀ w₂ pi pi a s (env.now w₁.calls) here step in
      let posted = post_if_succeeded-Posted pi a s w₂ in
      bind_any P set_attempt (λ _. set_pi >> (post >> tell)) w (inl same₁)
        (λ _.
          bind-lem P set_pi (λ _. post >> tell) w₁
            (λ _ written.
              let (set, kept) =
                update_status-set pi.id s w₁ (
                  wrapped-ok "update pi status" (Intents.update_status env pi.id s) w₁ tt
                    written) in
              let new : (w₂.intents ≡ set_status pi.id s (env.now w₁.calls) w₀.intents)
                  × (w₂.entries ≡ w₀.entries) =
                (set ∙ ap (set_status pi.id s (env.now w₁.calls)) same₁.0, kept ∙ same₁.1) in
              bind_any P post (λ _. tell) w₂ (inr (moved new w₃ w₃ posted (refl, refl)))
                (λ _. inr (moved new w₃ (tell w₃).1 posted (notify-Same env cfg pi a s w₃))))
            (λ e refused.
              let (x, failed_) =
                wrapped-err "update pi status" (Intents.update_status env pi.id s) w₁ e refused in
              inl (Same-trans w₀ w₁ w₂ same₁ (update_status-failed pi.id s w₁ x failed_))))

  apply_event-Change :
      (evt : WebhookEvent) (a : Attempt) (w₀ w : World) (pi : PaymentIntent)
      → Same w₀ w
      → find (has_id pi.id) w₀.intents ≡ some pi
      → Change w₀ (apply_event env cfg evt a pi w).1
  unfolding apply_event
  apply_event-Change evt a w₀ w pi same here = elim (Option-cases (outcome_of evt.status)) [
    | inl unknown ↦ rw (unknown, apply_event) (inl same)
    | inr (outcome, known) ↦
        rw (known, apply_event)
          (elim (Bool-cases (is_valid_transition pi.status outcome.0)) [
            | inl valid ↦ rw valid (
                transition-Change w₀ w pi a outcome.0 outcome.1 same here
                  ((is_valid_transition_iff pi.status outcome.0).0 valid))
            | inr invalid ↦ rw invalid (inl same)
          ])
  ]

  pub says_succeeded :
      (evt : WebhookEvent) (a : Attempt) (pi : PaymentIntent) (w : World)
      → evt.status ≡ "succeeded"
      → pi.status ⟶ succeeded
      → apply_event env cfg evt a pi w ≡ transition env cfg pi a succeeded AttemptStatus.succeeded w
  unfolding apply_event outcome_of
  says_succeeded evt a pi w said step =
      rw (said, apply_event, (is_valid_transition_iff pi.status succeeded).1 step) refl

  -- One webhook changes nothing, or moves one intent one step and posts for it at most once.
  pub handle_webhook_event-Change :
      (evt : WebhookEvent) (w : World) → Change w (handle_webhook_event env cfg evt w).1
  unfolding handle_webhook_event Attempts.get_by_psp_reference Intents.get_by_id query
  handle_webhook_event-Change evt w =
      let P = Change w in
      let look =
        wrapped "lookup attempt by psp ref"
          (Attempts.get_by_psp_reference env evt.psp evt.psp_reference) in
      let finish : Attempt → PaymentIntent → Action Done =
        λ a pi. keep_evidence env evt a >> apply_event env cfg evt a pi in
      let w₁ = tick w in
      bind_any P look
        (λ a. wrapped "lookup pi" (Intents.get_by_id env a.payment_intent_id) >>= finish a) w
        (inl (refl, refl))
        (λ a.
          let get = Intents.get_by_id env a.payment_intent_id in
          bind-lem P (wrapped "lookup pi" get) (finish a) w₁
            (λ pi there.
              let here =
                get_by_id-found env a.payment_intent_id w₁ pi
                  (wrapped-ok "lookup pi" get w₁ pi there) in
              let w₂ = tick w₁ in
              let kept : Same w (keep_evidence env evt a w₂).1 = evidence-Same env evt a w₂ in
              bind_any P (keep_evidence env evt a) (λ _. apply_event env cfg evt a pi) w₂ (inl kept)
                (λ _. apply_event-Change evt a w (keep_evidence env evt a w₂).1 pi kept here))
            (λ e _. inl (refl, refl)))
