-- ===== src/Orchestrator/Paid.antt =====
-- internal/orchestrator/engine.go: a payment that its provider reports as paid.
use zia.Base.{
  ℕ, String, false, ◌&&◌, ◌≡◌, refl, sym, ap, subst, ◌∙◌, inl, inr, some, Bool-cases, str_eq,
  str_eq_iff, find, nonempty,
}
use zia.Base.Int.{ℤ, pos, ◌≤ℤ◌, ◌+ℤ◌}
use zia.Domain.Intent.{PaymentIntent, PaymentIntentStatus, succeeded}
use zia.Domain.Attempt.{Attempt, AttemptStatus}
use zia.Domain.Message.{WebhookEvent}
use zia.Effects.Failure.{Result, ok}
use zia.Effects.World.{World, Env, tick}
use zia.Effects.Action.{Action, Done, exec, query, clock, ◌>>=◌, ◌>>◌, wrapped}
use zia.Effects.Cases.{bind-ok, wrapped_as_ok}
use zia.Repository.Attempts
use zia.Repository.Intents
use zia.Repository.Intents.{has_id, set_status, with_status}
use zia.Repository.Keys.{find-set_status, find-has_id}
use zia.Ledger.Rows.{sum_credits}
use zia.Ledger.Balanced.{net}
use zia.Orchestrator.Once.{
  post-collects, says_succeeded, update_status-set, post_if_succeeded-Posted,
}
use zia.Ledger.Postings.{Moves}
use zia.Ledger.Collections.{collected, post_collection-Moves}
use zia.Ledger.Atomicity.{post_collection-ok}
use zia.Orchestrator.Lifecycle.{◌⟶◌}
use zia.Orchestrator.Outcome.{EngineConfig, compute_fee, post_if_succeeded, notify}
use zia.Orchestrator.Webhook.{keep_evidence, transition, apply_event, handle_webhook_event}
use zia.Orchestrator.Change.{Same}
use zia.Orchestrator.Touched.{Same-trans, evidence-Same, attempt_status-Same, notify-Same}

Moves-along :
    (u u' v v' : World) (f : String → ℤ)
    → u.entries ≡ u'.entries
    → v'.entries ≡ v.entries
    → Moves u v f
    → Moves u' v' f
Moves-along u u' v v' f start end (sums, nets) = (
  λ a. ap (sum_credits a) end ∙ sums a ∙ ap (λ es. sum_credits a es +ℤ f a) start,
  λ c. ap (net c) end ∙ nets c ∙ ap (net c) start,
)

module _ (env : Env) (cfg : EngineConfig) (up : (n : ℕ) → env.fails n ≡ false) where
  notify-ok :
      (pi : PaymentIntent) (a : Attempt) (s : PaymentIntentStatus) (w : World)
      → (notify env cfg pi a s w).0 ≡ ok tt
  unfolding notify clock
  notify-ok pi a s w = elim (Bool-cases cfg.notifies) [
    | inl on ↦ rw on refl
    | inr off ↦ rw off refl
  ]

  keep_evidence-ok :
      (evt : WebhookEvent) (a : Attempt) (w : World) → (keep_evidence env evt a w).0 ≡ ok tt
  unfolding keep_evidence
  keep_evidence-ok evt a w = elim (Bool-cases (nonempty evt.psp_transaction_id)) [
    | inl given ↦ rw given refl
    | inr without ↦ rw without refl
  ]

  -- What a payment that succeeds leaves: no error, the new status, and the amount less the fee on
  -- the merchant's account.
  abbrev pub Paid : World → PaymentIntent → Attempt → Result Done × World → Type 0
  Paid w pi a (r, w') =
      (r ≡ ok tt)
      × ((now : ℕ) × (w'.intents ≡ set_status pi.id succeeded now w.intents))
      × Moves w w' (collected pi.merchant_id a.psp pi.amount (compute_fee cfg pi.amount))

  attempt_status-ok :
      (id : String) (t : AttemptStatus) (w : World) → (Attempts.update_status env id t w).0 ≡ ok tt
  unfolding Attempts.update_status Attempts.update exec
  attempt_status-ok id t w = rw (up w.calls) refl

  pi_status-ok :
      (id : String) (s : PaymentIntentStatus) (w : World)
      → (Intents.update_status env id s w).0 ≡ ok tt
  unfolding Intents.update_status exec
  pi_status-ok id s w = rw (up w.calls) refl

  pub transition-Paid :
      (w₀ w : World) (pi : PaymentIntent) (a : Attempt)
      → Same w₀ w
      → pos 1 ≤ℤ pi.amount
      → Paid w₀ pi a (transition env cfg pi a succeeded AttemptStatus.succeeded w)
  unfolding transition
  transition-Paid w₀ w pi a same positive =
      let set_attempt =
        wrapped "update attempt status" (Attempts.update_status env a.id AttemptStatus.succeeded) in
      let set_pi = wrapped "update pi status" (Intents.update_status env pi.id succeeded) in
      let post = wrapped "ledger post" (post_if_succeeded env cfg pi a succeeded) in
      let tell = notify env cfg pi a succeeded in
      let fee = compute_fee cfg pi.amount in
      let w₁ = (set_attempt w).1 in
      let w₂ = (set_pi w₁).1 in
      let w₃ = (post w₂).1 in
      let same₁ =
        Same-trans w₀ w w₁ same (attempt_status-Same env a.id AttemptStatus.succeeded w) in
      let (set, kept) =
        update_status-set env cfg pi.id succeeded w₁ (pi_status-ok pi.id succeeded w₁) in
      let collects = post-collects env cfg pi a w₂ in
      let posts : (post_if_succeeded env cfg pi a succeeded w₂).0 ≡ ok tt =
        ap (λ m. m.0) collects
        ∙ post_collection-ok env w₂ pi.merchant_id pi.id a.psp pi.amount pi.currency fee up
            positive in
      let moved : Moves w₂ w₃ (collected pi.merchant_id a.psp pi.amount fee) =
        subst (λ m. Moves w₂ m.1 (collected pi.merchant_id a.psp pi.amount fee)) (sym collects)
          (post_collection-Moves env w₂ pi.merchant_id pi.id a.psp pi.amount pi.currency fee (
            post_collection-ok env w₂ pi.merchant_id pi.id a.psp pi.amount pi.currency fee up
              positive)) in
      let runs : (set_attempt >> (set_pi >> (post >> tell))) w ≡ tell w₃ =
        bind-ok set_attempt (λ _. set_pi >> (post >> tell)) w tt
          (wrapped_as_ok "update attempt status"
            (Attempts.update_status env a.id AttemptStatus.succeeded) w tt
            (attempt_status-ok a.id AttemptStatus.succeeded w))
        ∙ bind-ok set_pi (λ _. post >> tell) w₁ tt
            (wrapped_as_ok "update pi status" (Intents.update_status env pi.id succeeded) w₁ tt
              (pi_status-ok pi.id succeeded w₁))
        ∙ bind-ok post (λ _. tell) w₂ tt
            (wrapped_as_ok "ledger post" (post_if_succeeded env cfg pi a succeeded) w₂ tt posts) in
      let told = notify-Same env cfg pi a succeeded w₃ in
      let still = (post_if_succeeded-Posted env cfg pi a succeeded w₂).0 in
      let now = env.now w₁.calls in
      subst (Paid w₀ pi a) (sym runs) (
        notify-ok pi a succeeded w₃,
        (now, told.0 ∙ still ∙ set ∙ ap (set_status pi.id succeeded now) same₁.0),
        Moves-along w₂ w₀ w₃ (tell w₃).1 _ (kept ∙ same₁.1) told.1 moved,
      )

  attempt-found :
      (evt : WebhookEvent) (a : Attempt) (w : World)
      → find (λ x. str_eq x.psp evt.psp && str_eq x.psp_reference evt.psp_reference) w.attempts
        ≡ some a
      → (Attempts.get_by_psp_reference env evt.psp evt.psp_reference w).0 ≡ ok a
  unfolding Attempts.get_by_psp_reference query
  attempt-found evt a w h = rw (up w.calls, h) refl

  intent-found :
      (a : Attempt) (pi : PaymentIntent) (w : World)
      → find (has_id a.payment_intent_id) w.intents ≡ some pi
      → (Intents.get_by_id env a.payment_intent_id w).0 ≡ ok pi
  unfolding Intents.get_by_id query
  intent-found a pi w h = rw (up w.calls, h) refl

  -- Where the outside does not fail, a webhook that reports success for an attempt on an intent
  -- that may still succeed, of a positive amount, returns no error. It gives the intent the status
  -- `succeeded`, moves its amount from the PSP's clearing account to the merchant's available
  -- account and the fee, if it is positive, on to the platform's, and leaves every currency's sum
  -- of debits less credits.
  pub handle_webhook_event-Paid :
      (evt : WebhookEvent) (a : Attempt) (pi : PaymentIntent) (w : World)
      → evt.status ≡ "succeeded"
      → find (λ x. str_eq x.psp evt.psp && str_eq x.psp_reference evt.psp_reference) w.attempts
        ≡ some a
      → find (has_id a.payment_intent_id) w.intents ≡ some pi
      → pi.status ⟶ succeeded
      → pos 1 ≤ℤ pi.amount
      → let (r, w') = handle_webhook_event env cfg evt w in
        (r ≡ ok tt)
        × ((now : ℕ) × (find (has_id pi.id) w'.intents ≡ some (with_status succeeded now pi)))
        × Moves w w' (collected pi.merchant_id a.psp pi.amount (compute_fee cfg pi.amount))
  unfolding handle_webhook_event Attempts.get_by_psp_reference Intents.get_by_id query
  handle_webhook_event-Paid evt a pi w said matched owner step positive =
      let look = Attempts.get_by_psp_reference env evt.psp evt.psp_reference in
      let get : Attempt → Action PaymentIntent = λ a. Intents.get_by_id env a.payment_intent_id in
      let finish : Attempt → PaymentIntent → Action Done =
        λ a pi. keep_evidence env evt a >> apply_event env cfg evt a pi in
      let w₁ = tick w in
      let w₂ = tick w₁ in
      let w₃ = (keep_evidence env evt a w₂).1 in
      let runs : handle_webhook_event env cfg evt w
          ≡ transition env cfg pi a succeeded AttemptStatus.succeeded w₃ =
        bind-ok (wrapped "lookup attempt by psp ref" look)
          (λ a. wrapped "lookup pi" (get a) >>= finish a) w a
          (wrapped_as_ok "lookup attempt by psp ref" look w a (attempt-found evt a w matched))
        ∙ bind-ok (wrapped "lookup pi" (get a)) (finish a) w₁ pi
            (wrapped_as_ok "lookup pi" (get a) w₁ pi (intent-found a pi w₁ owner))
        ∙ bind-ok (keep_evidence env evt a) (λ _. apply_event env cfg evt a pi) w₂ tt
            (keep_evidence-ok evt a w₂)
        ∙ says_succeeded env cfg evt a pi w₃ said step in
      let (done, (now, set), moved) =
        subst (Paid w pi a) (sym runs)
          (transition-Paid w w₃ pi a (evidence-Same env evt a w₂) positive) in
      let own : pi.id ≡ a.payment_intent_id =
        (str_eq_iff pi.id a.payment_intent_id).0
          (find-has_id a.payment_intent_id w.intents pi owner) in
      (
        done,
        (
          now,
          rw set (
              find-set_status pi.id succeeded now w.intents pi
                (subst (λ i. find (has_id i) w.intents ≡ some pi) (sym own) owner)),
        ),
        moved,
      )
