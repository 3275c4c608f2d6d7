-- ===== src/Orchestrator/Races.antt =====
-- internal/orchestrator/engine.go: two webhooks that have both read an intent before either wrote.
use zia.Base.{◌+◌, String, ◌≡◌, refl, sym, ap, ◌∙◌, inl, inr, str_eq_self}
use zia.Base.Int.{ℤ}
use zia.Domain.Intent.{PaymentIntent, succeeded}
use zia.Domain.Attempt.{Attempt, AttemptStatus}
use zia.Domain.Message.{WebhookEvent}
use zia.Effects.Failure.{ok}
use zia.Effects.World.{World, Env}
use zia.Ledger.Engine.{post_collection}
use zia.Ledger.Collections.{collection_entries, post_collection-Inserted}
use zia.Effects.Action.{◌>>◌, wrapped}
use zia.Effects.Cases.{bind_inv, wrapped-ok}
use zia.Repository.Attempts
use zia.Repository.Intents
use zia.Orchestrator.Once.{says_succeeded, update_status-set, post-collects}
use zia.Orchestrator.Outcome.{EngineConfig, compute_fee, post_if_succeeded, notify}
use zia.Orchestrator.Webhook.{apply_event, transition}
use zia.Orchestrator.Lifecycle.{◌⟶◌}
use zia.Orchestrator.Change.{payments, payments-append}
use zia.Orchestrator.Touched.{notify-Same, attempt_status-Same, payments-collection}

-- A collection that reports success has taken its payment in once more.
post_collection-payments :
    (env : Env) (w : World) (merchant_id pi_id psp : String) (amount : ℤ) (currency : String)
    (fee : ℤ)
    → let (r, w') = post_collection env merchant_id pi_id psp amount currency fee w in
      r ≡ ok tt → payments pi_id w'.entries ≡ payments pi_id w.entries + 1
post_collection-payments env w merchant_id pi_id psp amount currency fee done =
    let es = collection_entries env w merchant_id pi_id psp amount currency fee in
    elim (post_collection-Inserted env w merchant_id pi_id psp amount currency fee) [
      | inl (_, (_, all)) ↦
          ap (λ v. payments pi_id v.entries) all
          ∙ payments-append pi_id w.entries es
          ∙ ap (λ n. payments pi_id w.entries + n)
              (payments-collection env w merchant_id pi_id psp amount currency fee pi_id
                ∙ rw (str_eq_self pi_id) refl)
      | inr (_, _, failed_, _, _) ↦ cc
    ]

module _ (env : Env) (cfg : EngineConfig) where
  transition-again :
      (pi : PaymentIntent) (a : Attempt) (w : World)
      → let (r, w') = transition env cfg pi a succeeded AttemptStatus.succeeded w in
        r ≡ ok tt → payments pi.id w'.entries ≡ payments pi.id w.entries + 1
  unfolding transition
  transition-again pi a w done =
      let set_attempt =
        wrapped "update attempt status" (Attempts.update_status env a.id AttemptStatus.succeeded) in
      let set_pi = wrapped "update pi status" (Intents.update_status env pi.id succeeded) in
      let post = wrapped "ledger post" (post_if_succeeded env cfg pi a succeeded) in
      let tell = notify env cfg pi a succeeded in
      let w₁ = (set_attempt w).1 in
      let w₂ = (set_pi w₁).1 in
      let w₃ = (post w₂).1 in
      let (_, _, run₁) = bind_inv set_attempt (λ _. set_pi >> (post >> tell)) w tt done in
      let (_, set, run₂) =
        bind_inv set_pi (λ _. post >> tell) w₁ tt (ap (λ m. m.0) (sym run₁) ∙ done) in
      let runs = run₁ ∙ run₂ in
      let (_, posted, run₃) = bind_inv post (λ _. tell) w₂ tt (ap (λ m. m.0) (sym runs) ∙ done) in
      let (_, kept) =
        update_status-set env cfg pi.id succeeded w₁
          (wrapped-ok "update pi status" (Intents.update_status env pi.id succeeded) w₁ tt set) in
      let collects = post-collects env cfg pi a w₂ in
      let taken : payments pi.id w₃.entries ≡ payments pi.id w₂.entries + 1 =
        ap (λ m. payments pi.id m.1.entries) collects
        ∙ post_collection-payments env w₂ pi.merchant_id pi.id a.psp pi.amount pi.currency
            (compute_fee cfg pi.amount)
            (ap (λ m. m.0) (sym collects)
              ∙ wrapped-ok "ledger post" (post_if_succeeded env cfg pi a succeeded) w₂ tt posted) in
      ap (λ m. payments pi.id m.1.entries) (runs ∙ run₃)
      ∙ ap (payments pi.id) (notify-Same env cfg pi a succeeded w₃).1
      ∙ taken
      ∙ ap (λ es. payments pi.id es + 1)
          (kept ∙ (attempt_status-Same env a.id AttemptStatus.succeeded w).1)

-- `HandleWebhookEvent` decides by the status that it read and writes whatever the row has become:
-- a webhook that reports success for an intent that was read as open, and that is applied without
-- an error, posts its payment once more, even if another one has done so in between.
pub apply_event-again :
    (env : Env) (cfg : EngineConfig) (evt : WebhookEvent) (a : Attempt) (pi : PaymentIntent)
    (w : World)
    → evt.status ≡ "succeeded"
    → pi.status ⟶ succeeded
    → let (r, w') = apply_event env cfg evt a pi w in
      r ≡ ok tt → payments pi.id w'.entries ≡ payments pi.id w.entries + 1
apply_event-again env cfg evt a pi w said step done =
    let is = says_succeeded env cfg evt a pi w said step in
    ap (λ m. payments pi.id m.1.entries) is
    ∙ transition-again env cfg pi a w (ap (λ m. m.0) (sym is) ∙ done)
