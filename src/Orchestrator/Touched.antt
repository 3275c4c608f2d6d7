-- ===== src/Orchestrator/Touched.antt =====
-- internal/orchestrator/engine.go: which rows each part of a handler touches.
use zia.Base.{
  ℕ, zero, suc, ◌≤◌, String, ◌≡◌, ◌≢◌, refl, sym, ap, ◌∙◌, inl, inr, List, [], ◌∷◌, take, arith,
  if◌then◌else◌, Bool-cases, str_eq, str_eq_ne, str_eq_self, nonempty,
}
use zia.Base.Int.{ℤ, pos, ltb_ℤ}
use zia.Domain.Intent.{PaymentIntent, PaymentIntentStatus, succeeded}
use zia.Domain.Attempt.{Attempt, AttemptStatus}
use zia.Domain.Accounting.{LedgerEntry}
use zia.Domain.Message.{WebhookEvent}
use zia.Effects.World.{World, Env}
use zia.Effects.Action.{exec, clock}
use zia.Repository.Attempts
use zia.Ledger.Postings.{posting}
use zia.Ledger.Collections.{fee_entries, collection_entries, post_collection-Inserted}
use zia.Ledger.Engine.{post_collection}
use zia.Orchestrator.Outcome.{EngineConfig, publish, notify}
use zia.Orchestrator.Webhook.{keep_evidence}
use zia.Orchestrator.Change.{payments, Posted, Same}

pub Same-trans : (u v w : World) → Same u v → Same v w → Same u w
Same-trans u v w (a, b) (c, d) = (c ∙ a, d ∙ b)

module _ (env : Env) where
  pub update-Same :
      (id : String) (f : Attempt → ℕ → Attempt) (w : World) → Same w (Attempts.update env id f w).1
  unfolding Attempts.update exec
  update-Same id f w = elim (Bool-cases (env.fails w.calls)) [
    | inl down ↦ rw down (refl, refl)
    | inr up ↦ rw up (refl, refl)
  ]

  pub attempt_status-Same :
      (id : String) (t : AttemptStatus) (w : World) → Same w (Attempts.update_status env id t w).1
  unfolding Attempts.update_status
  attempt_status-Same id t = update-Same id (λ a now. record a { status = t; updated_at = now })

  pub evidence-Same :
      (evt : WebhookEvent) (a : Attempt) (w : World) → Same w (keep_evidence env evt a w).1
  unfolding keep_evidence Attempts.update_psp_transaction_id Attempts.update_callback_payload
  evidence-Same evt a w =
      let keeps : Attempt → ℕ → Attempt =
        λ x now. record x { callback_payload = evt.raw_payload; updated_at = now } in
      let names : Attempt → ℕ → Attempt =
        λ x now. record x { psp_transaction_id = evt.psp_transaction_id; updated_at = now } in
      elim (Bool-cases (nonempty evt.psp_transaction_id)) [
        | inl given ↦
            let w₁ = (Attempts.update env a.id names w).1 in
            rw given (
              Same-trans w w₁ (Attempts.update env a.id keeps w₁).1 (update-Same a.id names w)
                (update-Same a.id keeps w₁))
        | inr without ↦ rw without (update-Same a.id keeps w)
      ]

  pub notify-Same :
      (cfg : EngineConfig) (pi : PaymentIntent) (a : Attempt) (s : PaymentIntentStatus) (w : World)
      → Same w (notify env cfg pi a s w).1
  unfolding notify publish clock exec
  notify-Same cfg pi a s w = elim (Bool-cases cfg.notifies) [
    | inl on ↦ rw on (elim (Bool-cases (env.fails (suc w.calls))) [
      | inl down ↦ rw down (refl, refl)
      | inr up ↦ rw up (refl, refl)
    ])
    | inr off ↦ rw off (refl, refl)
  ]

payments-take :
    (id : String) (k : ℕ) (es : List LedgerEntry) → payments id (take k es) ≤ payments id es
unfolding payments
payments-take id zero es = omega arith
payments-take id (suc k) [] = omega arith
payments-take id (suc k) (e ∷ es) = let ih = payments-take id k es in ground arith

-- The fee's entries are no payment.
payments-fee :
    (j : String) (env : Env) (w : World) (c id i k account : String) (fee : ℤ)
    → payments j (fee_entries (posting env w c "fee" id) i k account fee) ≡ 0
unfolding payments fee_entries
payments-fee j env w c id i k account fee = elim (Bool-cases (ltb_ℤ (pos 0) fee)) [
  | inl some_fee ↦ rw some_fee refl
  | inr no_fee ↦ rw no_fee refl
]

module _ (env : Env) (w : World) (merchant_id pi_id psp : String) (amount : ℤ) (currency : String)
    (fee : ℤ) where
  pub payments-collection :
      (j : String)
      → payments j (collection_entries env w merchant_id pi_id psp amount currency fee)
        ≡ (if str_eq pi_id j then 1 else 0)
  unfolding collection_entries payments
  payments-collection j =
      let no_fees = λ (i k account : String). payments-fee j env w currency pi_id i k account fee in
      elim (Bool-cases (str_eq pi_id j)) [
        | inl same ↦ rw (same, no_fees _ _ _) refl
        | inr other ↦ rw (other, no_fees _ _ _) refl
      ]

  one_payment :
      let es = collection_entries env w merchant_id pi_id psp amount currency fee in
      (fs : List LedgerEntry)
      → ((j : String) → payments j fs ≤ payments j es)
      → (payments pi_id fs ≤ 1) × ((j : String) → j ≢ pi_id → payments j fs ≡ 0)
  one_payment fs bound =
      let es = collection_entries env w merchant_id pi_id psp amount currency fee in
      let own : payments pi_id es ≡ 1 = payments-collection pi_id ∙ rw (str_eq_self pi_id) refl in
      (
        omega (arith, bound pi_id, own),
        λ j ne.
            let none_of_it : payments j es ≡ 0 =
              payments-collection j ∙ rw (str_eq_ne pi_id j (λ e. ne (sym e))) refl in
            omega (arith, bound j, none_of_it),
      )

  pub post_collection-Posted :
      let w' = (post_collection env merchant_id pi_id psp amount currency fee w).1 in
      (w'.intents ≡ w.intents) × Posted w w' pi_id succeeded
  post_collection-Posted =
      let es = collection_entries env w merchant_id pi_id psp amount currency fee in
      elim (post_collection-Inserted env w merchant_id pi_id psp amount currency fee) [
        | inl (_, (_, all)) ↦ (
          ap (λ v. v.intents) all,
          let (one, others) = one_payment es (λ j. omega arith) in
              inr (refl, es, ap (λ v. v.entries) all, one, others),
        )
        | inr (_, k, _, _, (_, some_)) ↦ (
          ap (λ v. v.intents) some_,
          let (one, others) = one_payment (take k es) (λ j. payments-take j k es) in
              inr (refl, take k es, ap (λ v. v.entries) some_, one, others),
        )
      ]
