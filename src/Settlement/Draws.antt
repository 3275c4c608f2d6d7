-- ===== src/Settlement/Draws.antt =====
-- internal/settlement/runner.go: what paying one merchant does to the available accounts.
use zia.Base.{
  ℕ, zero, suc, String, ◌≡◌, ◌≢◌, refl, sym, ap, subst, ◌∙◌, ◌⊎◌, inl, inr, List, [], ◌++◌,
  Bool-cases, take, str_eq, str_eq_iff, str_eq_ne,
}
use zia.Base.Int.{ℤ, pos, ◌-ℤ◌, int_laws}
use zia.Domain.Accounting.{LedgerEntry, Merchant, Payout, PayoutStatus}
use zia.Domain.Message.{PayoutResult}
use zia.Effects.World.{World, Env, Connector, tick}
use zia.Effects.Action.{exec, clock, new_uuid, ◌>>◌, wrapped, logged}
use zia.Effects.Cases.{bind_any}
use zia.Repository.Payouts
use zia.Ledger.Accounts.{merchant_available, merchant_in_transit, platform_operating}
use zia.Ledger.Names.{available-ne-in_transit, operating-ne-available}
use zia.Ledger.Rows.{sum_credits, insert_entries}
use zia.Ledger.Inserts.{insert_entries-Inserted, sum_credits-append}
use zia.Ledger.Postings.{pair, posting, later, post_transfer-insert_entries}
use zia.Ledger.Engine.{post_transfer, post_payout_init, post_payout_complete}
use zia.Settlement.Runner.{payout_request, new_payout, ask_payout, complete, record_payout, pay_out}

-- An account was left as it was, or an amount was taken from it if it is the one that is debited.
abbrev pub Drawn : String → ℤ → String → World → World → Type 0
Drawn debited amount a w w' =
    (sum_credits a w'.entries ≡ sum_credits a w.entries)
    ⊎ ((a ≡ debited) × (sum_credits a w'.entries ≡ sum_credits a w.entries -ℤ amount))

nothing : (a : String) (k : ℕ) → sum_credits a (take k []) ≡ pos 0
unfolding sum_credits
nothing a zero = refl
nothing a (suc k) = refl

-- The first few entries of a transfer, for an account that is not credited.
take-pair :
    (env : Env) (w : World) (c t r i j debited credited a : String) (amount : ℤ) (k : ℕ)
    → a ≢ credited
    → let part = take k (pair (posting env w c t r) i j debited credited amount) in
      (sum_credits a part ≡ pos 0) ⊎ ((a ≡ debited) × (sum_credits a part ≡ pos 0 -ℤ amount))
unfolding sum_credits
take-pair env w c t r i j debited credited a amount zero ne = inl refl
take-pair env w c t r i j debited credited a amount (suc zero) ne =
    elim (Bool-cases (str_eq debited a)) [
      | inl own ↦ inr (sym ((str_eq_iff debited a).0 own), rw own (omega int_laws))
      | inr other ↦ rw other (inl refl)
    ]
take-pair env w c t r i j debited credited a amount (suc (suc k)) ne =
    let not_credited = str_eq_ne credited a (λ e. ne (sym e)) in
    elim (Bool-cases (str_eq debited a)) [
      | inl own ↦
          inr (
            sym ((str_eq_iff debited a).0 own),
            rw (own, not_credited, nothing a k) (omega int_laws),
          )
      | inr other ↦ inl (rw (other, not_credited, nothing a k) refl)
    ]

grown-Drawn :
    (debited a : String) (amount : ℤ) (w w' : World) (fs : List LedgerEntry)
    → w'.entries ≡ w.entries ++ fs
    → (sum_credits a fs ≡ pos 0) ⊎ ((a ≡ debited) × (sum_credits a fs ≡ pos 0 -ℤ amount))
    → Drawn debited amount a w w'
grown-Drawn debited a amount w w' fs grown part =
    let total = ap (sum_credits a) grown ∙ sum_credits-append a w.entries fs in
    elim part [
      | inl none_ ↦ inl (total ∙ rw none_ (omega int_laws))
      | inr (own, taken) ↦ inr (own, total ∙ rw taken (omega int_laws))
    ]

-- A transfer, however far it comes.
transfer-Drawn :
    (env : Env) (w : World) (t r debited credited : String) (amount : ℤ) (currency a : String)
    → a ≢ credited
    → Drawn debited amount a w (post_transfer env t r debited credited amount currency w).1
transfer-Drawn env w t r debited credited amount currency a ne =
    let i = env.uuid (suc w.calls) in
    let j = env.uuid (suc (suc w.calls)) in
    let es = pair (posting env w currency t r) i j debited credited amount in
    let w₀ = later env w (suc (suc (suc w.calls))) in
    let w' = (insert_entries env es w₀).1 in
    let part = λ (k : ℕ). take-pair env w currency t r i j debited credited a amount k ne in
    subst (λ m. Drawn debited amount a w m.1)
      (sym (post_transfer-insert_entries env w t r debited credited amount currency))
      (elim (insert_entries-Inserted env es w₀) [
        | inl (_, (_, all)) ↦
            grown-Drawn debited a amount w w' es (ap (λ v. v.entries) all) (part 2)
        | inr (_, k, _, _, (_, some_)) ↦
            grown-Drawn debited a amount w w' (take k es) (ap (λ v. v.entries) some_) (part k)
      ])

module _ (env : Env) (m m' : Merchant) (amount : ℤ) where
  -- The available account of any merchant, the one that is paid included.
  abbrev pub account : String
  account = merchant_available m'.id

  init-Drawn :
      (payout_id : String) (w : World)
      → Drawn
          (merchant_available m.id)
          amount
          account
          w
          (post_payout_init env m.id payout_id amount m.default_currency w).1
  unfolding post_payout_init
  init-Drawn payout_id w =
      transfer-Drawn env w "payout" payout_id (merchant_available m.id) (merchant_in_transit m.id)
        amount m.default_currency account (available-ne-in_transit m'.id m.id)

  complete-kept :
      (payout_id : String) (w : World)
      → sum_credits account
          (post_payout_complete env m.id payout_id amount m.default_currency w).1.entries
        ≡ sum_credits account w.entries
  unfolding post_payout_complete
  complete-kept payout_id w =
      elim (transfer-Drawn env w "payout" payout_id (merchant_in_transit m.id) platform_operating
        amount m.default_currency account (λ e. operating-ne-available m'.id (sym e))) [
          | inl same ↦ same
          | inr (own, _) ↦ absurd (available-ne-in_transit m'.id m.id own)
        ]

  payouts-kept :
      (id : String) (s : PayoutStatus) (w : World)
      → (Payouts.update_status env id s w).1.entries ≡ w.entries
  unfolding Payouts.update_status exec
  payouts-kept id s w = elim (Bool-cases (env.fails w.calls)) [
    | inl down ↦ rw down refl
    | inr up ↦ rw up refl
  ]

  create-kept : (p : Payout) (w : World) → (Payouts.create env p w).1.entries ≡ w.entries
  unfolding Payouts.create exec
  create-kept p w = elim (Bool-cases (env.fails w.calls)) [
    | inl down ↦ rw down refl
    | inr up ↦ rw up refl
  ]

  abbrev pub Draw : World → World → Type 0
  Draw = Drawn (merchant_available m.id) amount account

  Draw-kept :
      (w v v' : World)
      → sum_credits account v'.entries ≡ sum_credits account v.entries
      → Draw w v
      → Draw w v'
  Draw-kept w v v' same (inl kept) = inl (same ∙ kept)
  Draw-kept w v v' same (inr (own, taken)) = inr (own, same ∙ taken)

  complete-Draw :
      (w v : World) (payout_id : String) (result : PayoutResult)
      → Draw w v
      → Draw w (complete env m amount payout_id result v).1
  unfolding complete
  complete-Draw w v payout_id result drawn = elim (Bool-cases (str_eq result.status "succeeded")) [
    | inl done ↦
        let set =
          wrapped "update payout status"
            (Payouts.update_status env payout_id PayoutStatus.succeeded) in
        let post = logged (post_payout_complete env m.id payout_id amount m.default_currency) in
        let v₁ = (set v).1 in
        let kept =
          Draw-kept w v v₁
            (ap (sum_credits account) (payouts-kept payout_id PayoutStatus.succeeded v)) drawn in
        rw done (
          bind_any (Draw w) set (λ _. post) v kept
            (λ _. Draw-kept w v₁ (post v₁).1 (complete-kept payout_id v₁) kept))
    | inr waits ↦ rw waits drawn
  ]

  record_payout-Draw :
      (w : World) (rail payout_id : String) (result : PayoutResult)
      → Draw w (record_payout env m amount rail payout_id result w).1
  unfolding record_payout clock
  record_payout-Draw w rail payout_id result =
      let w₁ = tick (tick w) in
      let payout =
        new_payout m amount rail payout_id result (env.now w.calls) (env.now (suc w.calls)) in
      let save = wrapped "save payout" (Payouts.create env payout) in
      let post = logged (post_payout_init env m.id payout_id amount m.default_currency) in
      let finish = complete env m amount payout_id result in
      let w₂ = (save w₁).1 in
      let w₃ = (post w₂).1 in
      let saved = ap (sum_credits account) (create-kept payout w₁) in
      let drawn : Draw w w₃ = elim (init-Drawn payout_id w₂) [
        | inl same ↦ inl (same ∙ saved)
        | inr (own, taken) ↦ inr (own, taken ∙ ap (λ n. n -ℤ amount) saved)
      ] in
      bind_any (Draw w) save (λ _. post >> finish) w₁ (inl saved)
        (λ _.
          bind_any (Draw w) post (λ _. finish) w₂ drawn
            (λ _. complete-Draw w w₃ payout_id result drawn))

  pub pay_out-Draw :
      (w : World) (rail : String) (conn : Connector) → Draw w (pay_out env m amount rail conn w).1
  unfolding pay_out new_uuid
  pay_out-Draw w rail conn =
      let payout_id = env.uuid w.calls in
      bind_any (Draw w) (ask_payout conn (payout_request m amount payout_id))
        (record_payout env m amount rail payout_id) (tick w) (inl refl)
        (λ result. record_payout-Draw (tick (tick w)) rail payout_id result)
