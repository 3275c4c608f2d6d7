-- ===== src/Ledger/Collections.antt =====
-- internal/ledger/engine.go: what `PostCollection` does to the balances of the accounts.
use zia.Base.{
  ℕ, suc, ◌≡◌, ◌≢◌, refl, sym, subst, ◌∙◌, inl, inr, List, [], ◌++◌, arith, String, if◌then◌else◌,
  Bool-cases,
}
use mathlib.Core.Path.{ap₂}
use zia.Base.Int.{ℤ, pos, ltb_ℤ, ◌+ℤ◌, ◌-ℤ◌, int_laws}
use zia.Domain.Accounting.{LedgerEntry}
use zia.Effects.Failure.{ok}
use zia.Effects.World.{World, Env}
use zia.Effects.Action.{clock}
use zia.Ledger.Accounts.{platform_fees, merchant_available, psp_clearing_account}
use zia.Ledger.Rows.{insert_entries, sum_credits}
use zia.Ledger.Engine.{Posting, post_balanced, post_collection}
use zia.Ledger.Balanced.{net}
use zia.Ledger.Names.{clearing-ne-available, clearing-ne-fees, fees-ne-available}
use zia.Ledger.Postings.{
  gain_debited, gain_credited, gain_other, pair, net-pair, sum-pair, gain, Moves, Inserted-Moves,
  post_balanced-zero, posting, later,
}
use zia.Ledger.Inserts.{Inserted, insert_entries-Inserted, sum_credits-append, net-append}

-- What is charged of a fee.
abbrev pub charged : ℤ → ℤ
charged fee = if ltb_ℤ (pos 0) fee then fee else pos 0

abbrev pub collected : String → String → ℤ → ℤ → String → ℤ
collected merchant_id psp amount fee a =
    gain (psp_clearing_account psp) (merchant_available merchant_id) amount a
    +ℤ gain (merchant_available merchant_id) platform_fees (charged fee) a

unfoldable pub fee_entries : Posting → String → String → String → ℤ → List LedgerEntry
fee_entries p i j account fee =
    if ltb_ℤ (pos 0) fee then pair p i j account platform_fees fee else []

net-fee_entries :
    (c : String) (p : Posting) (i j account : String) (fee : ℤ)
    → net c (fee_entries p i j account fee) ≡ pos 0
unfolding fee_entries
net-fee_entries c p i j account fee = elim (Bool-cases (ltb_ℤ (pos 0) fee)) [
  | inl some_fee ↦ rw some_fee (net-pair c p i j account platform_fees fee)
  | inr no_fee ↦ rw no_fee (unfold net in refl)
]

pub gain-zero : (debited credited a : String) → gain debited credited (pos 0) a ≡ pos 0
unfolding gain ◌-ℤ◌
gain-zero debited credited a = ground arith

sum-fee_entries :
    (a : String) (p : Posting) (i j account : String) (fee : ℤ)
    → sum_credits a (fee_entries p i j account fee) ≡ gain account platform_fees (charged fee) a
unfolding fee_entries
sum-fee_entries a p i j account fee = elim (Bool-cases (ltb_ℤ (pos 0) fee)) [
  | inl some_fee ↦ rw some_fee (sum-pair a p i j account platform_fees fee)
  | inr no_fee ↦ rw no_fee (unfold sum_credits in sym (gain-zero account platform_fees a))
]

module _ (env : Env) (w : World) where
  unfoldable pub collection_entries : String → String → String → ℤ → String → ℤ → List LedgerEntry
  collection_entries merchant_id pi_id psp amount currency fee =
      pair (posting env w currency "attempt" pi_id) (env.uuid (suc w.calls))
        (env.uuid (suc (suc w.calls))) (psp_clearing_account psp) (merchant_available merchant_id)
        amount
      ++ fee_entries (posting env w currency "fee" pi_id) (env.uuid (suc (suc (suc w.calls))))
          (env.uuid (suc (suc (suc (suc w.calls))))) (merchant_available merchant_id) fee

  pub collection_calls : ℤ → ℕ
  collection_calls fee =
      if ltb_ℤ (pos 0) fee then suc (suc (suc (suc (suc w.calls)))) else suc (suc (suc w.calls))

  module _ (merchant_id pi_id psp : String) (amount : ℤ) (currency : String) (fee : ℤ) where
    abbrev pub all_entries : List LedgerEntry
    all_entries = collection_entries merchant_id pi_id psp amount currency fee

    net-collection : (c : String) → net c all_entries ≡ pos 0
    unfolding collection_entries
    net-collection c =
        net-append c (pair (posting env w currency "attempt" pi_id) _ _ _ _ amount)
          (fee_entries (posting env w currency "fee" pi_id) _ _ _ fee)
        ∙ ap₂ ◌+ℤ◌ (net-pair c (posting env w currency "attempt" pi_id) _ _ _ _ amount)
            (net-fee_entries c (posting env w currency "fee" pi_id) _ _ _ fee)
        ∙ omega int_laws

    sum-collection :
        (a : String) → sum_credits a all_entries ≡ collected merchant_id psp amount fee a
    unfolding collection_entries
    sum-collection a =
        sum_credits-append a (pair (posting env w currency "attempt" pi_id) _ _ _ _ amount)
          (fee_entries (posting env w currency "fee" pi_id) _ _ _ fee)
        ∙ ap₂ ◌+ℤ◌ (sum-pair a (posting env w currency "attempt" pi_id) _ _ _ _ amount)
            (sum-fee_entries a (posting env w currency "fee" pi_id) _ _ _ fee)

    post_collection-post_balanced :
        post_collection env merchant_id pi_id psp amount currency fee w
        ≡ post_balanced env all_entries (later env w (collection_calls fee))
    unfolding post_collection clock collection_entries collection_calls fee_entries
    post_collection-post_balanced = elim (Bool-cases (ltb_ℤ (pos 0) fee)) [
      | inl some_fee ↦ rw some_fee refl
      | inr no_fee ↦ rw no_fee refl
    ]

    pub post_collection-insert_entries :
        post_collection env merchant_id pi_id psp amount currency fee w
        ≡ insert_entries env all_entries (later env w (collection_calls fee))
    post_collection-insert_entries =
        post_collection-post_balanced
        ∙ post_balanced-zero env all_entries (later env w (collection_calls fee)) net-collection

    pub post_collection-Inserted :
        Inserted w all_entries (post_collection env merchant_id pi_id psp amount currency fee w)
    post_collection-Inserted =
        let w₀ = later env w (collection_calls fee) in
        subst (Inserted w all_entries) (sym post_collection-insert_entries)
          (insert_entries-Inserted env all_entries w₀)

    pub post_collection-Moves :
        (post_collection env merchant_id pi_id psp amount currency fee w).0 ≡ ok tt
        → Moves w
            (post_collection env merchant_id pi_id psp amount currency fee w).1
            (collected merchant_id psp amount fee)
    post_collection-Moves done =
        Inserted-Moves w all_entries
          (post_collection env merchant_id pi_id psp amount currency fee w)
          (collected merchant_id psp amount fee) post_collection-Inserted done sum-collection
          net-collection

regroup : (s x y : ℤ) → s +ℤ (x +ℤ (pos 0 -ℤ y)) ≡ s +ℤ x -ℤ y
regroup s x y = omega int_laws

-- A collection that reports success has moved the amount from the PSP's clearing account to the
-- merchant's available account and the fee, if it is positive, on to the platform's fees. It has
-- changed the credits of no other account, and no currency's debits less its credits.
pub post_collection_balances :
    (env : Env) (w : World) (merchant_id pi_id psp : String) (amount : ℤ) (currency : String)
    (fee : ℤ)
    → (post_collection env merchant_id pi_id psp amount currency fee w).0 ≡ ok tt
    → let after = (post_collection env merchant_id pi_id psp amount currency fee w).1.entries in
      let account = merchant_available merchant_id in
      (sum_credits account after ≡ sum_credits account w.entries +ℤ amount -ℤ charged fee)
      × (sum_credits (psp_clearing_account psp) after
          ≡ sum_credits (psp_clearing_account psp) w.entries -ℤ amount)
      × (sum_credits platform_fees after ≡ sum_credits platform_fees w.entries +ℤ charged fee)
      × ((a : String)
          → a ≢ account
          → a ≢ psp_clearing_account psp
          → a ≢ platform_fees
          → sum_credits a after ≡ sum_credits a w.entries)
      × ((c : String) → net c after ≡ net c w.entries)
post_collection_balances env w merchant_id pi_id psp amount currency fee done =
    let (moves, nets) =
      post_collection-Moves env w merchant_id pi_id psp amount currency fee done in
    let account = merchant_available merchant_id in
    let clearing = psp_clearing_account psp in
    let ca = clearing-ne-available psp merchant_id in
    let cf = clearing-ne-fees psp in
    let fa = fees-ne-available merchant_id in
    let af : account ≢ platform_fees = λ e. fa (sym e) in
    let cut = charged fee in
    (
      moves account
          ∙ rw (gain_credited clearing account amount ca, gain_debited account platform_fees cut af)
              (regroup (sum_credits account w.entries) amount cut),
      moves clearing
          ∙ rw
              (
                gain_debited clearing account amount ca,
                gain_other account platform_fees cut clearing ca cf,
              )
              (omega int_laws),
      moves platform_fees
          ∙ rw
              (
                gain_other clearing account amount platform_fees (λ e. cf (sym e)) fa,
                gain_credited account platform_fees cut af,
              )
              (omega int_laws),
      λ a na nc nf.
          moves a
          ∙ rw
              (
                gain_other clearing account amount a nc na,
                gain_other account platform_fees cut a na nf,
              )
              (omega int_laws),
      nets,
    )
