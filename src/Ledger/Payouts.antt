-- ===== src/Ledger/Payouts.antt =====
-- internal/ledger/engine.go: payouts, reversals and refunds, one posting after another.
use zia.Base.{◌≡◌, ap, ◌∙◌, String, arith}
use zia.Base.Int.{ℤ, pos, ◌≤ℤ◌, ◌+ℤ◌, int_laws}
use zia.Effects.Failure.{ok}
use zia.Effects.World.{World, Env}
use zia.Ledger.Accounts.{
  platform_fees, merchant_available, merchant_in_transit, psp_clearing_account,
}
use zia.Ledger.Rows.{sum_credits}
use zia.Ledger.Engine.{post_collection, post_refund, post_payout_init, post_payout_reversal}
use zia.Ledger.Postings.{gain, post_transfer-Moves}
use zia.Ledger.Collections.{post_collection-Moves, charged, collected, gain-zero}

add_zero : (x : ℤ) → x +ℤ pos 0 ≡ x
add_zero x = omega int_laws

gain_back : (d c a : String) (x : ℤ) → gain d c x a +ℤ gain c d x a ≡ pos 0
unfolding gain
gain_back d c a x = omega int_laws

free_charge : (fee : ℤ) → fee ≤ℤ pos 0 → charged fee ≡ pos 0
free_charge fee h = ground arith

assoc : (s x y : ℤ) → s +ℤ x +ℤ y ≡ s +ℤ (x +ℤ y)
assoc s x y = omega int_laws

cancels : (s t u x y : ℤ) → t ≡ s +ℤ x → u ≡ t +ℤ y → x +ℤ y ≡ pos 0 → u ≡ s
cancels s t u x y p q r = q ∙ ap (λ v. v +ℤ y) p ∙ assoc s x y ∙ ap (λ v. s +ℤ v) r ∙ omega int_laws

module _ (env : Env) (w : World) (merchant_id payout_id : String) (amount : ℤ)
    (currency : String) where
  abbrev begun : World
  begun = (post_payout_init env merchant_id payout_id amount currency w).1

  -- A payout that is begun and then reversed, both with success, leaves every account's credits as
  -- they were.
  pub payout_reversal_restores :
      (a : String)
      → (post_payout_init env merchant_id payout_id amount currency w).0 ≡ ok tt
      → (post_payout_reversal env merchant_id payout_id amount currency begun).0 ≡ ok tt
      → sum_credits a
          (post_payout_reversal env merchant_id payout_id amount currency begun).1.entries
        ≡ sum_credits a w.entries
  unfolding post_payout_init post_payout_reversal
  payout_reversal_restores a init reversed =
      let available = merchant_available merchant_id in
      let in_transit = merchant_in_transit merchant_id in
      let out =
        post_transfer-Moves env w "payout" payout_id available in_transit amount currency init in
      let back =
        post_transfer-Moves env begun "payout" payout_id in_transit available amount currency
          reversed in
      cancels (sum_credits a w.entries) (sum_credits a begun.entries) _
        (gain available in_transit amount a) (gain in_transit available amount a) (out.0 a)
        (back.0 a) (gain_back available in_transit a amount)

  -- A refund of the whole of a collection that charged no fee, both with success, leaves every
  -- account's credits as they were before the collection.
  pub refund_undoes_collection :
      (pi_id psp a : String) (fee : ℤ)
      → fee ≤ℤ pos 0
      → (post_collection env merchant_id pi_id psp amount currency fee w).0 ≡ ok tt
      → let w' = (post_collection env merchant_id pi_id psp amount currency fee w).1 in
        (post_refund env merchant_id pi_id psp amount currency w').0 ≡ ok tt
        → sum_credits a (post_refund env merchant_id pi_id psp amount currency w').1.entries
          ≡ sum_credits a w.entries
  unfolding post_refund
  refund_undoes_collection pi_id psp a fee free collects refunded =
      let clearing = psp_clearing_account psp in
      let available = merchant_available merchant_id in
      let w' = (post_collection env merchant_id pi_id psp amount currency fee w).1 in
      let in_ = post_collection-Moves env w merchant_id pi_id psp amount currency fee collects in
      let out =
        post_transfer-Moves env w' "refund" pi_id available clearing amount currency refunded in
      cancels (sum_credits a w.entries) (sum_credits a w'.entries) _
        (collected merchant_id psp amount fee a) (gain available clearing amount a) (in_.0 a)
        (out.0 a)
        (rw (free_charge fee free, gain-zero available platform_fees a)
          (ap (λ v. v +ℤ gain available clearing amount a)
              (add_zero (gain clearing available amount a))
            ∙ gain_back clearing available a amount))
