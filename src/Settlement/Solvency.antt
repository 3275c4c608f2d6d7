-- ===== src/Settlement/Solvency.antt =====
-- internal/settlement/runner.go: a settlement run takes from no account what is not there.
use zia.Base.{
  ℕ, suc, ◌+◌, ◌≤◌, String, Bool, true, false, ◌<>◌, ◌&&◌, ◌≡◌, refl, sym, ap, subst, ◌∙◌, inl, inr,
  length, List, [], ◌∷◌, arith, if◌then◌else◌, Bool-cases, Option-cases,
}
use zia.Base.Int.{ℤ, pos, ltb_ℤ, leb_ℤ, ◌≤ℤ◌, ◌-ℤ◌, -ℤ_parts}
use zia.Base.Word.{min_i64, max_i64}
use zia.Base.Dict.{lookup}
use zia.Domain.Accounting.{Merchant}
use zia.Effects.Failure.{Result, ok, err, external}
use zia.Effects.World.{World, Env, tick}
use zia.Effects.Action.{Done, query, wrapped}
use zia.Effects.Cases.{bind-lem, bind_any, wrapped-ok, query-ok}
use zia.Repository.Payouts
use zia.Ledger.Accounts.{merchant_available}
use zia.Ledger.Rows.{sum_credits, balance}
use zia.Settlement.Runner.{
  SettlementPolicy, select_rail, payout_amount, settle_balance, settle_merchant, settle_each,
  settle_all, settle,
}
use zia.Settlement.Draws.{pay_out-Draw}

-- No merchant's available account is below zero.
abbrev pub Solvent : World → Type 0
Solvent w = (m : Merchant) → pos 0 ≤ℤ sum_credits (merchant_available m.id) w.entries

payout_amount-bound :
    (policy : SettlementPolicy) (balance : ℤ) → payout_amount policy balance ≤ℤ balance
unfolding payout_amount
payout_amount-bound policy balance = ground arith

scanned : (fits : Bool) (sum b : ℤ) → (if fits then ok sum else err external) ≡ ok b → b ≡ sum
scanned true sum b h = ap (λ r. elim r [ ok x ↦ x | err _ ↦ sum ]) (sym h)
scanned false sum b h = ground arith

balance-sum :
    (env : Env) (a : String) (w : World) (b : ℤ)
    → (balance env a w).0 ≡ ok b
    → b ≡ sum_credits a w.entries
unfolding balance
balance-sum env a w b h =
    let f : World → Result ℤ = λ v.
      let sum = sum_credits a v.entries in
      if leb_ℤ min_i64 sum && leb_ℤ sum max_i64 then ok sum else err external in
    let sum = sum_credits a w.entries in
    scanned (leb_ℤ min_i64 sum && leb_ℤ sum max_i64) sum b (query-ok env f w b h)

left_over : (b x : ℤ) → x ≤ℤ b → pos 0 ≤ℤ b -ℤ x
left_over b x h = omega (arith, -ℤ_parts b x)

module _ (env : Env) (policy : SettlementPolicy) where
  settle_balance-Solvent :
      (m : Merchant) (b : ℤ) (w : World)
      → b ≡ sum_credits (merchant_available m.id) w.entries
      → Solvent w
      → Solvent (settle_balance env policy m b w).1
  unfolding settle_balance
  settle_balance-Solvent m b w read solvent m' =
      elim (Bool-cases (ltb_ℤ b policy.min_balance_minor)) [
        | inl low ↦ rw low (solvent m')
        | inr enough ↦
            let rail = select_rail env.registry m in
            elim (Option-cases (lookup rail env.registry)) [
              | inl unknown ↦ rw (enough, unknown) (solvent m')
              | inr (conn, there) ↦
                  let amount = payout_amount policy b in
                  rw (enough, there)
                    (elim (pay_out-Draw env m m' amount w rail conn) [
                      | inl same ↦ rw same (solvent m')
                      | inr (own, taken) ↦ rw taken (
                          left_over (sum_credits (merchant_available m'.id) w.entries) amount (
                            subst (λ x. amount ≤ℤ x)
                              (read ∙ ap (λ a. sum_credits a w.entries) (sym own))
                              (payout_amount-bound policy b)))
                    ])
            ]
      ]

  settle_merchant-Solvent :
      (m : Merchant) (w : World) → Solvent w → Solvent (settle_merchant env policy m w).1
  unfolding settle_merchant balance query
  settle_merchant-Solvent m w solvent =
      let a = merchant_available m.id in
      let text = "get balance for " <> a in
      bind-lem Solvent (wrapped text (balance env a)) (settle_balance env policy m) w
        (λ b read.
          settle_balance-Solvent m b (tick w)
            (balance-sum env a w b (wrapped-ok text (balance env a) w b read)) solvent)
        (λ _ _. solvent)

  settle_each-Solvent :
      (ms : List Merchant) (counts : ℕ × ℕ) (w : World)
      → Solvent w
      → Solvent (settle_each env policy ms counts w).1
  unfolding settle_each
  settle_each-Solvent [] counts w solvent = solvent
  settle_each-Solvent (m ∷ ms) (settled, skipped) w solvent =
      settle_each-Solvent ms _ (settle_merchant env policy m w).1
        (settle_merchant-Solvent m w solvent)

  -- A settlement run overdraws no merchant: where no merchant's available account is below zero,
  -- none is after it, under any policy and whatever fails on the way.
  pub settle-Solvent : (w : World) → Solvent w → Solvent (settle env policy w).1
  unfolding settle settle_all Payouts.list_merchants query
  settle-Solvent w solvent =
      bind_any Solvent (wrapped "list merchants" (Payouts.list_merchants env))
        (settle_all env policy) w solvent (λ ms. settle_each-Solvent ms (0, 0) (tick w) solvent)

one_more : (r : Result Done) (n : ℕ) → (elim r [ ok _ ↦ suc n | err _ ↦ n ]) ≤ suc n
one_more (ok _) n = omega arith
one_more (err _) n = omega arith

-- The loop over the merchants leaves the number of skipped ones as it was, and adds at most the
-- number of merchants to that of the settled ones.
pub settle_each-skipped :
    (env : Env) (policy : SettlementPolicy) (ms : List Merchant) (settled skipped : ℕ) (w : World)
    → let ((settled', skipped'), w') = settle_each env policy ms (settled, skipped) w in
      (skipped' ≡ skipped) × (settled' ≤ settled + length ms)
unfolding settle_each
settle_each-skipped env policy [] settled skipped w = (refl, omega arith)
settle_each-skipped env policy (m ∷ ms) settled skipped w =
    let (r, w') = settle_merchant env policy m w in
    let count : ℕ = elim r [ ok _ ↦ suc settled | err _ ↦ settled ] in
    let (same, bound) = settle_each-skipped env policy ms count skipped w' in
    (same, omega (arith, bound, one_more r settled))
