-- ===== src/Settlement/Runner.antt =====
-- internal/settlement/runner.go.
use zia.Base.{
  ℕ, suc, String, Bool, false, ◌<>◌, none, some, List, [], ◌∷◌, map, if◌then◌else◌, str_eq,
  nonempty, any,
}
use zia.Base.Int.{ℤ, pos, ltb_ℤ}
use zia.Base.Dict.{Dict, lookup}
use zia.Domain.Accounting.{Merchant, Payout, PayoutStatus}
use zia.Domain.Message.{PayoutRequest, PayoutResult}
use zia.Effects.Failure.{errorf, ok, err}
use zia.Effects.World.{World, Env, Connector, tick}
use zia.Effects.Action.{Action, Done, pure, raise, ◌>>=◌, ◌>>◌, wrapped, logged, clock, new_uuid}
use zia.Repository.Payouts
use zia.Ledger.Accounts.{merchant_available}
use zia.Ledger.Rows.{balance}
use zia.Ledger.Engine.{post_payout_init, post_payout_complete}

pub record SettlementPolicy : Type 0 where
  pub min_balance_minor : ℤ  -- int64
  pub max_payout_minor : ℤ

unfoldable pub default_policy : SettlementPolicy
default_policy = record { min_balance_minor = pos 50_000; max_payout_minor = pos 1_000_000 }

-- Whether a connector pays out in a currency.
unfoldable pub pays_out : Connector → String → Bool
pays_out conn currency =
    if conn.capabilities.supports_payout
    then any (λ c. str_eq c currency) conn.capabilities.supported_currencies
    else false

-- The loop of `selectRail` over the registry's names.
unfoldable pub first_rail : Dict Connector → String → List String → String
first_rail registry currency [] = ""
first_rail registry currency (name ∷ names) =
    let later = first_rail registry currency names in
    elim (lookup name registry) [
      | none ↦ later
      | some conn ↦ if pays_out conn currency then name else later
    ]

unfoldable pub select_rail : Dict Connector → Merchant → String
select_rail registry m = first_rail registry m.default_currency (map (λ entry. entry.0) registry)

unfoldable pub payout_amount : SettlementPolicy → ℤ → ℤ
payout_amount policy balance =
    if ltb_ℤ policy.max_payout_minor balance then policy.max_payout_minor else balance

abbrev pub payout_request : Merchant → ℤ → String → PayoutRequest
payout_request m amount payout_id = record {
  merchant_id = m.id;
  amount = amount;
  currency = m.default_currency;
  target_currency = m.default_currency;
  bank_account_ref = m.id;
  idempotency_key = payout_id;
}

abbrev pub new_payout : Merchant → ℤ → String → String → PayoutResult → ℕ → ℕ → Payout
new_payout m amount rail payout_id result created_at updated_at = record {
  id = payout_id;
  merchant_id = m.id;
  amount = amount;
  currency = m.default_currency;
  rail = rail;
  status = PayoutStatus.pending;
  psp_reference = if nonempty result.psp_reference then some result.psp_reference else none;
  created_at = created_at;
  updated_at = updated_at;
}

-- `conn.InitiatePayout`
abbrev pub ask_payout : Connector → PayoutRequest → Action PayoutResult
ask_payout conn request w = (conn.initiate_payout w.calls request, tick w)

module _ (env : Env) where
  -- The provider reports that the money is there already.
  unfoldable pub complete : Merchant → ℤ → String → PayoutResult → Action Done
  complete m amount payout_id result =
      if str_eq result.status "succeeded"
      then (do
        wrapped "update payout status" (Payouts.update_status env payout_id PayoutStatus.succeeded)
        logged (post_payout_complete env m.id payout_id amount m.default_currency))
      else pure tt

  unfoldable pub record_payout : Merchant → ℤ → String → String → PayoutResult → Action Done
  record_payout m amount rail payout_id result = do
    created_at ← clock env
    updated_at ← clock env
    wrapped "save payout"
        (Payouts.create env (new_payout m amount rail payout_id result created_at updated_at))
    logged (post_payout_init env m.id payout_id amount m.default_currency)
    complete m amount payout_id result

  unfoldable pub pay_out : Merchant → ℤ → String → Connector → Action Done
  pay_out m amount rail conn = do
    payout_id ← new_uuid env
    result ← ask_payout conn (payout_request m amount payout_id)
    record_payout m amount rail payout_id result

  unfoldable pub settle_balance : SettlementPolicy → Merchant → ℤ → Action Done
  settle_balance policy m balance =
      if ltb_ℤ balance policy.min_balance_minor
      then pure tt
      else let rail = select_rail env.registry m in
        elim (lookup rail env.registry) [
          | none ↦ raise (errorf "no connector registered for rail %s" (rail ∷ []))
          | some conn ↦ pay_out m (payout_amount policy balance) rail conn
        ]

  unfoldable pub settle_merchant : SettlementPolicy → Merchant → Action Done
  settle_merchant policy m = do
    available ←
        wrapped ("get balance for " <> merchant_available m.id)
          (balance env (merchant_available m.id))
    settle_balance policy m available

  -- The loop of `Settle`, and what it logs at its end: how many merchants were settled, and how
  -- many were skipped.
  unfoldable pub settle_each : SettlementPolicy → List Merchant → ℕ × ℕ → World → (ℕ × ℕ) × World
  settle_each policy [] counts w = (counts, w)
  settle_each policy (m ∷ ms) (settled, skipped) w =
      let (r, w') = settle_merchant policy m w in
      let count : ℕ = elim r [ ok _ ↦ suc settled | err _ ↦ settled ] in
      settle_each policy ms (count, skipped) w'

  unfoldable pub settle_all : SettlementPolicy → List Merchant → Action (ℕ × ℕ)
  settle_all policy merchants w =
      let (counts, w') = settle_each policy merchants (0, 0) w in (ok counts, w')

  unfoldable pub settle : SettlementPolicy → Action (ℕ × ℕ)
  settle policy = do
    merchants ← wrapped "list merchants" (Payouts.list_merchants env)
    settle_all policy merchants
