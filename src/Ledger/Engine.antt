-- ===== src/Ledger/Engine.antt =====
-- internal/ledger/engine.go.
use zia.Base.{ℕ, String, not, List, [], ◌∷◌, ◌++◌, none, some, if◌then◌else◌, str_eq}
use zia.Base.Int.{ℤ, pos, ltb_ℤ, eqb_ℤ}
use zia.Base.Word.{add64, sub64}
use zia.Base.Dict.{Dict, lookup, insert}
use zia.Domain.Accounting.{LedgerEntry}
use zia.Effects.Failure.{errorf, Result, ok, err}
use zia.Effects.World.{Env}
use zia.Effects.Action.{Action, Done, pure, ◌>>=◌, ◌>>◌, lift, clock, new_uuid}
use zia.Ledger.Accounts.{
  platform_fees, platform_operating, merchant_available, merchant_in_transit, psp_clearing_account,
}
use zia.Ledger.Rows.{insert_entries}

-- `balances[key]`
unfoldable pub net_of : String → Dict ℤ → ℤ
net_of key balances = elim (lookup key balances) [ none ↦ pos 0 | some n ↦ n ]

-- `balances[key] += e.Amount` or `-= e.Amount`, on the value.
unfoldable pub counted : LedgerEntry → ℤ → ℤ
counted e net = if str_eq e.entry_type "debit" then add64 net e.amount else sub64 net e.amount

-- The first loop of `validateBalanced`.
unfoldable pub tally : List LedgerEntry → Dict ℤ → Dict ℤ
tally [] balances = balances
tally (e ∷ es) balances =
    tally es (insert e.currency (counted e (net_of e.currency balances)) balances)

-- The second loop. Go walks a map in any order; the error names the first currency of this one.
unfoldable pub first_unbalanced : Dict ℤ → Result Done
first_unbalanced [] = ok tt
first_unbalanced ((currency, net) ∷ rest) =
    let later = first_unbalanced rest in
    if not (eqb_ℤ net (pos 0))
    then err (errorf "unbalanced ledger entries for %s: net=%d" (currency ∷ []))
    else later

unfoldable pub validate_balanced : List LedgerEntry → Result Done
unfolding tally first_unbalanced
validate_balanced entries = first_unbalanced (tally entries [])

unfoldable pub post_balanced : Env → List LedgerEntry → Action Done
post_balanced env entries = do lift (validate_balanced entries); insert_entries env entries

-- The fields that a posting's entries share.
pub record Posting : Type 0 where
  pub currency : String
  pub reference_type : String
  pub reference_id : String
  pub posted_at : ℕ

abbrev pub entry_of : Posting → String → String → String → ℤ → LedgerEntry
entry_of p id account entry_type amount = record {
  id = id;
  account_id = account;
  entry_type = entry_type;
  amount = amount;
  currency = p.currency;
  reference_type = p.reference_type;
  reference_id = p.reference_id;
  posted_at = p.posted_at;
}

-- A debit of one account and a credit of another, by the same amount.
unfoldable pub transfer : Env → Posting → String → String → ℤ → Action (List LedgerEntry)
unfolding new_uuid
transfer env p debited credited amount = do
  debit_id ← new_uuid env
  credit_id ← new_uuid env
  pure (
      entry_of p debit_id debited "debit" amount
      ∷ entry_of p credit_id credited "credit" amount
      ∷ [])

module _ (env : Env) where
  unfoldable pub post_collection : String → String → String → ℤ → String → ℤ → Action Done
  unfolding transfer clock
  post_collection merchant_id pi_id psp amount currency fee = do
    now ← clock env
    let payment : Posting = record {
      currency = currency;
      reference_type = "attempt";
      reference_id = pi_id;
      posted_at = now;
    }
    entries ←
        transfer env payment (psp_clearing_account psp) (merchant_available merchant_id) amount
    let charge : Posting = record payment { reference_type = "fee" }
    fees ←
        if ltb_ℤ (pos 0) fee
        then transfer env charge (merchant_available merchant_id) platform_fees fee
        else pure []
    post_balanced env (entries ++ fees)

  -- The other postings have one debit and one credit.
  unfoldable pub post_transfer : String → String → String → String → ℤ → String → Action Done
  unfolding transfer clock
  post_transfer reference_type reference_id debited credited amount currency = do
    now ← clock env
    let p : Posting = record {
      currency = currency;
      reference_type = reference_type;
      reference_id = reference_id;
      posted_at = now;
    }
    entries ← transfer env p debited credited amount
    post_balanced env entries

  unfoldable pub post_refund : String → String → String → ℤ → String → Action Done
  unfolding post_transfer
  post_refund merchant_id pi_id psp amount currency =
      post_transfer "refund" pi_id (merchant_available merchant_id) (psp_clearing_account psp)
        amount currency

  unfoldable pub post_payout_init : String → String → ℤ → String → Action Done
  unfolding post_transfer
  post_payout_init merchant_id payout_id amount currency =
      post_transfer "payout" payout_id (merchant_available merchant_id)
        (merchant_in_transit merchant_id) amount currency

  unfoldable pub post_payout_complete : String → String → ℤ → String → Action Done
  unfolding post_transfer
  post_payout_complete merchant_id payout_id amount currency =
      post_transfer "payout" payout_id (merchant_in_transit merchant_id) platform_operating amount
        currency

  unfoldable pub post_payout_reversal : String → String → ℤ → String → Action Done
  unfolding post_transfer
  post_payout_reversal merchant_id payout_id amount currency =
      post_transfer "payout" payout_id (merchant_in_transit merchant_id)
        (merchant_available merchant_id) amount currency
