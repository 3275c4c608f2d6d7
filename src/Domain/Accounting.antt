-- ===== src/Domain/Accounting.antt =====
-- internal/domain/ledger.go, merchant.go and payout.go.
use zia.Base.{ℕ, String, Option}
use zia.Base.Int.{ℤ}

pub record LedgerEntry : Type 0 where
  pub id : String
  pub account_id : String
  pub entry_type : String
  pub amount : ℤ  -- int64
  pub currency : String
  pub reference_type : String
  pub reference_id : String
  pub posted_at : ℕ

pub data MerchantStatus : Type 0 where
  active inactive : MerchantStatus

pub record Merchant : Type 0 where
  pub id : String
  pub code : String
  pub legal_name : String
  pub country : String
  pub default_currency : String
  pub status : MerchantStatus
  pub settlement_config : String
  pub created_at : ℕ

pub data PayoutStatus : Type 0 where
  pending succeeded failed : PayoutStatus

pub record Payout : Type 0 where
  pub id : String
  pub merchant_id : String
  pub amount : ℤ  -- int64
  pub currency : String
  pub rail : String
  pub status : PayoutStatus
  pub psp_reference : Option String
  pub created_at : ℕ
  pub updated_at : ℕ
