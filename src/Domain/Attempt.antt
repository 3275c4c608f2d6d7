-- ===== src/Domain/Attempt.antt =====
-- internal/domain/attempt.go.
use zia.Base.{ℕ, String}
use zia.Base.Int.{ℤ}

pub data AttemptStatus : Type 0 where
  pending requires_action processing succeeded failed : AttemptStatus

pub record Attempt : Type 0 where
  pub id : String
  pub payment_intent_id : String
  pub psp : String
  pub psp_reference : String
  pub psp_transaction_id : String
  pub status : AttemptStatus
  pub sequence_no : ℤ  -- int
  pub raw_request : String
  pub raw_response : String
  pub request_payload : String
  pub callback_payload : String
  pub created_at : ℕ
  pub updated_at : ℕ

-- internal/repository/attempt.go: an attempt joined with its intent's amount and currency.
pub record AttemptRow : Type 0 where
  pub id : String
  pub payment_intent_id : String
  pub psp : String
  pub psp_reference : String
  pub status : AttemptStatus
  pub amount : ℤ
  pub currency : String
  pub created_at : ℕ
