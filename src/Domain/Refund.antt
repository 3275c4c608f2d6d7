-- ===== src/Domain/Refund.antt =====
-- internal/connector/connector.go: the refund of a payment, as a provider is asked for it.
use zia.Base.{String}
use zia.Base.Int.{ℤ}

pub record RefundRequest : Type 0 where
  pub payment_intent_id : String
  pub attempt_id : String
  pub psp_reference : String
  pub amount : ℤ
  pub currency : String
  pub reason : String

pub record RefundResult : Type 0 where
  pub psp_reference : String
  pub status : String
