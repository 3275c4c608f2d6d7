-- ===== src/Domain/Intent.antt =====
-- internal/domain/paymentintent.go.
use mathlib.Core.Bool.{decide, decide_iff}
use zia.Base.{ℕ, String, Option, Bool, true, ◌≡◌, ◌↔◌}
use zia.Base.Int.{ℤ}

pub data PaymentIntentStatus : Type 0 where
  created requires_action processing succeeded failed expired partially_refunded refunded :
      PaymentIntentStatus

pub PaymentIntentStatus-discrete : Discrete PaymentIntentStatus
PaymentIntentStatus-discrete = hlevel

-- The constant's text.
unfoldable pub status_text : PaymentIntentStatus → String
status_text created = "created"
status_text requires_action = "requires_action"
status_text processing = "processing"
status_text succeeded = "succeeded"
status_text failed = "failed"
status_text expired = "expired"
status_text partially_refunded = "partially_refunded"
status_text refunded = "refunded"

pub record PaymentIntent : Type 0 where
  pub id : String
  pub merchant_id : String
  pub amount : ℤ  -- int64
  pub currency : String
  pub status : PaymentIntentStatus
  pub method : String
  pub customer_ref : String
  pub customer_phone : String
  pub customer_email : String
  pub idempotency_key : String
  pub metadata : String
  pub expires_at : Option ℕ
  pub created_at : ℕ
  pub updated_at : ℕ

unfoldable pub status_eq : PaymentIntentStatus → PaymentIntentStatus → Bool
unfolding PaymentIntentStatus-discrete
status_eq a b = decide (PaymentIntentStatus-discrete a b)

pub status_eq_iff : (a b : PaymentIntentStatus) → (status_eq a b ≡ true) ↔ (a ≡ b)
unfolding status_eq
status_eq_iff a b = decide_iff (PaymentIntentStatus-discrete a b)
