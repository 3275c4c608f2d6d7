-- ===== src/Domain/Portal.antt =====
-- internal/domain/portal.go, checkout.go and webhookevent.go, and the key of merchant.go: what only
-- the API's handlers read and write.
use zia.Base.{ℕ, String, Bool, Option}
use zia.Base.Int.{ℤ}

pub record User : Type 0 where
  pub id : String
  pub merchant_id : String
  pub name : String
  pub email : String
  pub password_hash : String
  pub title : String
  pub phone : String
  pub role : String
  pub created_at : ℕ

pub record Session : Type 0 where
  pub id : String
  pub user_id : String
  pub merchant_id : String  -- no column: a read takes it from the user
  pub token : String
  pub expires_at : ℕ
  pub created_at : ℕ

pub record Customer : Type 0 where
  pub id : String
  pub merchant_id : String
  pub name : String
  pub company : String
  pub email : String
  pub phone : String
  pub location : String
  pub volume_minor : ℤ  -- int64
  pub ltv_minor : ℤ  -- int64
  pub status : String
  pub payment_method : String
  pub joined_at : ℕ
  pub created_at : ℕ

pub record TeamMember : Type 0 where
  pub id : String
  pub merchant_id : String
  pub user_id : String
  pub name : String
  pub email : String
  pub role : String
  pub last_active : Option ℕ
  pub initials : String
  pub created_at : ℕ

pub record TeamInvitation : Type 0 where
  pub id : String
  pub merchant_id : String
  pub email : String
  pub role : String
  pub token : String
  pub expires_at : ℕ
  pub created_at : ℕ

pub record ApiKey : Type 0 where
  pub id : String
  pub merchant_id : String
  pub name : String
  pub key_hash : String
  pub key_prefix : String
  pub environment : String
  pub created_at : ℕ

pub record CheckoutSession : Type 0 where
  pub id : String
  pub payment_intent_id : String
  pub public_token : String
  pub ui_config : String
  pub expires_at : ℕ
  pub created_at : ℕ

pub data ProcessingStatus : Type 0 where
  received processed failed ignored : ProcessingStatus

-- `domain.WebhookEvent`: the row that is kept of a webhook.
pub record WebhookRow : Type 0 where
  pub id : String
  pub psp : String
  pub event_type : String
  pub psp_reference : String
  pub dedup_key : String
  pub payload : String
  pub processing_status : ProcessingStatus
  pub received_at : ℕ

pub record Notification : Type 0 where
  pub id : String
  pub merchant_id : String
  pub tone : String
  pub title : String
  pub body : String
  pub category : String
  pub unread : Bool
  pub created_at : ℕ
