-- ===== src/Domain/Message.antt =====
-- The requests and results of internal/connector/connector.go, and the event of
-- internal/notification/dispatcher.go.
use zia.Base.{ℕ, String, Option, List, Bool}
use zia.Base.Int.{ℤ}

pub record Capabilities : Type 0 where
  pub supports_collection : Bool
  pub supports_payout : Bool
  pub supports_refund : Bool
  pub supported_currencies : List String
  pub supported_countries : List String
  pub confirmation_style : String

pub record CollectionRequest : Type 0 where
  pub payment_intent_id : String
  pub amount : ℤ
  pub currency : String
  pub method : String
  pub customer_phone : String
  pub customer_email : String
  pub callback_url : String
  pub idempotency_key : String

pub record NextAction : Type 0 where
  pub type : String
  pub url : String

pub record CollectionResult : Type 0 where
  pub psp_reference : String
  pub status : String
  pub next_action : Option NextAction
  pub raw_request : String
  pub raw_response : String

pub record StatusResult : Type 0 where
  pub supported : Bool
  pub status : String
  pub amount : ℤ
  pub currency : String

pub record PayoutRequest : Type 0 where
  pub merchant_id : String
  pub amount : ℤ
  pub currency : String
  pub target_currency : String
  pub bank_account_ref : String
  pub idempotency_key : String

pub record PayoutResult : Type 0 where
  pub psp_reference : String
  pub status : String

pub record WebhookEvent : Type 0 where
  pub psp : String
  pub event_type : String
  pub psp_reference : String
  pub psp_transaction_id : String
  pub dedup_key : String
  pub status : String
  pub amount : ℤ
  pub currency : String
  pub raw_payload : String

pub record NotificationEvent : Type 0 where
  pub event_type : String
  pub pi_id : String
  pub merchant_id : String
  pub amount : ℤ
  pub currency : String
  pub psp : String
  pub psp_reference : String
  pub status : String
  pub timestamp : ℕ
