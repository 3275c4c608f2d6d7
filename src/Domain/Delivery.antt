-- ===== src/Domain/Delivery.antt =====
-- internal/domain/webhookdelivery.go, and the endpoint of internal/domain/portal.go.
use zia.Base.{ℕ, String, Option}
use zia.Base.Int.{ℤ}

pub data DeliveryStatus : Type 0 where
  pending delivered failed : DeliveryStatus

pub record WebhookEndpoint : Type 0 where
  pub id : String
  pub merchant_id : String
  pub url : String
  pub events : ℤ  -- int
  pub status : String
  pub created_at : ℕ

pub record WebhookDelivery : Type 0 where
  pub id : String
  pub webhook_event_id : Option String
  pub endpoint_id : String
  pub url : String
  pub status : DeliveryStatus
  pub request_headers : Option String
  pub request_body : String
  pub response_status : ℕ  -- int, a status code
  pub response_body : Option String
  pub duration_ms : ℕ  -- int
  pub attempt : ℕ  -- int
  pub max_attempts : ℕ  -- int
  pub next_retry_at : Option ℕ
  pub created_at : ℕ
  pub updated_at : ℕ
