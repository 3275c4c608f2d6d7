-- ===== src/Effects/World.antt =====
-- The state that the program's methods read and write, and the outside that answers them.
use zia.Base.{ℕ, suc, String, Bool, List}
use zia.Base.Dict.{Dict}
use zia.Domain.Intent.{PaymentIntent}
use zia.Domain.Attempt.{Attempt}
use zia.Domain.Accounting.{LedgerEntry, Merchant, Payout}
use zia.Domain.Delivery.{WebhookEndpoint, WebhookDelivery}
use zia.Domain.Message.{
  Capabilities, CollectionRequest, CollectionResult, StatusResult, PayoutRequest, PayoutResult,
  NotificationEvent, WebhookEvent,
}
use zia.Domain.Portal.{
  Notification, User, Session, Customer, TeamMember, TeamInvitation, ApiKey, CheckoutSession,
  WebhookRow, Notification,
}
use zia.Portal.Otp.{OtpStore}
use zia.Effects.Failure.{Result}
use zia.Routing.Breaker.{CircuitBreaker}
use zia.Risk.Engine.{RiskEngine}

-- A query that `time.AfterFunc` has been asked to make later.
pub record DelayedQuery : Type 0 where
  pub pi_id : String
  pub attempt_id : String
  pub psp : String

-- A value in Redis, and the time from which it is gone.
pub record RedisEntry : Type 0 where
  pub value : String
  pub expires_at : ℕ

-- What the handlers of the API keep besides: their tables, the codes that wait for a phone, and the
-- webhooks on the stream `zia.webhook.received`, the latest first.
pub record ApiState : Type 0 where
  pub users : List User
  pub sessions : List Session
  pub customers : List Customer
  pub members : List TeamMember
  pub invitations : List TeamInvitation
  pub api_keys : List ApiKey
  pub checkouts : List CheckoutSession
  pub notifications : List Notification
  pub webhook_rows : List WebhookRow
  pub webhook_stream : List WebhookEvent
  pub otps : OtpStore

-- The tables of the database, the keys in Redis, the messages published to NATS, the timers that
-- are set, and the variables that the engines keep in memory. `calls` numbers the calls to the
-- outside.
pub record World : Type 0 where
  pub intents : List PaymentIntent
  pub attempts : List Attempt
  pub entries : List LedgerEntry
  pub merchants : List Merchant
  pub payouts : List Payout
  pub endpoints : List WebhookEndpoint
  pub deliveries : List WebhookDelivery
  pub redis : Dict RedisEntry
  pub published : List NotificationEvent
  pub timers : List DelayedQuery
  pub breaker : CircuitBreaker
  pub risk : RiskEngine
  pub api : ApiState
  pub calls : ℕ

-- internal/connector/connector.go: a provider, whose answers depend on when it is called.
pub record Connector : Type 0 where
  pub capabilities : Capabilities
  pub initiate_collection : ℕ → CollectionRequest → Result CollectionResult
  pub get_status : ℕ → String → Result StatusResult
  pub initiate_payout : ℕ → PayoutRequest → Result PayoutResult
  pub parse_webhook : String → Result WebhookEvent

-- The outside: whether the n-th call to the database, Redis or NATS fails, the clock and the UUID
-- generator at the n-th call, and the connectors that are registered, in the order in which the
-- registry's map is walked.
pub record Env : Type 0 where
  pub fails : ℕ → Bool
  pub now : ℕ → ℕ
  pub uuid : ℕ → String
  pub registry : Dict Connector

abbrev pub tick : World → World
tick w = record w { calls = suc w.calls }
