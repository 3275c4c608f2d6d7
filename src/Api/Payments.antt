-- ===== src/Api/Payments.antt =====
-- internal/api/paymentintent.go, with internal/service/paymentintent.go: a request for a payment behind
-- the check of its key, and the reading of a payment. A body comes with its message id, which is the
-- idempotency key. A time is shown as it is kept.
use zia.Base.{ℕ, String, Option, none, some, nonempty}
use zia.Base.Int.{ℤ, pos, ltb_ℤ}
use zia.Domain.Intent.{PaymentIntent, status_text}
use zia.Domain.Message.{NextAction}
use zia.Effects.World.{Env}
use zia.Effects.Action.{Done}
use zia.Repository.Intents
use zia.Routing.Engine.{RoutingEngine}
use zia.Orchestrator.Create.{CreateRequest, CreateResult, create_payment_intent}
use zia.Api.Handler.{
  Handler, Reply, refused, invalid, ◌>>=◌, ◌>>◌, answer, attempt, need, require, bad_request,
  not_found,
}
use zia.Authn.{middleware}
pub mod Guarded

pub record PaymentRequest : Type 0 where
  pub amount : ℤ
  pub currency : String
  pub method : String
  pub customer_phone : String
  pub customer_email : String
  pub customer_ref : String

pub record PaymentView : Type 0 where
  pub id : String
  pub merchant_id : String
  pub amount : ℤ
  pub currency : String
  pub status : String
  pub method : String
  pub customer_phone : String
  pub customer_email : String
  pub customer_ref : String
  pub next_action : Option NextAction
  pub created_at : ℕ
  pub updated_at : ℕ

abbrev pub payment_view : PaymentIntent → Option NextAction → PaymentView
payment_view pi next_action = record {
  id = pi.id;
  merchant_id = pi.merchant_id;
  amount = pi.amount;
  currency = pi.currency;
  status = status_text pi.status;
  method = pi.method;
  customer_phone = pi.customer_phone;
  customer_email = pi.customer_email;
  customer_ref = pi.customer_ref;
  next_action = next_action;
  created_at = pi.created_at;
  updated_at = pi.updated_at;
}

abbrev pub order_of : String → String → PaymentRequest → CreateRequest
order_of merchant_id message_id req = record {
  merchant_id = merchant_id;
  amount = req.amount;
  currency = req.currency;
  method = req.method;
  customer_ref = req.customer_ref;
  customer_phone = req.customer_phone;
  customer_email = req.customer_email;
  idempotency_key = message_id;
  metadata = "";
}

module _ (env : Env) (routing : RoutingEngine) (encode : CreateRequest → String) where
  unfoldable pub create_order : CreateRequest → Handler PaymentView
  create_order order = do
    result ←
        attempt (create_payment_intent env routing encode order)
          (refused 422 "1005" "payment initiation failed")
    answer (payment_view result.payment_intent result.next_action)

  unfoldable pub create_checked : String → String → PaymentRequest → Handler PaymentView
  create_checked merchant_id message_id req = do
    require (ltb_ℤ (pos 0) req.amount) (invalid "primaryData.amountMinor" "must be greater than 0")
    require (nonempty req.currency) (invalid "primaryData.currency" "required")
    require (nonempty req.method) (invalid "primaryData.method" "required")
    require (nonempty merchant_id) (refused 401 "1002" "unauthorized")
    create_order (order_of merchant_id message_id req)

  unfoldable pub create_from : String → String × Option PaymentRequest → Handler PaymentView
  create_from merchant_id envelope =
      need envelope.1 (invalid "primaryData" "invalid payload")
      >>= create_checked merchant_id envelope.0

  unfoldable pub create_payment :
      Option (String × Option PaymentRequest) → String → Handler PaymentView
  create_payment body merchant_id =
      need body (invalid "body" "invalid JSON") >>= create_from merchant_id

  -- `POST` behind the middleware.
  unfoldable pub serve_create :
      (String → String) → String → Option (String × Option PaymentRequest) → Handler PaymentView
  serve_create sha256 header body = middleware env sha256 header >>= create_payment body

-- The merchant whose key was checked is not looked at.
unfoldable pub get_payment : Env → String → Handler PaymentView
get_payment env id = do
  require (nonempty id) (bad_request "missing payment intent id")
  pi ← attempt (Intents.get_by_id env id) (not_found "payment intent not found")
  answer (payment_view pi none)
