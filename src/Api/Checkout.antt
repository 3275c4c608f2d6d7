-- ===== src/Api/Checkout.antt =====
-- internal/api/checkout.go, with the statements of internal/repository/checkout.go: a payment behind a
-- token that a page may show. The JSON of the page's settings is a parameter.
use zia.Base.{
  ℕ, ◌+◌, String, ◌<>◌, Option, none, some, List, [], ◌∷◌, ◌++◌, any, find, str_eq, nonempty,
  if◌then◌else◌,
}
use zia.Base.Int.{ℤ, pos, ltb_ℤ}
use zia.Domain.Intent.{PaymentIntentStatus}
use zia.Domain.Message.{NextAction}
use zia.Domain.Portal.{CheckoutSession}
use zia.Effects.Failure.{external, err}
use zia.Effects.World.{Env, tick}
use zia.Effects.Action.{Action, Done, exec, query, found}
use zia.Repository.Intents
use zia.Routing.Engine.{RoutingEngine}
use zia.Orchestrator.Create.{CreateRequest, CreateResult, create_payment_intent}
use zia.Api.Handler.{
  Handler, Reply, refused, invalid, ◌>>=◌, ◌>>◌, answer, attempt, need, require, now, uuid,
}
pub mod Polled

-- The unique index on the token refuses a second row.
unfoldable pub insert_session : Env → CheckoutSession → Action Done
insert_session env s w =
    if any (λ x. str_eq x.public_token s.public_token) w.api.checkouts
    then (err external, tick w)
    else exec env (λ v. record v { api = record v.api { checkouts = v.api.checkouts ++ s ∷ [] } }) w

unfoldable pub session_of_token : Env → String → Action CheckoutSession
session_of_token env token =
    query env λ w. found (find (λ s. str_eq s.public_token token) w.api.checkouts)

pub record CheckoutRequest : Type 0 where
  pub amount : ℤ
  pub currency : String
  pub method : String
  pub customer_email : String
  pub customer_phone : String
  pub callback_url : String

pub record CheckoutView : Type 0 where
  pub token : String
  pub payment_intent_id : String
  pub expires_at : ℕ
  pub status : PaymentIntentStatus
  pub next_action : Option NextAction

pub record CheckoutStatus : Type 0 where
  pub token : String
  pub payment_intent_id : String
  pub status : PaymentIntentStatus
  pub amount : ℤ
  pub currency : String

-- `buildPIRequest`
abbrev pub build_request : String → String → CheckoutRequest → CreateRequest
build_request merchant_id idempotency_key req = record {
  merchant_id = merchant_id;
  amount = req.amount;
  currency = req.currency;
  method = if nonempty req.method then req.method else "mpesa_stk";
  customer_ref = "";
  customer_phone = req.customer_phone;
  customer_email = req.customer_email;
  idempotency_key = idempotency_key;
  metadata = "";
}

-- `30 * time.Minute`
abbrev pub checkout_lifetime : ℕ
checkout_lifetime = 1_800_000_000_000

module _ (env : Env) (routing : RoutingEngine) (encode : CreateRequest → String)
    (ui_config : ℤ → String → String) where
  abbrev pub session_for : CheckoutRequest → CreateResult → ℕ → String → String → CheckoutSession
  session_for req result now token id = record {
    id = id;
    payment_intent_id = result.payment_intent.id;
    public_token = token;
    ui_config = ui_config req.amount req.currency;
    expires_at = now + checkout_lifetime;
    created_at = now;
  }

  abbrev pub checkout_view : CheckoutSession → CreateResult → CheckoutView
  checkout_view s result = record {
    token = s.public_token;
    payment_intent_id = result.payment_intent.id;
    expires_at = s.expires_at;
    status = result.payment_intent.status;
    next_action = result.next_action;
  }

  unfoldable pub open_checkout : CheckoutRequest → CreateResult → Handler CheckoutView
  open_checkout req result = do
    created ← now env
    token ← uuid env
    id ← uuid env
    let s = session_for req result created ("cs_" <> token) id
    attempt (insert_session env s) (refused 500 "500" "failed to create checkout session")
    answer (checkout_view s result)

  unfoldable pub pay_at_checkout : String → String → CheckoutRequest → Handler CheckoutView
  pay_at_checkout merchant_id message_id req = do
    result ←
        attempt
          (create_payment_intent env routing encode (build_request merchant_id message_id req))
          (refused 500 "500" "failed to create payment")
    open_checkout req result

  unfoldable pub checkout_with : String → String → CheckoutRequest → Handler CheckoutView
  checkout_with merchant_id message_id req = do
    require (ltb_ℤ (pos 0) req.amount) (invalid "amountMinor" "must be positive")
    require (nonempty req.currency) (invalid "currency" "required")
    pay_at_checkout merchant_id message_id req

  unfoldable pub create_checkout :
      String → Option (String × Option CheckoutRequest) → Handler CheckoutView
  create_checkout merchant_id body = do
    envelope ← need body (invalid "body" "invalid JSON")
    req ← need envelope.1 (invalid "primaryData" "invalid payload")
    checkout_with merchant_id envelope.0 req

-- When the session expires is not looked at.
unfoldable pub show_status : Env → String → CheckoutSession → Handler CheckoutStatus
show_status env token s = do
  pi ← attempt (Intents.get_by_id env s.payment_intent_id) (refused 404 "404" "payment not found")
  answer (record {
    token = token;
    payment_intent_id = pi.id;
    status = pi.status;
    amount = pi.amount;
    currency = pi.currency;
  })

unfoldable pub checkout_status : Env → String → Handler CheckoutStatus
checkout_status env token =
    attempt (session_of_token env token) (refused 404 "404" "checkout session not found")
    >>= show_status env token
