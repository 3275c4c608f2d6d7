-- ===== src/Tests/Fixtures.antt =====
-- An outside, a state and some messages for the tests.
use zia.Base.{String, true, false, none, [], ◌∷◌, ◌==◌}
use zia.Base.Int.{pos}
use zia.Domain.Intent.{PaymentIntent, requires_action}
use zia.Domain.Attempt.{Attempt, AttemptStatus}
use zia.Domain.Accounting.{Merchant, MerchantStatus}
use zia.Domain.Delivery.{WebhookEndpoint}
use zia.Domain.Message.{WebhookEvent}
use zia.Effects.Failure.{ok}
use zia.Effects.World.{World, Env, Connector, DelayedQuery, ApiState}
use zia.Routing.Breaker.{CircuitBreaker}
use zia.Routing.Engine.{RoutingEngine, Rule, RouteRequest}
use zia.Risk.Engine.{RiskEngine}
use zia.Orchestrator.Outcome.{EngineConfig}
use zia.Orchestrator.Create.{CreateRequest}

abbrev pub paid : WebhookEvent
paid = record {
  psp = "mpesa";
  event_type = "stk_callback";
  psp_reference = "ws_1";
  psp_transaction_id = "QK1";
  dedup_key = "ws_1";
  status = "succeeded";
  amount = pos 1000;
  currency = "KES";
  raw_payload = "{}";
}

abbrev pub mpesa : Connector
mpesa = record {
  capabilities = record {
    supports_collection = true;
    supports_payout = true;
    supports_refund = false;
    supported_currencies = "KES" ∷ [];
    supported_countries = "KE" ∷ [];
    confirmation_style = "async_push";
  };
  initiate_collection = λ _ _. ok (record {
    psp_reference = "ws_2";
    status = "pending";
    next_action = none;
    raw_request = "";
    raw_response = "";
  });
  get_status = λ _ _.
      ok (record { supported = true; status = "succeeded"; amount = pos 1000; currency = "KES" });
  initiate_payout = λ _ _. ok (record { psp_reference = "b2c_1"; status = "succeeded" });
  parse_webhook = λ body. ok (record paid { raw_payload = body });
}

-- Nothing fails, and time passes with each call.
abbrev pub calm : Env
calm = record {
  fails = λ _. false;
  now = λ n. n;
  uuid = λ _. "new";
  registry = ("mpesa", mpesa) ∷ [];
}

-- The fifth call fails.
abbrev pub rough : Env
rough = record calm { fails = λ n. n == 4 }

abbrev pub waiting : PaymentIntent
waiting = record {
  id = "pi_1";
  merchant_id = "m_1";
  amount = pos 1000;
  currency = "KES";
  status = requires_action;
  method = "mpesa_stk";
  customer_ref = "";
  customer_phone = "254700000000";
  customer_email = "";
  idempotency_key = "order_1";
  metadata = "";
  expires_at = none;
  created_at = 0;
  updated_at = 0;
}

abbrev pub pushed : Attempt
pushed = record {
  id = "at_1";
  payment_intent_id = "pi_1";
  psp = "mpesa";
  psp_reference = "ws_1";
  psp_transaction_id = "";
  status = AttemptStatus.requires_action;
  sequence_no = pos 1;
  raw_request = "";
  raw_response = "";
  request_payload = "";
  callback_payload = "";
  created_at = 0;
  updated_at = 0;
}

abbrev pub merchant : Merchant
merchant = record {
  id = "m_1";
  code = "M1";
  legal_name = "First";
  country = "KE";
  default_currency = "KES";
  status = MerchantStatus.active;
  settlement_config = "";
  created_at = 0;
}

abbrev pub risk : RiskEngine
risk = record {
  velocities = [];
  max_attempts = pos 2;
  window = pos 100;
  max_amount = pos 100_000_000;
}

abbrev pub breaker : CircuitBreaker
breaker = record { states = []; thresholds = [] }

abbrev pub endpoint : WebhookEndpoint
endpoint = record {
  id = "ep_1";
  merchant_id = "m_1";
  url = "https://shop.example/hook";
  events = pos 1;
  status = "active";
  created_at = 0;
}

abbrev pub no_accounts : ApiState
no_accounts = record {
  users = [];
  sessions = [];
  customers = [];
  members = [];
  invitations = [];
  api_keys = [];
  checkouts = [];
  notifications = [];
  webhook_rows = [];
  webhook_stream = [];
  otps = [];
}

abbrev pub open_books : World
open_books = record {
  intents = waiting ∷ [];
  attempts = pushed ∷ [];
  entries = [];
  merchants = merchant ∷ [];
  payouts = [];
  endpoints = endpoint ∷ record endpoint { id = "ep_2"; status = "paused" } ∷ [];
  deliveries = [];
  redis = ("idempotency:m_1:order_1", record { value = "pi_1"; expires_at = 1_000_000 }) ∷ [];
  published = [];
  timers = [];
  breaker = breaker;
  risk = risk;
  api = no_accounts;
  calls = 0;
}

abbrev pub five_percent : EngineConfig
five_percent = record { percent = pos 5; min_amount = pos 1; notifies = true }

abbrev pub rule : Rule
rule = record {
  priority = pos 1;
  conditions = record { currency = "KES"; method = "mpesa_stk"; country = ""; merchant = "" };
  primary_psp = "mpesa";
  fallbacks = "paystack" ∷ [];
  enabled = true;
}

abbrev pub routing : RoutingEngine
routing = record { rules = rule ∷ []; excluded = [] }

abbrev pub order : CreateRequest
order = record {
  merchant_id = "m_1";
  amount = pos 1000;
  currency = "KES";
  method = "mpesa_stk";
  customer_ref = "";
  customer_phone = "254700000000";
  customer_email = "";
  idempotency_key = "order_1";
  metadata = "";
}

abbrev pub encode : CreateRequest → String
encode req = req.merchant_id

abbrev pub query : DelayedQuery
query = record { pi_id = "pi_1"; attempt_id = "at_1"; psp = "mpesa" }

abbrev pub journey : RouteRequest
journey = record {
  merchant_id = "m_1";
  currency = "KES";
  country = "";
  method = "mpesa_stk";
  amount = pos 1000;
}
