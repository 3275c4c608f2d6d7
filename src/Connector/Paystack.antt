-- ===== src/Connector/Paystack.antt =====
-- internal/connector/paystack/connector.go. The JSON encodings are parameters, and so is the server;
-- config.go has the configuration's fields again.
use zia.Base.{
  ℕ, String, Bool, true, not, ◌||◌, ◌<>◌, Option, none, some, [], ◌∷◌, if◌then◌else◌, str_eq,
}
use zia.Base.Int.{ℤ, pos, ◌/ℤ◌}
use zia.Base.Word.{mul64}
use zia.Base.Chars.{decimal}
use zia.Domain.Message.{
  Capabilities, CollectionRequest, CollectionResult, StatusResult, PayoutRequest, PayoutResult,
  WebhookEvent,
}
use zia.Domain.Refund.{RefundRequest, RefundResult}
use zia.Effects.Failure.{errorf, Result, ok, err}
use zia.Effects.World.{Connector}
use zia.Connector.Http.{HttpRequest, HttpReply, Server, send, parse, ◌>>=◌}
pub mod Amounts

pub record PaystackConfig : Type 0 where
  pub secret_key : String
  pub public_key : String
  pub webhook_key : String
  pub sandbox : Bool

abbrev pub capabilities : Capabilities
capabilities = record {
  supports_collection = true;
  supports_payout = true;
  supports_refund = true;
  supported_currencies = "NGN" ∷ "GHS" ∷ "ZAR" ∷ "USD" ∷ [];
  supported_countries = "NG" ∷ "GH" ∷ "ZA" ∷ [];
  confirmation_style = "webhook_poll";
}

-- `baseURL`: the same for the sandbox.
abbrev pub base_url : String
base_url = "https://api.paystack.co"

unfoldable pub cents_currency : String → Bool
cents_currency cur =
    not (str_eq cur "KES" || str_eq cur "UGX" || str_eq cur "TZS" || str_eq cur "RWF")

unfoldable pub to_paystack_amount : ℤ → String → ℤ
to_paystack_amount amount currency =
    if cents_currency currency then mul64 amount (pos 100) else amount

unfoldable pub from_paystack_amount : ℤ → String → ℤ
from_paystack_amount amount currency = if cents_currency currency then amount /ℤ 100 else amount

pub record InitBody : Type 0 where
  pub email : String
  pub amount : ℤ
  pub reference : String
  pub callback_url : String
  pub currency : String

pub record InitResponse : Type 0 where
  pub status : Bool
  pub message : String
  pub authorization_url : String
  pub access_code : String
  pub reference : String

pub record VerifyResponse : Type 0 where
  pub status : Bool
  pub message : String
  pub data_status : String
  pub amount : ℤ
  pub currency : String
  pub gateway_response : String

pub record RefundBody : Type 0 where
  pub transaction : String
  pub amount : ℤ

pub record RefundResponse : Type 0 where
  pub status : Bool
  pub message : String
  pub id : ℤ
  pub transaction_ref : String
  pub data_status : String

pub record TransferBody : Type 0 where
  pub source : String
  pub reason : String
  pub amount : ℤ
  pub recipient : String
  pub currency : String

pub record TransferResponse : Type 0 where
  pub status : Bool
  pub message : String
  pub reference : String
  pub amount : ℤ
  pub currency : String
  pub data_status : String
  pub transfer_code : String

-- The data of an event: `reference` is a charge's reference, a transfer's code or the reference of
-- a refund's transaction.
pub record EventData : Type 0 where
  pub reference : String
  pub amount : ℤ
  pub currency : String
  pub id : ℤ

pub record PaystackJson : Type 0 where
  pub init_body : InitBody → String
  pub init_response : String → Option InitResponse
  pub verify_response : String → Option VerifyResponse
  pub refund_body : RefundBody → String
  pub refund_response : String → Option RefundResponse
  pub transfer_body : TransferBody → String
  pub transfer_response : String → Option TransferResponse
  pub event : String → Option (String × String)  -- its name, and its data as they stand
  pub charge : String → Option EventData
  pub transfer : String → Option EventData
  pub refund : String → Option EventData

abbrev pub init_body : CollectionRequest → InitBody
init_body req = record {
  email = req.customer_email;
  amount = to_paystack_amount req.amount req.currency;
  reference = req.payment_intent_id;
  callback_url = req.callback_url;
  currency = req.currency;
}

-- What a verified transaction is reported as.
abbrev pub verified : VerifyResponse → StatusResult
verified resp = record {
  supported = true;
  status =
      if not resp.status || not (str_eq resp.data_status "success") then "failed" else "succeeded";
  amount = if cents_currency resp.currency then resp.amount /ℤ 100 else resp.amount;
  currency = resp.currency;
}

-- The event of a webhook that tells of a charge, a transfer or a refund.
abbrev pub event_with : String → String → String → EventData → WebhookEvent
event_with name status body d = record {
  psp = "paystack";
  event_type = name;
  psp_reference = d.reference;
  psp_transaction_id = "";
  dedup_key = name <> ":" <> decimal d.id;
  status = status;
  amount = from_paystack_amount d.amount d.currency;
  currency = d.currency;
  raw_payload = body;
}

-- The event of a webhook of any other name.
abbrev pub unknown_event : String → String → WebhookEvent
unknown_event name body = record {
  psp = "paystack";
  event_type = name;
  psp_reference = "";
  psp_transaction_id = "";
  dedup_key = "";
  status = "unknown";
  amount = pos 0;
  currency = "";
  raw_payload = body;
}

module _ (cfg : PaystackConfig) (json : PaystackJson) (server : Server) where
  -- The request with what `auth` sets.
  abbrev pub request : String → String → String → HttpRequest
  request method path body = record {
    method = method;
    url = base_url <> path;
    authorization = "Bearer " <> cfg.secret_key;
    body = body;
  }

  unfoldable pub initiate_collection : CollectionRequest → Result CollectionResult
  initiate_collection req = do
    let body = json.init_body (init_body req)
    reply ← send server "paystack init" (request "POST" "/transaction/initialize" body)
    resp ← parse json.init_response "parse paystack response" reply.body
    (if not resp.status
        then err (errorf "paystack init failed: %s" (resp.message ∷ []))
        else ok (record {
          psp_reference = resp.reference;
          status = "requires_action";
          next_action = some (record { type = "redirect"; url = resp.authorization_url });
          raw_request = body;
          raw_response = reply.body;
        }))

  unfoldable pub get_status : String → Result StatusResult
  get_status psp_reference = do
    reply ←
        send server "paystack verify" (request "GET" ("/transaction/verify/" <> psp_reference) "")
    resp ← parse json.verify_response "parse paystack verify" reply.body
    ok (verified resp)

  unfoldable pub refund : RefundRequest → Result RefundResult
  refund req = do
    let body = json.refund_body (record {
      transaction = req.psp_reference;
      amount = to_paystack_amount req.amount req.currency;
    })
    reply ← send server "paystack refund" (request "POST" "/refund" body)
    resp ← parse json.refund_response "parse paystack refund" reply.body
    (if not resp.status
        then err (errorf "paystack refund failed: %s" (resp.message ∷ []))
        else ok (record { psp_reference = "ref_" <> decimal resp.id; status = "accepted" }))

  unfoldable pub initiate_payout : PayoutRequest → Result PayoutResult
  initiate_payout req = do
    let body = json.transfer_body (record {
      source = "balance";
      reason = "merchant payout";
      amount = to_paystack_amount req.amount req.currency;
      recipient = req.bank_account_ref;
      currency = req.currency;
    })
    reply ← send server "paystack transfer" (request "POST" "/transfer" body)
    resp ← parse json.transfer_response "parse paystack transfer" reply.body
    (if not resp.status
        then err (errorf "paystack transfer failed: %s" (resp.message ∷ []))
        else ok (record {
          psp_reference = resp.transfer_code;
          status = if str_eq resp.data_status "success" then "succeeded" else "accepted";
        }))

module _ (json : PaystackJson) where
  abbrev parse_as :
      String → String → String → (String → Option EventData) → String → Result WebhookEvent
  parse_as name status body decode raw =
      parse decode ("parse " <> name <> " data") raw >>= λ d. ok (event_with name status body d)

  -- The cases of an event, by its name.
  unfoldable pub event_of : String → String × String → Result WebhookEvent
  event_of body (name, raw) =
      if str_eq name "charge.success"
      then parse_as name "succeeded" body json.charge raw
      else if str_eq name "transfer.success"
      then parse_as name "succeeded" body json.transfer raw
      else if str_eq name "transfer.failed"
      then parse_as name "failed" body json.transfer raw
      else if str_eq name "refund.success"
      then parse_as name "succeeded" body json.refund raw
      else ok (unknown_event name body)

  unfoldable pub parse_webhook : String → Result WebhookEvent
  parse_webhook body = parse json.event "parse paystack webhook" body >>= event_of body

-- The connector as the engines see it: which server answers each call.
abbrev pub paystack : PaystackConfig → PaystackJson → (ℕ → Server) → Connector
paystack cfg json server = record {
  capabilities = capabilities;
  initiate_collection = λ n req. initiate_collection cfg json (server n) req;
  get_status = λ n psp_reference. get_status cfg json (server n) psp_reference;
  initiate_payout = λ n req. initiate_payout cfg json (server n) req;
  parse_webhook = parse_webhook json;
}
