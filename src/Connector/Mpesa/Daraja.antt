-- ===== src/Connector/Mpesa/Daraja.antt =====
-- internal/connector/mpesa/connector.go. The encodings (JSON, base64 and the format of a time) are
-- parameters, and so are the servers.
use zia.Base.{
  ℕ, String, true, not, ◌<>◌, Option, List, none, some, [], ◌∷◌, if◌then◌else◌, str_eq, nonempty,
  leb, ◌==◌,
}
use zia.Base.Int.{ℤ, pos, eqb_ℤ}
use zia.Base.Chars.{atoi, decimal, text_take, text_length}
use zia.Domain.Message.{
  Capabilities, CollectionRequest, CollectionResult, StatusResult, PayoutRequest, PayoutResult,
  WebhookEvent,
}
use zia.Domain.Refund.{RefundRequest, RefundResult}
use zia.Effects.Failure.{errorf, wrapf, Result, ok, err}
use zia.Connector.Http.{HttpRequest, Server, send, parse, ◌>>=◌}
use zia.Effects.World.{Connector}
use zia.Connector.Mpesa.Token.{MpesaConfig, base_url, TokenManager, TokenCodec, token}

abbrev pub capabilities : Capabilities
capabilities = record {
  supports_collection = true;
  supports_payout = true;
  supports_refund = true;
  supported_currencies = "KES" ∷ [];
  supported_countries = "KE" ∷ [];
  confirmation_style = "webhook_only";
}

pub record StkPushRequest : Type 0 where
  pub business_short_code : String
  pub password : String
  pub timestamp : String
  pub transaction_type : String
  pub amount : ℤ
  pub party_a : String
  pub party_b : String
  pub phone_number : String
  pub callback_url : String
  pub account_reference : String
  pub transaction_desc : String

pub record StkPushResponse : Type 0 where
  pub merchant_request_id : String
  pub checkout_request_id : String
  pub response_code : String
  pub response_description : String
  pub customer_message : String

pub record QueryRequest : Type 0 where
  pub business_short_code : String
  pub password : String
  pub timestamp : String
  pub checkout_request_id : String

-- A JSON value in an `interface{}`. A number is a float64: it is given by the int64 that it converts
-- to, and by the text that `FormatFloat` makes of it.
pub data Value : Type 0 where
  null : Value
  text : String → Value
  number : ℤ → String → Value
  other : String → Value  -- a Boolean, a list or an object, as `Sprint` prints it

pub record Item : Type 0 where
  pub name : String
  pub value : Value

-- A text that is absent is empty.
pub record QueryResponse : Type 0 where
  pub response_code : String
  pub result_code : String
  pub result_desc : String
  pub items : Option (List Item)  -- CallbackMetadata

pub record B2cRequest : Type 0 where
  pub initiator_name : String
  pub security_credential : String
  pub command_id : String
  pub amount : ℤ
  pub party_a : String
  pub party_b : String
  pub remarks : String
  pub occasion : String

pub record B2cResponse : Type 0 where
  pub conversation_id : String
  pub originator_conversation_id : String
  pub response_code : String

pub record StkCallback : Type 0 where
  pub merchant_request_id : String
  pub checkout_request_id : String
  pub result_code : ℤ
  pub result_desc : String
  pub items : Option (List Item)  -- CallbackMetadata

pub record DarajaCodec : Type 0 where
  pub token_codec : TokenCodec
  pub format_time : ℕ → String  -- "20060102150405"
  pub stk_request : StkPushRequest → String
  pub stk_response : String → Option StkPushResponse
  pub query_request : QueryRequest → String
  pub query_response : String → Option QueryResponse
  pub b2c_request : B2cRequest → String
  pub b2c_response : String → Option B2cResponse
  pub callback : String → Option StkCallback

-- `truncate`, on the texts of one-byte characters that ids are.
unfoldable pub truncate : String → ℕ → String
truncate s max_len = if leb (text_length s) max_len then s else text_take max_len s

unfoldable pub value_to_string : Value → String
value_to_string null = ""
value_to_string (text s) = s
value_to_string (number n printed) = printed
value_to_string (other printed) = printed

unfoldable pub value_to_int64 : Value → ℤ
value_to_int64 null = pos 0
value_to_int64 (text s) = (atoi s).0
value_to_int64 (number n printed) = n
value_to_int64 (other printed) = pos 0

-- The value that the last item of a name has.
unfoldable pub last_of : {A : Type 0} → String → (Value → A) → A → List Item → A
last_of name read found [] = found
last_of name read found (item ∷ items) =
    last_of name read (if str_eq item.name name then read item.value else found) items

abbrev pub items_of : Option (List Item) → List Item
items_of none = []
items_of (some items) = items

abbrev pub amount_of : Option (List Item) → ℤ
amount_of meta = last_of "Amount" value_to_int64 (pos 0) (items_of meta)

abbrev pub receipt_of : Option (List Item) → String
receipt_of meta = last_of "MpesaReceiptNumber" value_to_string "" (items_of meta)

-- The result codes: the cases that the source lists besides success all say "failed".
unfoldable pub status_of_text : String → String
status_of_text code =
    if str_eq code "0"
    then "succeeded"
    else if str_eq code "1032"
    then "failed"
    else if str_eq code "1037"
    then "failed"
    else if str_eq code "2001"
    then "failed"
    else "failed"

unfoldable pub status_of_code : ℤ → String
status_of_code code =
    if eqb_ℤ code (pos 0)
    then "succeeded"
    else if eqb_ℤ code (pos 1032)
    then "failed"
    else if eqb_ℤ code (pos 1037)
    then "failed"
    else if eqb_ℤ code (pos 2001)
    then "failed"
    else "failed"

-- When one call of a method reads the clock, and the servers that answer it.
pub record Moment : Type 0 where
  pub asked_at : ℕ
  pub fetched_at : ℕ
  pub requested_at : ℕ
  pub auth : Server
  pub api : Server

module _ (cfg : MpesaConfig) (codec : DarajaCodec) (at : Moment) where
  abbrev pub stk_password : String → String
  stk_password timestamp = codec.token_codec.base64 (cfg.short_code <> cfg.pass_key <> timestamp)

  abbrev pub request : String → String → String → HttpRequest
  request tok path body = record {
    method = "POST";
    url = base_url cfg <> path;
    authorization = "Bearer " <> tok;
    body = body;
  }

  -- What a method does with the token; an error of the token's is the method's.
  abbrev pub with_token :
      {A : Type 0} → (String → Result A) → TokenManager → Result A × TokenManager
  with_token use_token t =
      let (r, t') = token cfg codec.token_codec at.auth at.asked_at at.fetched_at t in
      (elim r [ ok tok ↦ use_token tok | err e ↦ err (wrapf "auth" e) ], t')

  abbrev pub stk_request : CollectionRequest → StkPushRequest
  stk_request req =
      let timestamp = codec.format_time at.requested_at in
      record {
        business_short_code = cfg.short_code;
        password = stk_password timestamp;
        timestamp = timestamp;
        transaction_type = "CustomerPayBillOnline";
        amount = req.amount;
        party_a = req.customer_phone;
        party_b = cfg.short_code;
        phone_number = req.customer_phone;
        callback_url =
            if nonempty req.callback_url
            then req.callback_url
            else cfg.callback_base <> "/v1/webhooks/mpesa";
        account_reference = truncate req.payment_intent_id 12;
        transaction_desc = "Payment";
      }

  unfoldable pub push : CollectionRequest → String → Result CollectionResult
  push req tok = do
    let body = stk_request req
    resp ←
        send at.api "stk push request"
          (request tok "/mpesa/stkpush/v1/processrequest" (codec.stk_request body))
    (if not (resp.status_code == 200)
        then err (
            errorf "stk push failed: status=%d body=%s"
              (decimal (pos resp.status_code) ∷ resp.body ∷ []))
        else (do
          stk ← parse codec.stk_response "parse stk response" resp.body
          (if not (str_eq stk.response_code "0")
              then err (
                  errorf "stk push rejected: code=%s desc=%s"
                    (stk.response_code ∷ stk.response_description ∷ []))
              else ok (record {
                psp_reference = stk.checkout_request_id;
                status = "requires_action";
                next_action = none;
                raw_request = codec.stk_request (record body { password = "****" });
                raw_response = resp.body;
              }))))

  abbrev pub initiate_collection :
      CollectionRequest → TokenManager → Result CollectionResult × TokenManager
  initiate_collection req = with_token (push req)

  -- The status code of the reply is not looked at.
  unfoldable pub ask : String → String → Result StatusResult
  ask psp_reference tok = do
    let timestamp = codec.format_time at.requested_at
    let body = codec.query_request (record {
      business_short_code = cfg.short_code;
      password = stk_password timestamp;
      timestamp = timestamp;
      checkout_request_id = psp_reference;
    })
    resp ← send at.api "query request" (request tok "/mpesa/stkpushquery/v1/query" body)
    result ← parse codec.query_response "parse query response" resp.body
    ok (record {
      supported = true;
      status = status_of_text result.result_code;
      amount = amount_of result.items;
      currency = "";
    })

  abbrev pub get_status : String → TokenManager → Result StatusResult × TokenManager
  get_status psp_reference = with_token (ask psp_reference)

  unfoldable pub pay_back : RefundRequest → String → Result RefundResult
  pay_back req tok = do
    let body = codec.b2c_request (record {
      initiator_name = cfg.b2c_initiator_name;
      security_credential = cfg.b2c_security_cred;
      command_id = "BusinessPayment";
      amount = req.amount;
      party_a = cfg.short_code;
      party_b = req.psp_reference;
      remarks = "Refund";
      occasion = truncate req.payment_intent_id 12;
    })
    resp ← send at.api "b2c request" (request tok "/mpesa/b2c/v3/paymentrequest" body)
    (if not (resp.status_code == 200)
        then err (
            errorf "b2c failed: status=%d body=%s"
              (decimal (pos resp.status_code) ∷ resp.body ∷ []))
        else (do
          b2c ← parse codec.b2c_response "parse b2c response" resp.body
          (if not (str_eq b2c.response_code "0")
              then err (errorf "b2c rejected: code=%s" (b2c.response_code ∷ []))
              else ok
                  (record { psp_reference = b2c.originator_conversation_id; status = "pending" }))))

  abbrev pub refund : RefundRequest → TokenManager → Result RefundResult × TokenManager
  refund req = with_token (pay_back req)

abbrev pub initiate_payout : PayoutRequest → Result PayoutResult
initiate_payout req = err (errorf "mpesa: payout not supported via collection connector" [])

unfoldable pub parse_webhook : DarajaCodec → String → Result WebhookEvent
parse_webhook codec body = parse codec.callback "parse mpesa callback" body >>= λ sc. ok (record {
  psp = "mpesa";
  event_type = "stk_callback";
  psp_reference = sc.checkout_request_id;
  psp_transaction_id = receipt_of sc.items;
  dedup_key = sc.merchant_request_id <> ":" <> sc.checkout_request_id;
  status = status_of_code sc.result_code;
  amount = amount_of sc.items;
  currency = "KES";
  raw_payload = body;
})

-- The connector as the engines see it: when each call is made, and the token that is kept then.
abbrev pub daraja : MpesaConfig → DarajaCodec → (ℕ → Moment) → (ℕ → TokenManager) → Connector
daraja cfg codec at kept = record {
  capabilities = capabilities;
  initiate_collection = λ n req. (initiate_collection cfg codec (at n) req (kept n)).0;
  get_status = λ n psp_reference. (get_status cfg codec (at n) psp_reference (kept n)).0;
  initiate_payout = λ n req. initiate_payout req;
  parse_webhook = parse_webhook codec;
}
