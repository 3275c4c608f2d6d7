-- ===== src/Tests/Providers.antt =====
-- The providers' connectors at concrete inputs.
use zia.Base.{
  ℕ, suc, String, true, false, ◌≡◌, ◌⊎◌, ◌<◌, ◌+◌, refl, inl, inr, Option, none, some, [], ◌∷◌,
  arith, List, find,
}
use zia.Base.Int.{ℤ, pos}
use zia.Domain.Intent.{PaymentIntentStatus}
use zia.Domain.Message.{CollectionRequest}
use zia.Domain.Attempt.{Attempt, AttemptStatus}
use zia.Effects.Failure.{ok}
use zia.Effects.World.{Env}
use zia.Repository.Intents.{has_id, with_status}
use zia.Orchestrator.Query.{run_delayed_query}
use zia.Orchestrator.Webhook.{handle_webhook_event}
use zia.Connector.Http.{Server}
use zia.Connector.Paystack
use zia.Connector.Paystack.Amounts.{reported-asked}
use zia.Connector.Mpesa.Token.{MpesaConfig, TokenManager, TokenCodec, fetch_token, margin}
use zia.Connector.Mpesa.Daraja.{DarajaCodec, Moment, daraja}
use zia.Connector.Mpesa.Freshness.{Call, ask, kept, Among, Gave, token-Fresh}
use zia.Connector.Mpesa.Unfinished.{unfinished-failed}
use zia.Tests.Fixtures.{calm, five_percent, paid, waiting, pushed, open_books, query}

-- Every request is answered by the same body.
abbrev answering : String → Server
answering body req = some (record { status_code = 200; body = body })

abbrev shop : CollectionRequest
shop = record {
  payment_intent_id = "pi_9";
  amount = pos 250;
  currency = "NGN";
  method = "card";
  customer_phone = "";
  customer_email = "a@example.com";
  callback_url = "";
  idempotency_key = "k";
}

abbrev keys : Paystack.PaystackConfig
keys = record { secret_key = "sk"; public_key = "pk"; webhook_key = "wk"; sandbox = true }

abbrev verification : Paystack.VerifyResponse
verification = record {
  status = true;
  message = "";
  data_status = "success";
  amount = pos 25_000;
  currency = "NGN";
  gateway_response = "";
}

abbrev charged : Paystack.EventData
charged = record { reference = "pi_9"; amount = pos 25_000; currency = "NGN"; id = pos 7 }

abbrev paystack_json : Paystack.PaystackJson
paystack_json = record {
  init_body = λ b. b.reference;
  init_response = λ _. none;
  verify_response = λ _. some verification;
  refund_body = λ b. b.transaction;
  refund_response = λ _. none;
  transfer_body = λ b. b.recipient;
  transfer_response = λ _. none;
  event = λ body. some ("charge.success", body);
  charge = λ _. some charged;
  transfer = λ _. none;
  refund = λ _. none;
}

reported-asked_example :
    (Paystack.get_status keys paystack_json (answering "{}") "pi_9"
      ≡ ok (record { supported = true; status = "succeeded"; amount = pos 250; currency = "NGN" }))
    × (Paystack.parse_webhook paystack_json "{}"
        ≡ ok (record (Paystack.event_with "charge.success" "succeeded" "{}" charged) {
          amount = pos 250;
        }))
unfolding Paystack.to_paystack_amount Paystack.cents_currency zia.Base.Int.◌*ℤ◌ zia.Base.Word.i64
reported-asked_example =
    reported-asked keys paystack_json (answering "{}") shop (omega arith, omega arith) "pi_9" "{}"
      "{}" (record { status_code = 200; body = "{}" }) verification charged refl refl refl refl refl
      refl refl refl refl refl

abbrev till : MpesaConfig
till = record {
  consumer_key = "ck";
  consumer_secret = "cs";
  short_code = "174379";
  pass_key = "p";
  callback_base = "https://zia.example";
  sandbox = true;
  b2c_initiator_name = "zia";
  b2c_security_cred = "s";
  allowed_ips = [];
}

abbrev tokens : TokenCodec
tokens = record {
  base64 = λ s. s;
  token_response = λ body. some (record { access_token = body; expires_in = "3600" });
}

-- A token that was fetched at the start of the hour, and is asked for half an hour later.
abbrev first : Call
first = record { asked_at = 1; fetched_at = 1; server = answering "tok_1" }

abbrev second : Call
second = record {
  asked_at = 1_800_000_000_000;
  fetched_at = 1_800_000_000_001;
  server = answering "tok_2";
}

token-Fresh_example :
    ((n : ℤ) × (fetch_token till tokens second.server ≡ ok ("tok_1", n)))
    ⊎ ((expires : ℕ) × (second.asked_at + margin < expires)
        × Among (Gave till tokens "tok_1" expires) (first ∷ []))
unfolding zia.Connector.Mpesa.Freshness.kept zia.Connector.Mpesa.Token.token fetch_token
    zia.Base.Word.i64 zia.Base.Int.◌*ℤ◌ zia.Connector.Mpesa.Token.expiry_of zia.Base.Chars.atoi
token-Fresh_example = token-Fresh till tokens (first ∷ []) second "tok_1" refl

-- Daraja has no result yet.
abbrev daraja_codec : DarajaCodec
daraja_codec = record {
  token_codec = tokens;
  format_time = λ _. "20260101000000";
  stk_request = λ r. r.account_reference;
  stk_response = λ _. none;
  query_request = λ r. r.checkout_request_id;
  query_response =
      λ _. some (record { response_code = ""; result_code = ""; result_desc = ""; items = none });
  b2c_request = λ r. r.occasion;
  b2c_response = λ _. none;
  callback = λ _. none;
}

abbrev minute : ℕ → Moment
minute n = record {
  asked_at = n;
  fetched_at = n;
  requested_at = n;
  auth = answering "tok_1";
  api = answering "{}";
}

abbrev holding : ℕ → TokenManager
holding n = record { token = "tok_0"; expires_at = 1_000_000_000_000 }

abbrev with_daraja : Env
with_daraja = record calm { registry = ("mpesa", daraja till daraja_codec minute holding) ∷ [] }

-- The attempt after the query.
abbrev given_up : Attempt
given_up = record pushed { status = AttemptStatus.failed; updated_at = 3 }

unfinished-failed_example :
    let w' = (run_delayed_query with_daraja five_percent query open_books).1 in
    let later = (handle_webhook_event with_daraja five_percent paid w').1 in
    (◌≡◌
      (find (has_id "pi_1") w'.intents)
      (some (with_status PaymentIntentStatus.failed 4 waiting)))
    × (w'.entries ≡ open_books.entries)
    × (later.intents ≡ w'.intents)
    × (later.entries ≡ open_books.entries)
unfolding zia.Base.Dict.lookup zia.Connector.Mpesa.Token.token run_delayed_query
    zia.Orchestrator.Query.ask_provider zia.Repository.Attempts.get_by_id
    zia.Repository.Intents.get_by_id zia.Effects.Action.query
    zia.Orchestrator.Query.apply_query_result zia.Orchestrator.Query.settle_query
    zia.Orchestrator.Outcome.outcome_of zia.Orchestrator.State.is_valid_transition
    zia.Domain.Intent.status_eq mathlib.Core.Bool.decide zia.Repository.Attempts.update_status
    zia.Repository.Attempts.update zia.Repository.Attempts.set_where zia.Effects.Action.exec
    zia.Repository.Intents.update_status_safe zia.Orchestrator.Outcome.post_if_succeeded
    zia.Orchestrator.Outcome.notify zia.Effects.Action.clock zia.Orchestrator.Outcome.publish
    zia.Connector.Mpesa.Daraja.ask zia.Connector.Mpesa.Daraja.status_of_text
    zia.Connector.Mpesa.Daraja.last_of
unfinished-failed_example =
    unfinished-failed with_daraja five_percent (λ _. refl) till daraja_codec minute holding refl
      "pi_1" "at_1" "tok_0" waiting pushed given_up open_books
      (record { status_code = 200; body = "{}" })
      (record { response_code = ""; result_code = ""; result_desc = ""; items = none }) paid refl
      refl refl refl refl refl (λ h. cc) refl refl
