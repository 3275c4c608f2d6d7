-- ===== src/Orchestrator/Create.antt =====
-- internal/orchestrator/engine.go, `CreatePaymentIntent`. The encoding of the request that is kept
-- with an attempt (`json.Marshal`) is a parameter.
use zia.Base.{
  ℕ, suc, ◌+◌, String, ◌&&◌, Option, none, some, List, [], ◌∷◌, if◌then◌else◌, str_eq, nonempty,
  length,
}
use zia.Base.Int.{ℤ, pos}
use zia.Base.Dict.{Dict, lookup}
use zia.Domain.Intent.{
  PaymentIntent, PaymentIntentStatus, created, requires_action, failed, status_eq, status_text,
}
use zia.Domain.Attempt.{Attempt, AttemptStatus}
use zia.Domain.Message.{CollectionRequest, CollectionResult, NextAction}
use zia.Effects.Failure.{errorf, ok, err}
use zia.Effects.World.{Env, Connector, tick}
use zia.Effects.Action.{Action, Done, pure, raise, ◌>>=◌, ◌>>◌, wrapped, logged, clock, new_uuid}
use zia.Repository.Attempts
use zia.Repository.Intents
use zia.Risk.Engine.{RiskRequest, evaluate}
use zia.Routing.Engine.{RouteRequest, RouteDecision, Rule, RoutingEngine, route}
use zia.Idempotency.{check, store}
use zia.Orchestrator.State.{is_valid_transition}
use zia.Orchestrator.Query.{schedule_delayed_query}

pub record CreateRequest : Type 0 where
  pub merchant_id : String
  pub amount : ℤ
  pub currency : String
  pub method : String
  pub customer_ref : String
  pub customer_phone : String
  pub customer_email : String
  pub idempotency_key : String
  pub metadata : String

pub record CreateResult : Type 0 where
  pub payment_intent : PaymentIntent
  pub next_action : Option NextAction

-- The connector of the decision, or of the first of its fallbacks that is registered.
unfoldable pub first_registered : Dict Connector → List String → Option (String × Connector)
first_registered registry [] = none
first_registered registry (name ∷ names) =
    let later = first_registered registry names in
    elim (lookup name registry) [ some conn ↦ some (name, conn) | none ↦ later ]

-- How many clock readings a routing decision may take.
abbrev pub readings : List Rule → ℕ
readings [] = 0
readings (rule ∷ rules) = suc (length rule.fallbacks) + readings rules

-- `30 * time.Minute`
abbrev pub validity : ℕ
validity = 1_800_000_000_000

-- The statuses of a collection that a provider has accepted.
unfoldable pub collection_status : CollectionResult → PaymentIntentStatus × AttemptStatus
collection_status result =
    if str_eq result.status "processing"
    then (PaymentIntentStatus.processing, AttemptStatus.processing)
    else (PaymentIntentStatus.requires_action, AttemptStatus.requires_action)

abbrev pub new_intent : CreateRequest → String → String → ℕ → PaymentIntent
new_intent req id key now = record {
  id = id;
  merchant_id = req.merchant_id;
  amount = req.amount;
  currency = req.currency;
  status = created;
  method = req.method;
  customer_ref = req.customer_ref;
  customer_phone = req.customer_phone;
  customer_email = req.customer_email;
  idempotency_key = key;
  metadata = req.metadata;
  expires_at = some (now + validity);
  created_at = now;
  updated_at = now;
}

abbrev pub request_of : CreateRequest → PaymentIntent → CollectionRequest
request_of req pi = record {
  payment_intent_id = pi.id;
  amount = req.amount;
  currency = req.currency;
  method = req.method;
  customer_phone = req.customer_phone;
  customer_email = req.customer_email;
  callback_url = "";
  idempotency_key = pi.id;
}

abbrev pub new_attempt :
    PaymentIntent → String → CollectionResult → String → String → ℕ → ℕ → Attempt
new_attempt pi psp result id payload created_at updated_at = record {
  id = id;
  payment_intent_id = pi.id;
  psp = psp;
  psp_reference = result.psp_reference;
  psp_transaction_id = "";
  status = (collection_status result).1;
  sequence_no = pos 1;
  raw_request = result.raw_request;
  raw_response = result.raw_response;
  request_payload = payload;
  callback_payload = "";
  created_at = created_at;
  updated_at = updated_at;
}

module _ (env : Env) (routing : RoutingEngine) (encode : CreateRequest → String) where
  unfoldable pub evaluate_risk : CreateRequest → Action Done
  evaluate_risk req w =
      let request : RiskRequest = record {
        merchant_id = req.merchant_id;
        amount = req.amount;
        currency = req.currency;
        method = req.method;
        customer_phone = req.customer_phone;
        customer_email = req.customer_email;
      } in
      let (r, risk) = evaluate (env.now w.calls) (env.now (suc w.calls)) request w.risk in
      (r, record w { risk = risk; calls = suc (suc w.calls) })

  unfoldable pub route_request : CreateRequest → Action RouteDecision
  route_request req w =
      let request : RouteRequest = record {
        merchant_id = req.merchant_id;
        currency = req.currency;
        country = "";
        method = req.method;
        amount = req.amount;
      } in
      let (r, breaker) = route routing (λ n. env.now (w.calls + n)) request w.breaker in
      (r, record w { breaker = breaker; calls = w.calls + readings routing.rules })

  -- The provider refused: the intent has failed.
  unfoldable pub fail_intent : PaymentIntent → Action CreateResult
  fail_intent pi = do
    now ← clock env
    wrapped "update pi status" (Intents.update_status env pi.id failed)
    pure (record {
      payment_intent = record pi { status = failed; updated_at = now };
      next_action = none;
    })

  -- The attempt is saved: the intent takes the status that the provider's answer gives it.
  unfoldable pub advance : PaymentIntent → String → String → CollectionResult → Action CreateResult
  advance pi psp attempt_id result = do
    now ← clock env
    let status = (collection_status result).0
    (if is_valid_transition created status
        then wrapped "update pi status" (Intents.update_status env pi.id status)
        else raise (
            errorf "invalid transition from %s to %s"
              (status_text created ∷ status_text status ∷ [])))
    (if str_eq psp "mpesa" && status_eq status requires_action
        then schedule_delayed_query pi.id attempt_id psp
        else pure tt)
    pure (record {
      payment_intent = record pi { status = status; updated_at = now };
      next_action = result.next_action;
    })

  -- The provider accepted: the attempt is saved, and the intent waits for its webhook.
  unfoldable pub save_attempt :
      CreateRequest → PaymentIntent → String → CollectionResult → Action CreateResult
  save_attempt req pi psp result = do
    attempt_id ← new_uuid env
    created_at ← clock env
    updated_at ← clock env
    wrapped "save attempt" (
        Attempts.create env
          (new_attempt pi psp result attempt_id (encode req) created_at updated_at))
    advance pi psp attempt_id result

  -- `conn.InitiateCollection`, on the saved intent.
  unfoldable pub collect : CreateRequest → PaymentIntent → String → Connector → Action CreateResult
  collect req pi psp conn w = elim (conn.initiate_collection w.calls (request_of req pi)) [
    | err _ ↦ fail_intent pi (tick w)
    | ok result ↦ save_attempt req pi psp result (tick w)
  ]

  unfoldable pub remember : CreateRequest → PaymentIntent → Action Done
  remember req pi =
      if nonempty req.idempotency_key
      then logged (store env req.merchant_id req.idempotency_key pi.id)
      else pure tt

  unfoldable pub save_intent :
      CreateRequest → PaymentIntent → String → Connector → Action CreateResult
  save_intent req pi psp conn = do
    wrapped "save payment intent" (Intents.create env pi)
    remember req pi
    collect req pi psp conn

  -- The key of the row: the caller's, or a new one.
  unfoldable pub row_key : CreateRequest → Action String
  row_key req = if nonempty req.idempotency_key then pure req.idempotency_key else new_uuid env

  unfoldable pub save_and_collect : CreateRequest → String → Connector → Action CreateResult
  save_and_collect req psp conn = do
    now ← clock env
    key ← row_key req
    id ← new_uuid env
    save_intent req (new_intent req id key now) psp conn

  unfoldable pub create_new : CreateRequest → Action CreateResult
  create_new req = do
    wrapped "risk check" (evaluate_risk req)
    decision ← wrapped "routing" (route_request req)
    (elim (first_registered env.registry (decision.primary ∷ decision.fallbacks)) [
      | none ↦ raise (errorf "no registered connector for method=%s" (req.method ∷ []))
      | some choice ↦ save_and_collect req choice.0 choice.1
    ])

  -- The id of the intent that the key stands for, or the empty text.
  unfoldable pub known : CreateRequest → Action String
  known req =
      if nonempty req.idempotency_key
      then wrapped "idempotency check" (check env req.merchant_id req.idempotency_key)
      else pure ""

  unfoldable pub return_known : String → Action CreateResult
  return_known existing = do
    pi ← Intents.get_by_id env existing
    pure (record { payment_intent = pi; next_action = none })

  unfoldable pub create_payment_intent : CreateRequest → Action CreateResult
  create_payment_intent req = do
    existing ← known req
    if nonempty existing then return_known existing else create_new req
