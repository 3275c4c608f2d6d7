-- ===== src/Webhook/Dispatcher.antt =====
-- internal/webhook/dispatcher.go, with the statements of internal/repository/webhookdelivery.go that
-- it makes. What an endpoint's server answers is a parameter, a function of the number of the call,
-- the URL and the body; none stands for a request that fails. A text `body` stands for the bytes,
-- and the encoding of the payload is a parameter.
use zia.Base.{
  ℕ, suc, ◌+◌, ◌*◌, ◌-◌, ◌/◌, String, Bool, true, false, ◌&&◌, ◌<>◌, Option, none, some, List, [],
  ◌∷◌, ◌++◌, if◌then◌else◌, str_eq, nonempty, ltb, leb, select, find,
}
use zia.Base.Int.{ℤ}
use zia.Domain.Delivery.{DeliveryStatus, delivered, failed, WebhookEndpoint, WebhookDelivery}
use zia.Domain.Message.{WebhookEvent}
use zia.Effects.Failure.{external, errorf, Result, ok, err}
use zia.Effects.World.{Env, tick}
use zia.Effects.Action.{
  Action, Done, pure, raise, ◌>>=◌, ◌>>◌, wrapped, logged, exec, query, clock, new_uuid,
}

abbrev pub max_retries : ℕ
max_retries = 3

-- `30 * time.Second`
abbrev pub retry_delay_base : ℕ
retry_delay_base = 30_000_000_000

pub record HttpResponse : Type 0 where
  pub status_code : ℕ
  pub body : Option String  -- none: absent, or too long to keep

pub record DispatchPayload : Type 0 where
  pub event : String
  pub pi_id : String
  pub amount : ℤ
  pub currency : String
  pub status : String
  pub psp : String
  pub timestamp : ℕ

abbrev pub create_delivery : Env → WebhookDelivery → Action Done
create_delivery env d = exec env λ w. record w { deliveries = w.deliveries ++ d ∷ [] }

unfoldable pub is_pending : DeliveryStatus → Bool
is_pending DeliveryStatus.pending = true
is_pending delivered = false
is_pending failed = false

-- `del.Status != domain.DeliveryFailed`, negated.
unfoldable pub has_failed : DeliveryStatus → Bool
has_failed DeliveryStatus.pending = false
has_failed delivered = false
has_failed failed = true

-- `GetByID`: a row that was never answered has NULL in columns that are scanned into an `int`.
unfoldable pub scan : Option WebhookDelivery → Result WebhookDelivery
scan none = err external
scan (some d) = if is_pending d.status then err external else ok d

unfoldable pub get_delivery : Env → String → Action WebhookDelivery
get_delivery env id = query env λ w. scan (find (λ d. str_eq d.id id) w.deliveries)

-- What `UpdateStatus` writes.
pub record Outcome : Type 0 where
  pub status : DeliveryStatus
  pub response_status : ℕ
  pub response_body : Option String
  pub duration_ms : ℕ

abbrev pub with_outcome : Outcome → ℕ → WebhookDelivery → WebhookDelivery
with_outcome o now d = record d {
  status = o.status;
  response_status = o.response_status;
  response_body = o.response_body;
  duration_ms = o.duration_ms;
  updated_at = now;
}

unfoldable pub set_outcome : String → Outcome → ℕ → List WebhookDelivery → List WebhookDelivery
set_outcome id o now [] = []
set_outcome id o now (d ∷ ds) =
    (if str_eq d.id id then with_outcome o now d else d) ∷ set_outcome id o now ds

unfoldable pub update_outcome : Env → String → Outcome → Action Done
update_outcome env id o =
    exec env λ w. record w { deliveries = set_outcome id o (env.now w.calls) w.deliveries }

-- What `sendAndRecord` makes of an answer that took so long, in nanoseconds.
unfoldable pub outcome_of_answer : Option HttpResponse → ℕ → Outcome
outcome_of_answer none dur = record {
  status = failed;
  response_status = 0;
  response_body = none;
  duration_ms = dur / 1_000_000;
}
outcome_of_answer (some resp) dur = record {
  status = if leb 200 resp.status_code && ltb resp.status_code 300 then delivered else failed;
  response_status = resp.status_code;
  response_body = resp.body;
  duration_ms = dur / 1_000_000;
}

unfoldable pub next_retry : ℕ → ℕ → Option ℕ
next_retry now attempt =
    if ltb attempt max_retries then some (now + retry_delay_base * attempt) else none

abbrev pub new_delivery : String → ℕ → String → String → String → String → ℕ → WebhookDelivery
new_delivery id now endpoint_id url event_id body attempt = record {
  id = id;
  webhook_event_id = if nonempty event_id then some event_id else none;
  endpoint_id = endpoint_id;
  url = url;
  status = DeliveryStatus.pending;
  request_headers = none;
  request_body = body;
  response_status = 0;
  response_body = none;
  duration_ms = 0;
  attempt = attempt;
  max_attempts = max_retries;
  next_retry_at = next_retry now attempt;
  created_at = now;
  updated_at = now;
}

abbrev pub event_payload : WebhookEvent → ℕ → DispatchPayload
event_payload event now = record {
  event = "payment." <> event.status;
  pi_id = "";
  amount = event.amount;
  currency = event.currency;
  status = event.status;
  psp = event.psp;
  timestamp = now;
}

module _ (env : Env) (answer : ℕ → String → String → Option HttpResponse)
    (encode : DispatchPayload → String) where
  -- `d.httpClient.Do(req)`
  abbrev pub send : String → String → Action (Option HttpResponse)
  send url body w = (ok (answer w.calls url body), tick w)

  unfoldable pub send_and_record : WebhookDelivery → String → Action Done
  send_and_record del body = do
    start ← clock env
    resp ← send del.url body
    end ← clock env
    logged (update_outcome env del.id (outcome_of_answer resp (end - start)))

  -- A delivery whose record cannot be saved is given up.
  unfoldable pub deliver : String → String → String → String → ℕ → Action Done
  deliver endpoint_id url event_id body attempt = do
    id ← new_uuid env
    now ← clock env
    let del = new_delivery id now endpoint_id url event_id body attempt
    logged (do create_delivery env del; send_and_record del body)

  unfoldable pub deliver_each : List WebhookEndpoint → String → String → Action Done
  deliver_each [] event_id body w = (ok tt, w)
  deliver_each (ep ∷ eps) event_id body w =
      let w' =
        if str_eq ep.status "active" then (deliver ep.id ep.url event_id body 1 w).1 else w in
      deliver_each eps event_id body w'

  -- Nothing is encoded for a merchant without endpoints.
  unfoldable pub dispatch_to : WebhookEvent → String → List WebhookEndpoint → Action Done
  dispatch_to event event_id [] = pure tt
  dispatch_to event event_id (ep ∷ eps) = do
    now ← clock env
    deliver_each (ep ∷ eps) event_id (encode (event_payload event now))

  unfoldable pub dispatch : WebhookEvent → String → String → Action Done
  dispatch event merchant_id event_id = logged (do
    eps ← query env λ w. ok (select (λ ep. str_eq ep.merchant_id merchant_id) w.endpoints)
    dispatch_to event event_id eps)

  unfoldable pub retry_delivery : WebhookDelivery → Action Done
  retry_delivery del =
      if has_failed del.status
      then deliver del.endpoint_id del.url (elim del.webhook_event_id [ none ↦ "" | some id ↦ id ])
          del.request_body (suc del.attempt)
      else raise (errorf "delivery %s is not in failed state" (del.id ∷ []))

  unfoldable pub retry : String → Action Done
  retry delivery_id = do
    del ← wrapped "get delivery" (get_delivery env delivery_id)
    retry_delivery del
