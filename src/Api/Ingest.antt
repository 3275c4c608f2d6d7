-- ===== src/Api/Ingest.antt =====
-- internal/api/webhook.go, with the insertion of internal/repository/webhookevent.go. A body is given
-- as it was read, up to its limit; none stands for one that cannot be read.
use zia.Base.{
  ℕ, String, Bool, Option, none, some, [], ◌∷◌, ◌++◌, any, str_eq, nonempty, if◌then◌else◌,
}
use zia.Base.Dict.{lookup}
use zia.Domain.Message.{WebhookEvent}
use zia.Domain.Portal.{WebhookRow, ProcessingStatus}
use zia.Effects.Failure.{external, ok, err}
use zia.Effects.World.{Env, Connector, tick}
use zia.Effects.Action.{Action, Done, ◌>>=◌, ◌>>◌, logged, exec, clock, new_uuid}
use zia.Orchestrator.Outcome.{EngineConfig}
use zia.Webhook.Dispatcher.{HttpResponse, DispatchPayload}
use zia.Webhook.Processor.{mark, handle_event_and_dispatch}
use zia.Webhook.Stream.{publish_webhook}
use zia.Api.Handler.{answered, refused, Handler}

-- The unique index on the deduplication key refuses a second row.
unfoldable pub create_row : Env → WebhookRow → Action Done
create_row env row w =
    if any (λ r. str_eq r.dedup_key row.dedup_key) w.api.webhook_rows
    then (err external, tick w)
    else exec env
        (λ v. record v { api = record v.api { webhook_rows = v.api.webhook_rows ++ row ∷ [] } }) w

abbrev pub row_of : String → ℕ → WebhookEvent → WebhookRow
row_of id now event = record {
  id = id;
  psp = event.psp;
  event_type = event.event_type;
  psp_reference = event.psp_reference;
  dedup_key = event.dedup_key;
  payload = event.raw_payload;
  processing_status = ProcessingStatus.received;
  received_at = now;
}

-- `if err := m(); err != nil { k() }`
abbrev pub or_else : Action Done → Action Done → Action Done
or_else m k w = let (r, w') = m w in elim r [ ok _ ↦ (ok tt, w') | err _ ↦ k w' ]

module _ (env : Env) (cfg : EngineConfig) (answer : ℕ → String → String → Option HttpResponse)
    (encode : DispatchPayload → String) (connected : Bool) where
  -- A row that cannot be kept, as that of an event that was there before, stops nothing.
  unfoldable pub ingest_event : WebhookEvent → Action Done
  ingest_event event = do
    now ← clock env
    id ← new_uuid env
    logged (do create_row env (row_of id now event); mark env event.dedup_key)
    or_else (publish_webhook env connected event)
        (handle_event_and_dispatch env cfg answer encode event id)

  -- A body that does not parse is answered as one that does: there is nothing to deliver again.
  unfoldable pub ingest_body : Connector → String → Handler Done
  ingest_body conn body w = elim (conn.parse_webhook body) [
    | err _ ↦ (answered tt, w)
    | ok event ↦ (answered tt, (ingest_event event w).1)
  ]

  unfoldable pub ingest_from : Connector → Option String → Handler Done
  ingest_from conn none w = (refused 400 "" "bad request", w)
  ingest_from conn (some body) w = ingest_body conn body w

  unfoldable pub ingest : String → Option String → Handler Done
  ingest psp body w =
      if nonempty psp
      then (elim (lookup psp env.registry) [
        | none ↦ (refused 404 "" "unknown psp", w)
        | some conn ↦ ingest_from conn body w
      ])
      else (refused 404 "" "unknown psp", w)
