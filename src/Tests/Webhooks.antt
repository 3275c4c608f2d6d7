-- ===== src/Tests/Webhooks.antt =====
-- The webhook dispatcher at concrete inputs.
use zia.Base.{ℕ, String, ◌↔◌, true, ◌≡◌, refl, none, some, [], ◌∷◌, Option}
use zia.Domain.Delivery.{DeliveryStatus, WebhookDelivery}
use zia.Effects.Failure.{ok}
use zia.Effects.World.{World, tick}
use zia.Webhook.Dispatcher.{HttpResponse, DispatchPayload, retry}
use zia.Webhook.Deliveries.{sent_delivery, retry-sent}
use zia.Orchestrator.Change.{Change}
use zia.Webhook.Processor.{handle_event_and_dispatch}
use zia.Webhook.Consumed.{delivered-Change}
use zia.Webhook.Stream.{ack, consume}
use zia.Orchestrator.Webhook.{handle_webhook_event}
use zia.Base.Dict.{lookup}
use zia.Api.Handler.{answered}
use zia.Api.Ingest.{ingest, row_of}
use zia.Api.Repeats.{ingest-repeated}
use zia.Tests.Fixtures.{calm, mpesa, no_accounts, five_percent, paid, open_books, endpoint}

-- A last attempt that the server refused.
abbrev refused : WebhookDelivery
refused = record {
  id = "de_1";
  webhook_event_id = some "ev_1";
  endpoint_id = endpoint.id;
  url = endpoint.url;
  status = DeliveryStatus.failed;
  request_headers = none;
  request_body = "{}";
  response_status = 500;
  response_body = none;
  duration_ms = 12;
  attempt = 3;
  max_attempts = 3;
  next_retry_at = none;
  created_at = 0;
  updated_at = 0;
}

abbrev after_refusal : World
after_refusal = record open_books { deliveries = refused ∷ [] }

abbrev accepting : ℕ → String → String → Option HttpResponse
accepting n url body = some (record { status_code = 204; body = none })

abbrev plain : DispatchPayload → String
plain payload = payload.event

retry-sent_example :
    let (r, w') = retry calm accepting plain "de_1" after_refusal in
    (r ≡ ok tt)
    × (w'.deliveries
        ≡ refused
          ∷ sent_delivery calm accepting plain
              (λ _. refl)
              (tick after_refusal)
              endpoint.id
              endpoint.url
              "ev_1"
              "{}"
              4
          ∷ [])
retry-sent_example =
    retry-sent calm accepting plain (λ _. refl) "de_1" refused after_refusal refl refl refl

delivered-Change_example :
    Change open_books
      (handle_event_and_dispatch calm five_percent accepting plain paid "ev_1" open_books).1
    × Change open_books (consume calm five_percent accepting plain paid open_books).1
    × (((consume calm five_percent accepting plain paid open_books).0 ≡ ack)
        ↔ ((handle_webhook_event calm five_percent paid open_books).0 ≡ ok tt))
delivered-Change_example = delivered-Change calm accepting plain five_percent paid "ev_1" open_books

ingest-repeated_example :
    let (r₁, w₁) = ingest calm five_percent accepting plain true "mpesa" (some "{}") open_books in
    let (r₂, w₂) = ingest calm five_percent accepting plain true "mpesa" (some "{}") w₁ in
    (r₁ ≡ answered tt)
    × (r₂ ≡ answered tt)
    × (w₂.api ≡ record no_accounts {
      webhook_rows = row_of "new" 0 paid ∷ [];
      webhook_stream = paid ∷ paid ∷ [];
    })
    × (w₂.intents ≡ open_books.intents)
    × (w₂.entries ≡ [])
unfolding lookup
ingest-repeated_example =
    ingest-repeated calm (λ _. refl) five_percent accepting plain paid "mpesa" "{}" mpesa open_books
      refl refl refl refl
