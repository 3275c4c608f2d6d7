-- ===== src/Webhook/Fanout.antt =====
-- internal/webhook/dispatcher.go, `Dispatch`: which endpoints an event is sent to.
use zia.Base.{String, Bool, List, map, str_eq}
use zia.Domain.Delivery.{WebhookDelivery, WebhookEndpoint}
use zia.Effects.World.{World}

-- Where a delivery goes to.
abbrev pub target : WebhookDelivery → String × String
target d = (d.endpoint_id, d.url)

abbrev pub targets : World → List (String × String)
targets w = map target w.deliveries

abbrev pub address : WebhookEndpoint → String × String
address ep = (ep.id, ep.url)

abbrev pub is_active : WebhookEndpoint → Bool
is_active ep = str_eq ep.status "active"

abbrev pub owned_by : String → WebhookEndpoint → Bool
owned_by merchant_id ep = str_eq ep.merchant_id merchant_id
