-- ===== src/Orchestrator/History.antt =====
-- internal/orchestrator/engine.go: what any run of webhooks, timers and late answers leaves behind.
use zia.Base.{◌≤◌, String, List, [], ◌∷◌, inl, inr, refl, ◌⊎◌}
use zia.Domain.Intent.{PaymentIntent}
use zia.Domain.Attempt.{Attempt}
use zia.Domain.Message.{WebhookEvent, StatusResult}
use zia.Effects.World.{World, Env, DelayedQuery}
use zia.Repository.Keys.{Keyed}
use zia.Routing.Engine.{RoutingEngine}
use zia.Orchestrator.Create.{CreateRequest, create_payment_intent}
use zia.Orchestrator.Created.{Created}
use zia.Orchestrator.Growth.{Created-Keyed, Created-Books, Created-Progress}
use zia.Orchestrator.Requests.{create_payment_intent-Created}
use zia.Orchestrator.Lifecycle.{stay}
use zia.Orchestrator.Outcome.{EngineConfig}
use zia.Orchestrator.Webhook.{handle_webhook_event}
use zia.Orchestrator.Query.{apply_query_result, run_delayed_query}
use zia.Orchestrator.Change.{
  payments, Books, Change, Change-Keyed, Change-Books, Progress, Progress-trans, Change-Progress,
  books_bound,
}
use zia.Orchestrator.Once.{handle_webhook_event-Change}
use zia.Orchestrator.Late.{apply_query_result-Change, run_delayed_query-Change}

-- What reaches the engine: a merchant's request, a provider's webhook, a timer, or the answer to a
-- query whose intent was read some time ago.
pub data Event : Type 0 where
  request : CreateRequest → Event
  webhook : WebhookEvent → Event
  timer : DelayedQuery → Event
  answer : PaymentIntent → Attempt → StatusResult → Event

module _ (env : Env) (cfg : EngineConfig) (routing : RoutingEngine)
    (encode : CreateRequest → String) where
  unfoldable pub handle : Event → World → World
  handle (request req) w = (create_payment_intent env routing encode req w).1
  handle (webhook evt) w = (handle_webhook_event env cfg evt w).1
  handle (timer q) w = (run_delayed_query env cfg q w).1
  handle (answer pi attempt result) w = (apply_query_result env cfg pi attempt result w).1

  unfoldable pub replay : List Event → World → World
  replay [] w = w
  replay (e ∷ es) w = replay es (handle e w)

  handle-Step :
      (e : Event) (w : World) → Keyed w.intents → Created w (handle e w) ⊎ Change w (handle e w)
  unfolding handle
  handle-Step (request req) w keyed = inl (create_payment_intent-Created env routing encode req w)
  handle-Step (webhook evt) w keyed = inr (handle_webhook_event-Change env cfg evt w)
  handle-Step (timer q) w keyed = inr (run_delayed_query-Change env cfg q w keyed)
  handle-Step (answer pi a result) w keyed =
      inr (apply_query_result-Change env cfg pi a result w keyed)

  handle-Keyed : (e : Event) (w : World) → Keyed w.intents → Keyed (handle e w).intents
  handle-Keyed e w keyed = elim (handle-Step e w keyed) [
    | inl new ↦ Created-Keyed w (handle e w) new keyed
    | inr change ↦ Change-Keyed w (handle e w) change keyed
  ]

  handle-Books : (e : Event) (w : World) → Keyed w.intents → Books w → Books (handle e w)
  handle-Books e w keyed books = elim (handle-Step e w keyed) [
    | inl new ↦ Created-Books w (handle e w) new books
    | inr change ↦ Change-Books w (handle e w) change books
  ]

  handle-Progress : (e : Event) (w : World) → Keyed w.intents → Progress w (handle e w)
  handle-Progress e w keyed = elim (handle-Step e w keyed) [
    | inl new ↦ Created-Progress w (handle e w) new
    | inr change ↦ Change-Progress w (handle e w) change
  ]

  -- Where intents have one row each and no payment was taken in more often than its status tells,
  -- both hold after any requests, webhooks, timers and late answers, in any order, whatever fails on the way:
  -- a payment is taken in once at most, and only if its intent has succeeded.
  pub replay-Books :
      (es : List Event) (w : World)
      → Keyed w.intents
      → Books w
      → Keyed (replay es w).intents
        × Books (replay es w)
        × ((id : String) → payments id (replay es w).entries ≤ 1)
  unfolding replay
  replay-Books [] w keyed books = (keyed, books, λ id. books_bound w id (books id))
  replay-Books (e ∷ es) w keyed books =
      replay-Books es (handle e w) (handle-Keyed e w keyed) (handle-Books e w keyed books)

  -- Under the same run every intent stays on record, with its merchant and its amount, and its
  -- status has gone through steps of a payment's life only, if intents have one row each.
  pub replay-Progress : (es : List Event) (w : World) → Keyed w.intents → Progress w (replay es w)
  unfolding replay
  replay-Progress [] w keyed = λ id pi here. (pi, here, stay, refl, refl)
  replay-Progress (e ∷ es) w keyed =
      let w₁ = handle e w in
      Progress-trans w w₁ (replay es w₁) (handle-Progress e w keyed)
        (replay-Progress es w₁ (handle-Keyed e w keyed))
