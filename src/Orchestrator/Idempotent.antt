-- ===== src/Orchestrator/Idempotent.antt =====
-- internal/orchestrator/engine.go, `CreatePaymentIntent`: a key that is known already.
use zia.Base.{
  suc, String, true, false, ◌≡◌, refl, ◌∙◌, ap, none, some, if◌then◌else◌, nonempty, find,
}
use zia.Domain.Intent.{PaymentIntent}
use zia.Effects.Failure.{ok}
use zia.Effects.World.{World, Env, tick}
use zia.Effects.Action.{Action, pure, query}
use zia.Effects.Cases.{bind_run}
use zia.Repository.Intents
use zia.Repository.Intents.{has_id}
use zia.Routing.Engine.{RoutingEngine}
use zia.Idempotency.{check, live, redis_key}
use zia.Orchestrator.Create.{
  CreateRequest, CreateResult, create_new, known, return_known, create_payment_intent,
}

module _ (env : Env) (routing : RoutingEngine) (encode : CreateRequest → String) where
  known-hit :
      (req : CreateRequest) (w : World) (id : String)
      → nonempty req.idempotency_key ≡ true
      → live (env.now w.calls) (redis_key req.merchant_id req.idempotency_key) w ≡ id
      → env.fails w.calls ≡ false
      → known env routing encode req w ≡ (ok id, tick w)
  unfolding known check query
  known-hit req w id named alive up = rw named (rw up (ap (λ x. (ok x, tick w)) alive))

  found_row :
      (pi : PaymentIntent) (w : World)
      → find (has_id pi.id) w.intents ≡ some pi
      → env.fails w.calls ≡ false
      → Intents.get_by_id env pi.id w ≡ (ok pi, tick w)
  unfolding Intents.get_by_id query
  found_row pi w there up = rw (up, there) refl

  return_known-found :
      (pi : PaymentIntent) (w : World)
      → find (has_id pi.id) w.intents ≡ some pi
      → env.fails w.calls ≡ false
      → return_known env routing encode pi.id w
        ≡ (ok (record { payment_intent = pi; next_action = none }), tick w)
  unfolding return_known
  return_known-found pi w there up =
      bind_run (Intents.get_by_id env pi.id)
        (λ p. pure (record { payment_intent = p; next_action = none })) w (tick w) pi
        (found_row pi w there up)

pub create_payment_intent-known :
    (env : Env) (routing : RoutingEngine) (encode : CreateRequest → String) (req : CreateRequest)
    (w : World) (pi : PaymentIntent)
    → nonempty req.idempotency_key ≡ true
    → nonempty pi.id ≡ true
    → live (env.now w.calls) (redis_key req.merchant_id req.idempotency_key) w ≡ pi.id
    → find (has_id pi.id) w.intents ≡ some pi
    → env.fails w.calls ≡ false
    → env.fails (suc w.calls) ≡ false
    → create_payment_intent env routing encode req w ≡ (
      ok (record { payment_intent = pi; next_action = none }),
      record w { calls = suc (suc w.calls) },
    )
unfolding create_payment_intent
create_payment_intent-known env routing encode req w pi named proper alive there up up' =
    let go : String → Action CreateResult = λ existing.
      if nonempty existing
      then return_known env routing encode existing
      else create_new env routing encode req in
    bind_run (known env routing encode req) go w (tick w) pi.id
      (known-hit env routing encode req w pi.id named alive up)
    ∙ rw proper (return_known-found env routing encode pi (tick w) there up')
