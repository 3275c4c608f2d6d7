-- ===== src/Orchestrator/Overtaken.antt =====
-- internal/orchestrator/engine.go, `applyQueryResult`: an answer to a query that a webhook overtook.
use zia.Base.{ℕ, String, Bool, true, false, ◌≡◌, refl, ap, ◌∙◌, some, any, if◌then◌else◌}
use zia.Domain.Intent.{PaymentIntent, PaymentIntentStatus}
use zia.Domain.Attempt.{Attempt, AttemptStatus}
use zia.Domain.Message.{StatusResult}
use zia.Effects.Failure.{ok}
use zia.Effects.World.{World, Env, tick}
use zia.Effects.Action.{Action, Done, exec, pure, ◌>>=◌, ◌>>◌}
use zia.Effects.Cases.{bind_run}
use zia.Repository.Attempts
use zia.Repository.Intents
use zia.Repository.Intents.{is_at, set_status_from}
use zia.Repository.Keys.{set_status_from_none}
use zia.Orchestrator.State.{is_valid_transition}
use zia.Orchestrator.Outcome.{EngineConfig, outcome_of, post_if_succeeded, notify}
use zia.Orchestrator.Query.{settle_query, apply_query_result}

module _ (env : Env) where
  -- The tables after an attempt was given a status.
  abbrev pub attempt_moved : Attempt → AttemptStatus → World → World
  attempt_moved a s w = record w {
    attempts =
        Attempts.set_where a.id (λ x. record x { status = s; updated_at = env.now w.calls })
          w.attempts;
  }

  pub attempt-moved :
      (a : Attempt) (s : AttemptStatus) (w : World)
      → env.fails w.calls ≡ false
      → Attempts.update_status env a.id s w ≡ (ok tt, tick (attempt_moved a s w))
  unfolding Attempts.update_status Attempts.update exec
  attempt-moved a s w up = rw up refl

  intent-kept :
      (id : String) (from to : PaymentIntentStatus) (w : World)
      → env.fails w.calls ≡ false
      → any (is_at id from) w.intents ≡ false
      → Intents.update_status_safe env id from to w ≡ (
        ok false,
        tick (record w { intents = set_status_from id from to (env.now w.calls) w.intents }),
      )
  unfolding Intents.update_status_safe
  intent-kept id from to w up gone = rw (up, gone) refl

module _ (env : Env) (cfg : EngineConfig) where
  settle_query-overtaken :
      (pi : PaymentIntent) (a : Attempt) (s : PaymentIntentStatus) (t : AttemptStatus) (w : World)
      → ((n : ℕ) → env.fails n ≡ false)
      → any (is_at pi.id pi.status) w.intents ≡ false
      → settle_query env cfg pi a s t w ≡ (ok tt, tick (tick (attempt_moved env a t w)))
  unfolding settle_query
  settle_query-overtaken pi a s t w up gone =
      let w₁ = tick (attempt_moved env a t w) in
      let same = set_status_from_none pi.id pi.status s (env.now w₁.calls) w.intents gone in
      let w₂ =
        tick (record w₁ {
          intents = set_status_from pi.id pi.status s (env.now w₁.calls) w.intents;
        }) in
      let set_pi = Intents.update_status_safe env pi.id pi.status s in
      let finish : Bool → Action Done =
        λ b. if b then post_if_succeeded env cfg pi a s >> notify env cfg pi a s else pure tt in
      bind_run (Attempts.update_status env a.id t) (λ _. set_pi >>= finish) w w₁ tt
        (attempt-moved env a t w (up w.calls))
      ∙ bind_run set_pi finish w₁ w₂ false (intent-kept env pi.id pi.status s w₁ (up w₁.calls) gone)
      ∙ ap (λ l. (ok tt, record w₂ { intents = l })) same

  -- Where nothing fails, an answer that reports the end of a payment, for an intent that was read
  -- when it could still end so and whose row has another status by now, writes the answer's status
  -- to the attempt and nothing else: no intent, no entry and no message, and it returns no error.
  pub apply_query_result-overtaken :
      (pi : PaymentIntent) (a : Attempt) (result : StatusResult)
      (o : PaymentIntentStatus × AttemptStatus) (w : World)
      → ((n : ℕ) → env.fails n ≡ false)
      → outcome_of result.status ≡ some o
      → is_valid_transition pi.status o.0 ≡ true
      → any (is_at pi.id pi.status) w.intents ≡ false
      → apply_query_result env cfg pi a result w ≡ (ok tt, tick (tick (attempt_moved env a o.1 w)))
  unfolding apply_query_result
  apply_query_result-overtaken pi a result o w up known valid gone =
      rw (known, apply_query_result, valid) (settle_query-overtaken pi a o.0 o.1 w up gone)
