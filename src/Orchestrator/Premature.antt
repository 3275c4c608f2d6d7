-- ===== src/Orchestrator/Premature.antt =====
-- internal/orchestrator/engine.go, the delayed query: a payment of which the provider says that it
-- has failed, while it may still be made.
use zia.Base.{
  ℕ, suc, String, Bool, true, false, ◌&&◌, ◌||◌, ◌≡◌, refl, sym, ap, ◌∙◌, some, find, any, subst,
  List, [], ◌∷◌, if◌then◌else◌, str_eq, inl, inr, Bool-cases, none, arith, str_eq_iff,
}
use zia.Base.Dict.{lookup}
use zia.Domain.Intent.{
  PaymentIntent, PaymentIntentStatus, requires_action, status_eq, status_eq_iff,
}
use zia.Domain.Attempt.{Attempt, AttemptStatus}
use zia.Domain.Message.{StatusResult, WebhookEvent}
use zia.Effects.Failure.{ok}
use zia.Effects.World.{World, Env, Connector, DelayedQuery, tick}
use zia.Effects.Action.{Action, Done, query, pure, ◌>>=◌, ◌>>◌}
use zia.Effects.Cases.{bind_run}
use zia.Repository.Attempts
use zia.Repository.Intents
use zia.Repository.Keys.{find-has_id}
use zia.Repository.Intents.{has_id, is_at, set_status_from, with_status}
use zia.Orchestrator.Outcome.{EngineConfig, outcome_of, post_if_succeeded, notify}
use zia.Orchestrator.Query.{
  settle_query, apply_query_result, ask_provider, ask_status, run_delayed_query,
}
use zia.Orchestrator.Webhook.{handle_webhook_event}
use zia.Orchestrator.Overtaken.{attempt_moved, attempt-moved}
use zia.Orchestrator.Redelivery.{is_over, handle_webhook_event-over}
use zia.Orchestrator.Touched.{notify-Same}

-- The row that a lookup finds is the one that an update which names its status writes.
find-set_status_from :
    (id : String) (from to : PaymentIntentStatus) (now : ℕ) (pis : List PaymentIntent)
    (pi : PaymentIntent)
    → find (has_id id) pis ≡ some pi
    → status_eq pi.status from ≡ true
    → (find (has_id id) (set_status_from id from to now pis) ≡ some (with_status to now pi))
      × (any (is_at id from) pis ≡ true)
unfolding set_status_from
find-set_status_from id from to now [] pi here same = absurd (ground arith)
find-set_status_from id from to now (p ∷ pis) pi here same = elim (Bool-cases (has_id id p)) [
  | inl this ↦ ground arith
  | inr other ↦ ground (arith, find-set_status_from id from to now pis pi)
]

module _ (env : Env) (cfg : EngineConfig) (up : (n : ℕ) → env.fails n ≡ false) where
  intent-written :
      (id : String) (from to : PaymentIntentStatus) (w : World)
      → any (is_at id from) w.intents ≡ true
      → Intents.update_status_safe env id from to w ≡ (
        ok true,
        tick (record w { intents = set_status_from id from to (env.now w.calls) w.intents }),
      )
  unfolding Intents.update_status_safe
  intent-written id from to w there = rw (up w.calls, there) refl

  -- The state after a query that has failed a payment, but for the notification.
  abbrev failed_by : PaymentIntent → Attempt → World → World
  failed_by pi a w =
      let w₁ = tick (attempt_moved env a AttemptStatus.failed w) in
      tick (record w₁ {
        intents =
            set_status_from pi.id pi.status PaymentIntentStatus.failed (env.now w₁.calls) w.intents;
      })

  settle_query-failed :
      (pi : PaymentIntent) (a : Attempt) (w : World)
      → any (is_at pi.id pi.status) w.intents ≡ true
      → settle_query env cfg pi a PaymentIntentStatus.failed AttemptStatus.failed w
        ≡ notify env cfg pi a PaymentIntentStatus.failed (failed_by pi a w)
  unfolding settle_query post_if_succeeded status_eq mathlib.Core.Bool.decide
  settle_query-failed pi a w there =
      let s = PaymentIntentStatus.failed in
      let w₁ = tick (attempt_moved env a AttemptStatus.failed w) in
      let set_pi = Intents.update_status_safe env pi.id pi.status s in
      let finish : Bool → Action Done =
        λ b. if b then post_if_succeeded env cfg pi a s >> notify env cfg pi a s else pure tt in
      bind_run (Attempts.update_status env a.id AttemptStatus.failed) (λ _. set_pi >>= finish) w w₁
        tt (attempt-moved env a AttemptStatus.failed w (up w.calls))
      ∙ bind_run set_pi finish w₁ (failed_by pi a w) true
          (intent-written pi.id pi.status s w₁ there)

  apply_query_result-failed :
      (pi : PaymentIntent) (a : Attempt) (result : StatusResult) (w : World)
      → result.status ≡ "failed"
      → pi.status ≡ requires_action
      → apply_query_result env cfg pi a result w
        ≡ settle_query env cfg pi a PaymentIntentStatus.failed AttemptStatus.failed w
  unfolding apply_query_result outcome_of zia.Orchestrator.State.is_valid_transition status_eq
      mathlib.Core.Bool.decide
  apply_query_result-failed pi a result w said open_ = rw (said, open_) refl

  module _ (q : DelayedQuery) (conn : Connector) (pi : PaymentIntent) (a : Attempt)
      (result : StatusResult) (w : World) (registered : lookup q.psp env.registry ≡ some conn)
      (owner : find (has_id q.pi_id) w.intents ≡ some pi) (waits : pi.status ≡ requires_action)
      (tried : find (λ x. str_eq x.id q.attempt_id) w.attempts ≡ some a)
      (answered : conn.get_status (suc (suc w.calls)) a.psp_reference ≡ ok result)
      (said : result.status ≡ "failed") where
    abbrev asks_if_registered : Attempt → Action Done
    asks_if_registered att = elim (lookup q.psp env.registry) [
      | none ↦ pure tt
      | some c ↦ ask_status c att.psp_reference >>= λ r. apply_query_result env cfg pi att r
    ]

    provider-asked :
        ask_provider env cfg q pi (tick w)
        ≡ apply_query_result env cfg pi a result (tick (tick (tick w)))
    unfolding ask_provider Attempts.get_by_id query
    provider-asked =
        let ask = ask_status conn a.psp_reference in
        bind_run (Attempts.get_by_id env q.attempt_id) asks_if_registered (tick w) (tick (tick w)) a
          (rw (up (suc w.calls), tried) refl)
        ∙ ap
            (λ o.
              (elim o as (λ _. Action Done) [
                | none ↦ pure tt
                | some c ↦ ask_status c a.psp_reference >>= λ r. apply_query_result env cfg pi a r
              ])
                (tick (tick w)))
            registered
        ∙ (bind_run ask (apply_query_result env cfg pi a) (tick (tick w)) (tick (tick (tick w)))
            result (rw answered refl))

    here : find (has_id pi.id) w.intents ≡ some pi
    here =
        let same = (str_eq_iff pi.id q.pi_id).0 (find-has_id q.pi_id w.intents pi owner) in
        subst (λ i. find (has_id i) w.intents ≡ some pi) (sym same) owner

    there :
        (now : ℕ)
        → (find
              (has_id pi.id)
              (set_status_from pi.id pi.status PaymentIntentStatus.failed now w.intents)
            ≡ some (with_status PaymentIntentStatus.failed now pi))
          × (any (is_at pi.id pi.status) w.intents ≡ true)
    there now =
        find-set_status_from pi.id pi.status PaymentIntentStatus.failed now w.intents pi here
          ((status_eq_iff pi.status pi.status).1 refl)

    abbrev after_query : World
    after_query = (run_delayed_query env cfg q w).1

    query-fails : run_delayed_query env cfg q w ≡ (
      ok tt,
      (notify env cfg pi a PaymentIntentStatus.failed (failed_by pi a (tick (tick (tick w))))).1,
    )
    unfolding run_delayed_query Intents.get_by_id query status_eq mathlib.Core.Bool.decide
    query-fails =
        let go : PaymentIntent → Action Done = λ p.
          if status_eq p.status requires_action || status_eq p.status PaymentIntentStatus.processing
          then ask_provider env cfg q p
          else pure tt in
        let w₃ = tick (tick (tick w)) in
        let runs : (Intents.get_by_id env q.pi_id >>= go) w
            ≡ notify env cfg pi a PaymentIntentStatus.failed (failed_by pi a w₃) =
          bind_run (Intents.get_by_id env q.pi_id) go w (tick w) pi (rw (up w.calls, owner) refl)
          ∙ rw waits refl
          ∙ provider-asked
          ∙ apply_query_result-failed pi a result w₃ said waits
          ∙ settle_query-failed pi a w₃ ((there 0).1) in
        ap (λ m. (ok tt, m.1)) runs

    -- Where nothing of ours fails, an answer `failed` to the query of a payment that waits for its
    -- customer fails the payment and posts nothing. A webhook for that payment that comes next, even
    -- one that says it has succeeded, changes no intent and posts nothing.
    pub run_delayed_query-premature :
        (evt : WebhookEvent) (b : Attempt)
        → find
            (λ x. str_eq x.psp evt.psp && str_eq x.psp_reference evt.psp_reference)
            after_query.attempts
          ≡ some b
        → b.payment_intent_id ≡ pi.id
        → let now = env.now (suc (suc (suc (suc w.calls)))) in
          let later = (handle_webhook_event env cfg evt after_query).1 in
          (find (has_id pi.id) after_query.intents
            ≡ some (with_status PaymentIntentStatus.failed now pi))
          × (after_query.entries ≡ w.entries)
          × (later.intents ≡ after_query.intents)
          × (later.entries ≡ w.entries)
    unfolding is_over
    run_delayed_query-premature evt b matched owned =
        let now = env.now (suc (suc (suc (suc w.calls)))) in
        let failed_row = with_status PaymentIntentStatus.failed now pi in
        let told =
          notify-Same env cfg pi a PaymentIntentStatus.failed
            (failed_by pi a (tick (tick (tick w)))) in
        let row : find (has_id pi.id) after_query.intents ≡ some failed_row =
          ap (λ m. find (has_id pi.id) m.1.intents) query-fails
          ∙ ap (find (has_id pi.id)) told.0
          ∙ (there now).0 in
        let posted : after_query.entries ≡ w.entries = ap (λ m. m.1.entries) query-fails ∙ told.1 in
        let (kept, nothing) =
          handle_webhook_event-over env cfg evt b failed_row after_query matched
            (subst (λ i. find (has_id i) after_query.intents ≡ some failed_row) (sym owned) row)
            refl in
        (row, posted, kept, nothing ∙ posted)
