-- ===== src/Orchestrator/Late.antt =====
-- internal/orchestrator/engine.go: what the delayed query does to the books, whenever its answer
-- comes and however old the intent that it was asked for has become.
use zia.Base.{
  String, Bool, true, false, ◌||◌, ◌≡◌, refl, sym, ap, subst, ◌∙◌, inl, inr, none, some, arith,
  if◌then◌else◌, Bool-cases, Option-cases, find, any,
}
use zia.Base.Dict.{lookup}
use zia.Domain.Intent.{PaymentIntent, PaymentIntentStatus, requires_action, processing, status_eq}
use zia.Domain.Attempt.{Attempt, AttemptStatus}
use zia.Domain.Message.{StatusResult}
use zia.Effects.Failure.{Error, ok, err}
use zia.Effects.World.{World, Env, DelayedQuery, Connector, tick}
use zia.Effects.Action.{Action, Done, query, pure, ◌>>=◌, ◌>>◌}
use zia.Effects.Cases.{bind-lem, bind_any}
use zia.Repository.Attempts
use zia.Repository.Intents
use zia.Repository.Intents.{has_id, set_status, is_at}
use zia.Repository.Keys.{Keyed, set_status_from-lem, set_status_from_none}
use zia.Orchestrator.State.{is_valid_transition}
use zia.Orchestrator.Lifecycle.{◌⟶◌, is_valid_transition_iff}
use zia.Orchestrator.Outcome.{EngineConfig, outcome_of, notify, post_if_succeeded}
use zia.Orchestrator.Query.{
  settle_query, apply_query_result, ask_provider, ask_status, run_delayed_query,
}
use zia.Orchestrator.Change.{Same, Change}
use zia.Orchestrator.Touched.{Same-trans, attempt_status-Same, notify-Same}
use zia.Orchestrator.Once.{finish-Moved, post_if_succeeded-Posted}

module _ (env : Env) where
  update_status_safe-set :
      (id : String) (from to : PaymentIntentStatus) (w : World)
      → Keyed w.intents
      → (Intents.update_status_safe env id from to w).0 ≡ ok true
      → let w' = (Intents.update_status_safe env id from to w).1 in
        (row : PaymentIntent) × (find (has_id id) w.intents ≡ some row)
        × (row.status ≡ from)
        × (w'.intents ≡ set_status id to (env.now w.calls) w.intents)
        × (w'.entries ≡ w.entries)
  unfolding Intents.update_status_safe
  update_status_safe-set id from to w keyed h = elim (Bool-cases (env.fails w.calls)) [
    | inl down ↦ ground arith
    | inr up ↦ elim (Bool-cases (any (is_at id from) w.intents)) [
      | inl there ↦
          let (same, row, here, status) =
            set_status_from-lem id from to (env.now w.calls) w.intents keyed there in
          (row, here, status, rw up same, rw up refl)
      | inr not_there ↦ ground arith
    ]
  ]

  update_status_safe-skipped :
      (id : String) (from to : PaymentIntentStatus) (w : World)
      → (Intents.update_status_safe env id from to w).0 ≡ ok false
      → Same w (Intents.update_status_safe env id from to w).1
  unfolding Intents.update_status_safe
  update_status_safe-skipped id from to w h = elim (Bool-cases (env.fails w.calls)) [
    | inl down ↦ rw down (refl, refl)
    | inr up ↦
        let absent : any (is_at id from) w.intents ≡ false = ground arith in
        rw up (set_status_from_none id from to (env.now w.calls) w.intents absent, refl)
  ]

  update_status_safe-failed :
      (id : String) (from to : PaymentIntentStatus) (w : World) (e : Error)
      → (Intents.update_status_safe env id from to w).0 ≡ err e
      → Same w (Intents.update_status_safe env id from to w).1
  unfolding Intents.update_status_safe
  update_status_safe-failed id from to w e h = elim (Bool-cases (env.fails w.calls)) [
    | inl down ↦ rw down (refl, refl)
    | inr up ↦ ground arith
  ]

module _ (env : Env) (cfg : EngineConfig) where
  written-Change :
      (w w₁ : World)
      → Same w w₁
      → Keyed w.intents
      → (pi : PaymentIntent) (a : Attempt) (s : PaymentIntentStatus) → pi.status ⟶ s
      → let (r, w₂) = Intents.update_status_safe env pi.id pi.status s w₁ in
        r ≡ ok true → Change w ((post_if_succeeded env cfg pi a s >> notify env cfg pi a s) w₂).1
  written-Change w w₁ same₁ keyed pi a s step h =
      let post = post_if_succeeded env cfg pi a s in
      let tell = notify env cfg pi a s in
      let w₂ = (Intents.update_status_safe env pi.id pi.status s w₁).1 in
      let w₃ = (post w₂).1 in
      let now = env.now w₁.calls in
      let (row, here₁, status, set, kept) =
        update_status_safe-set env pi.id pi.status s w₁ (subst Keyed (sym same₁.0) keyed) h in
      let here = subst (λ l. find (has_id pi.id) l ≡ some row) same₁.0 here₁ in
      let new : (w₂.intents ≡ set_status pi.id s now w.intents) × (w₂.entries ≡ w.entries) =
        (set ∙ ap (set_status pi.id s now) same₁.0, kept ∙ same₁.1) in
      let moved =
        finish-Moved env cfg w w₂ row pi a s now here (subst (λ x. x ⟶ s) (sym status) step) new in
      let posted = post_if_succeeded-Posted env cfg pi a s w₂ in
      bind_any (Change w) post (λ _. tell) w₂ (inr (moved w₃ w₃ posted (refl, refl)))
        (λ _. inr (moved w₃ (tell w₃).1 posted (notify-Same env cfg pi a s w₃)))

  settle_query-Change :
      (w : World) (pi : PaymentIntent) (a : Attempt) (s : PaymentIntentStatus) (t : AttemptStatus)
      → Keyed w.intents
      → pi.status ⟶ s
      → Change w (settle_query env cfg pi a s t w).1
  unfolding settle_query
  settle_query-Change w pi a s t keyed step =
      let set_attempt = Attempts.update_status env a.id t in
      let set_pi = Intents.update_status_safe env pi.id pi.status s in
      let post = post_if_succeeded env cfg pi a s in
      let tell = notify env cfg pi a s in
      let finish : Bool → Action Done = λ b. if b then post >> tell else pure tt in
      let P = Change w in
      let w₁ = (set_attempt w).1 in
      let same₁ = attempt_status-Same env a.id t w in
      let w₂ = (set_pi w₁).1 in
      bind_any P set_attempt (λ _. set_pi >>= finish) w (inl same₁)
        (λ _.
          bind-lem P set_pi finish w₁
            (λ b written.
              elim b as (λ b. (set_pi w₁).0 ≡ ok b → P (finish b w₂).1) [
                | true ↦ λ h. written-Change w w₁ same₁ keyed pi a s step h
                | false ↦ λ h. inl (
                    Same-trans w w₁ w₂ same₁
                      (update_status_safe-skipped env pi.id pi.status s w₁ h))
              ]
                written)
            (λ e refused. inl (
              Same-trans w w₁ w₂ same₁
                (update_status_safe-failed env pi.id pi.status s w₁ e refused))))

  -- An answer for an intent, which may have changed since it was read.
  pub apply_query_result-Change :
      (pi : PaymentIntent) (a : Attempt) (result : StatusResult) (w : World)
      → Keyed w.intents
      → Change w (apply_query_result env cfg pi a result w).1
  unfolding apply_query_result
  apply_query_result-Change pi a result w keyed = elim (Option-cases (outcome_of result.status)) [
    | inl unknown ↦ rw (unknown, apply_query_result) (inl (refl, refl))
    | inr (outcome, known) ↦
        rw (known, apply_query_result)
          (elim (Bool-cases (is_valid_transition pi.status outcome.0)) [
            | inl valid ↦ rw valid (
                settle_query-Change w pi a outcome.0 outcome.1 keyed
                  ((is_valid_transition_iff pi.status outcome.0).0 valid))
            | inr invalid ↦ rw invalid (inl (refl, refl))
          ])
  ]

  ask_provider-Change :
      (q : DelayedQuery) (pi : PaymentIntent) (w : World)
      → Keyed w.intents
      → Change w (ask_provider env cfg q pi w).1
  unfolding ask_provider Attempts.get_by_id query
  ask_provider-Change q pi w keyed =
      let get = Attempts.get_by_id env q.attempt_id in
      let answer : Attempt → Connector → Action Done = λ a conn.
        ask_status conn a.psp_reference >>= λ result. apply_query_result env cfg pi a result in
      let go : Attempt → Action Done =
        λ a. elim (lookup q.psp env.registry) [ none ↦ pure tt | some conn ↦ answer a conn ] in
      bind_any (Change w) get go w (inl (refl, refl)) (λ a.
        elim (Option-cases (lookup q.psp env.registry)) [
          | inl absent ↦ rw absent (inl (refl, refl))
          | inr (conn, there) ↦ rw there (
              bind_any (Change w) (ask_status conn a.psp_reference)
                (λ result. apply_query_result env cfg pi a result) (tick w) (inl (refl, refl))
                (λ result. apply_query_result-Change pi a result (tick (tick w)) keyed))
        ])

  pub run_delayed_query-Change :
      (q : DelayedQuery) (w : World) → Keyed w.intents → Change w (run_delayed_query env cfg q w).1
  unfolding run_delayed_query Intents.get_by_id query
  run_delayed_query-Change q w keyed =
      let go : PaymentIntent → Action Done = λ pi.
        if status_eq pi.status requires_action || status_eq pi.status processing
        then ask_provider env cfg q pi
        else pure tt in
      bind_any (Change w) (Intents.get_by_id env q.pi_id) go w (inl (refl, refl)) (λ pi.
        elim (Bool-cases (status_eq pi.status requires_action || status_eq pi.status processing)) [
          | inl open_ ↦ rw open_ (ask_provider-Change q pi (tick w) keyed)
          | inr settled ↦ rw settled (inl (refl, refl))
        ])
