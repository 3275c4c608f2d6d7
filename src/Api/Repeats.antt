-- ===== src/Api/Repeats.antt =====
-- internal/api/webhook.go: what becomes of a webhook that its provider sends again.
use zia.Base.{
  ℕ, suc, String, Bool, true, false, ◌≡◌, refl, sym, ap, ◌∙◌, Option, some, List, [], ◌∷◌, ◌++◌,
  any, str_eq, str_eq_self, nonempty, subst, arith,
}
use zia.Base.Dict.{lookup}
use zia.Domain.Message.{WebhookEvent}
use zia.Domain.Portal.{WebhookRow}
use zia.Effects.Failure.{Result, external, ok, err}
use zia.Effects.World.{World, Env, ApiState, Connector, tick}
use zia.Effects.Action.{Action, Done, ◌>>=◌, exec, clock, new_uuid}
use zia.Effects.Cases.{bind_run}
use zia.Orchestrator.Outcome.{EngineConfig}
use zia.Webhook.Dispatcher.{HttpResponse, DispatchPayload}
use zia.Webhook.Processor.{mark, handle_event_and_dispatch}
use zia.Webhook.Stream.{publish_webhook}
use zia.Api.Handler.{answered}
use zia.Api.Ingest.{create_row, row_of, or_else, ingest_event, ingest_body, ingest_from, ingest}

abbrev pub has_key : String → List WebhookRow → Bool
has_key key rows = any (λ r. str_eq r.dedup_key key) rows

-- The handlers' state is this one, and no payment and no posting has changed.
abbrev Left : World → ApiState → World → Type 0
Left w api w' = (w'.api ≡ api) × (w'.intents ≡ w.intents) × (w'.entries ≡ w.entries)

has_key-append :
    (key : String) (rows : List WebhookRow) (row : WebhookRow)
    → row.dedup_key ≡ key
    → has_key key (rows ++ row ∷ []) ≡ true
has_key-append key [] row same = rw same (rw (str_eq_self key) refl)
has_key-append key (r ∷ rows) row same = ground (arith, has_key-append key rows row same)

module _ (env : Env) (up : (n : ℕ) → env.fails n ≡ false) where
  mark-Left : (key : String) (w : World) → Left w w.api (mark env key w).1
  unfolding mark exec
  mark-Left key w = rw (up w.calls) (refl, refl, refl)

  row-created :
      (row : WebhookRow) (w : World)
      → has_key row.dedup_key w.api.webhook_rows ≡ false
      → create_row env row w ≡ (
        ok tt,
        tick (record w { api = record w.api { webhook_rows = w.api.webhook_rows ++ row ∷ [] } }),
      )
  unfolding create_row exec
  row-created row w fresh = rw (fresh, up w.calls) refl

  row-refused :
      (row : WebhookRow) (w : World)
      → has_key row.dedup_key w.api.webhook_rows ≡ true
      → (create_row env row w) ≡ (err external, tick w)
  unfolding create_row
  row-refused row w there = rw there refl

  published :
      (event : WebhookEvent) (w : World)
      → publish_webhook env true event w ≡ (
        ok tt,
        tick (record w { api = record w.api { webhook_stream = event ∷ w.api.webhook_stream } }),
      )
  unfolding publish_webhook exec
  published event w = rw (up w.calls) refl

  abbrev on_stream : WebhookEvent → ApiState → ApiState
  on_stream event api = record api { webhook_stream = event ∷ api.webhook_stream }

  abbrev with_row : WebhookRow → ApiState → ApiState
  with_row row api = record api { webhook_rows = api.webhook_rows ++ row ∷ [] }

  publish-Left :
      (event : WebhookEvent) (k : Action Done) (v w : World) (api : ApiState)
      → Left v api w
      → Left v (on_stream event api) (or_else (publish_webhook env true event) k w).1
  publish-Left event k v w api (a, i, e) =
      let runs : or_else (publish_webhook env true event) k w
          ≡ (ok tt, tick (record w { api = on_stream event w.api })) =
        ap
          (λ (q : Result (Unit {0}) × World). elim q.0 as (λ _. Result (Unit {0}) × World) [
            | ok _ ↦ (ok tt, q.1)
            | err _ ↦ k q.1
          ])
          (published event w) in
      (
        ap (λ m. m.1.api) runs ∙ ap (on_stream event) a,
        ap (λ m. m.1.intents) runs ∙ i,
        ap (λ m. m.1.entries) runs ∙ e,
      )

  module _ (cfg : EngineConfig) (answer : ℕ → String → String → Option HttpResponse)
      (encode : DispatchPayload → String) (event : WebhookEvent) where
    abbrev row : World → WebhookRow
    row w = row_of (env.uuid (suc w.calls)) (env.now w.calls) event

    abbrev once : World → World
    once w = (ingest_event env cfg answer encode true event w).1

    first-Left :
        (w : World)
        → has_key event.dedup_key w.api.webhook_rows ≡ false
        → Left w (on_stream event (with_row (row w) w.api)) (once w)
    unfolding ingest_event clock new_uuid
    first-Left w fresh =
        let w₂ = tick (tick w) in
        let w₃ = tick (record w₂ { api = with_row (row w) w.api }) in
        let keep = λ (_ : Unit {0}). mark env event.dedup_key in
        let runs = bind_run (create_row env (row w)) keep w₂ w₃ tt (row-created (row w) w₂ fresh) in
        let marked : Left w (with_row (row w) w.api) ((create_row env (row w) >>= keep) w₂).1 =
          subst (λ m. Left w (with_row (row w) w.api) m.1) (sym runs)
            (mark-Left event.dedup_key w₃) in
        publish-Left event
          (handle_event_and_dispatch env cfg answer encode event (env.uuid (suc w.calls))) w
          ((create_row env (row w) >>= keep) w₂).1 (with_row (row w) w.api) marked

    again-Left :
        (w : World)
        → has_key event.dedup_key w.api.webhook_rows ≡ true
        → Left w (on_stream event w.api) (once w)
    unfolding ingest_event clock new_uuid
    again-Left w there =
        let w₂ = tick (tick w) in
        let keep = λ (_ : Unit {0}). mark env event.dedup_key in
        let stops : ((create_row env (row w) >>= keep) w₂).1 ≡ tick w₂ =
          ap
            (λ (q : Result (Unit {0}) × World).
              let end : Result (Unit {0}) × World = elim q.0 [
                | ok x ↦ keep x q.1
                | err e ↦ (err e, q.1)
              ] in
              end.1)
            (row-refused (row w) w₂ there) in
        publish-Left event
          (handle_event_and_dispatch env cfg answer encode event (env.uuid (suc w.calls))) w
          ((create_row env (row w) >>= keep) w₂).1 w.api
          (subst (λ v. Left w w.api v) (sym stops) (refl, refl, refl))

    ingest-once :
        (psp body : String) (conn : Connector) (w : World)
        → nonempty psp ≡ true
        → lookup psp env.registry ≡ some conn
        → conn.parse_webhook body ≡ ok event
        → ingest env cfg answer encode true psp (some body) w ≡ (answered tt, once w)
    unfolding ingest ingest_from ingest_body
    ingest-once psp body conn w named registered parses =
        rw named (rw (registered, ingest) (rw (parses, ingest_body) refl))

    -- Where nothing of ours fails and there is a stream, a webhook that is received twice is answered
    -- alike both times. One row is kept of it, under its deduplication key, if there was none; but it
    -- is put on the stream twice. No intent and no entry is touched.
    pub ingest-repeated :
        (psp body : String) (conn : Connector) (w : World)
        → nonempty psp ≡ true
        → lookup psp env.registry ≡ some conn
        → conn.parse_webhook body ≡ ok event
        → has_key event.dedup_key w.api.webhook_rows ≡ false
        → let (r₁, w₁) = ingest env cfg answer encode true psp (some body) w in
          let (r₂, w₂) = ingest env cfg answer encode true psp (some body) w₁ in
          (r₁ ≡ answered tt)
          × (r₂ ≡ answered tt)
          × (w₂.api ≡ record w.api {
            webhook_rows = w.api.webhook_rows ++ row w ∷ [];
            webhook_stream = event ∷ event ∷ w.api.webhook_stream;
          })
          × (w₂.intents ≡ w.intents)
          × (w₂.entries ≡ w.entries)
    ingest-repeated psp body conn w named registered parses fresh =
        let take_in = ingest env cfg answer encode true psp (some body) in
        let w₁ = once w in
        let one = ingest-once psp body conn w named registered parses in
        let two : take_in (take_in w).1 ≡ (answered tt, once w₁) =
          ap (λ m. take_in m.1) one ∙ ingest-once psp body conn w₁ named registered parses in
        let (api₁, intents₁, entries₁) = first-Left w fresh in
        let there : has_key event.dedup_key w₁.api.webhook_rows ≡ true =
          ap (λ a. has_key event.dedup_key a.webhook_rows) api₁
          ∙ has_key-append event.dedup_key w.api.webhook_rows (row w) refl in
        let (api₂, intents₂, entries₂) = again-Left w₁ there in
        (
          ap (λ m. m.0) one,
          ap (λ m. m.0) two,
          ap (λ m. m.1.api) two ∙ api₂ ∙ ap (on_stream event) api₁,
          ap (λ m. m.1.intents) two ∙ intents₂ ∙ intents₁,
          ap (λ m. m.1.entries) two ∙ entries₂ ∙ entries₁,
        )
