-- ===== src/Connector/Mpesa/Unfinished.antt =====
-- internal/connector/mpesa/connector.go, `GetStatus`, as the delayed query of
-- internal/orchestrator/engine.go uses it.
use zia.Base.{
  ℕ, suc, String, true, false, ◌&&◌, ◌≡◌, ap, ◌∙◌, some, find, str_eq, str_eq_ne, ◌≢◌, arith,
}
use zia.Base.Dict.{lookup}
use zia.Domain.Intent.{PaymentIntent, PaymentIntentStatus, requires_action}
use zia.Domain.Attempt.{Attempt}
use zia.Domain.Message.{StatusResult, WebhookEvent}
use zia.Effects.Failure.{wrapf, Result, ok, err}
use zia.Effects.World.{World, Env, DelayedQuery}
use zia.Repository.Intents.{has_id, with_status}
use zia.Orchestrator.Outcome.{EngineConfig}
use zia.Orchestrator.Query.{run_delayed_query}
use zia.Orchestrator.Webhook.{handle_webhook_event}
use zia.Orchestrator.Premature.{run_delayed_query-premature}
use zia.Connector.Http.{HttpReply, ◌>>=◌, parse, then-ok, send-ok, parse-ok}
use zia.Connector.Mpesa.Token.{MpesaConfig, TokenManager, token}
use zia.Connector.Mpesa.Daraja.{
  DarajaCodec, Moment, QueryResponse, amount_of, stk_password, request, ask, get_status,
  status_of_text, daraja,
}

status_of_text-failed : (code : String) → code ≢ "0" → status_of_text code ≡ "failed"
unfolding status_of_text
status_of_text-failed code not_done = rw (str_eq_ne code "0" not_done) (ground arith)

-- What an answer to the query is reported as.
abbrev pub reported : QueryResponse → StatusResult
reported r = record {
  supported = true;
  status = status_of_text r.result_code;
  amount = amount_of r.items;
  currency = "";
}

module _ (cfg : MpesaConfig) (codec : DarajaCodec) (at : Moment) where
  abbrev pub query_body : String → String
  query_body psp_reference =
      let timestamp = codec.format_time at.requested_at in
      codec.query_request (record {
        business_short_code = cfg.short_code;
        password = stk_password cfg codec at timestamp;
        timestamp = timestamp;
        checkout_request_id = psp_reference;
      })

  ask-reported :
      (psp_reference tok : String) (reply : HttpReply) (r : QueryResponse)
      → at.api (request cfg codec at tok "/mpesa/stkpushquery/v1/query" (query_body psp_reference))
        ≡ some reply
      → codec.query_response reply.body ≡ some r
      → ask cfg codec at psp_reference tok ≡ ok (reported r)
  unfolding ask
  ask-reported psp_reference tok reply r replied decoded =
      then-ok _
        (λ resp.
          parse codec.query_response "parse query response" resp.body >>= λ x. ok (reported x))
        reply (send-ok at.api "query request" _ reply replied)
      ∙ then-ok _ (λ x. ok (reported x)) r
          (parse-ok codec.query_response "parse query response" reply.body r decoded)

  get_status-reported :
      (kept : TokenManager) (psp_reference tok : String) (reply : HttpReply) (r : QueryResponse)
      → (token cfg codec.token_codec at.auth at.asked_at at.fetched_at kept).0 ≡ ok tok
      → at.api (request cfg codec at tok "/mpesa/stkpushquery/v1/query" (query_body psp_reference))
        ≡ some reply
      → codec.query_response reply.body ≡ some r
      → (get_status cfg codec at psp_reference kept).0 ≡ ok (reported r)
  get_status-reported kept psp_reference tok reply r held replied decoded =
      ap
        (λ (t : Result String). elim t as (λ _. Result StatusResult) [
          | ok x ↦ ask cfg codec at psp_reference x
          | err e ↦ err (wrapf "auth" e)
        ])
        held
      ∙ ask-reported psp_reference tok reply r replied decoded

module _ (env : Env) (engine : EngineConfig) (up : (n : ℕ) → env.fails n ≡ false)
    (cfg : MpesaConfig) (codec : DarajaCodec) (at : ℕ → Moment) (kept : ℕ → TokenManager)
    (registered : lookup "mpesa" env.registry ≡ some (daraja cfg codec at kept)) where
  -- Where nothing of ours fails, the delayed query of a payment that waits for its customer fails it
  -- and posts nothing as soon as Daraja answers with any other result code than "0", or with none
  -- since it has no result yet. A webhook for the payment that comes next, even one that says it has
  -- succeeded, changes no intent and posts nothing.
  pub unfinished-failed :
      (pi_id attempt_id tok : String) (pi : PaymentIntent) (a b : Attempt) (w : World)
      (reply : HttpReply) (r : QueryResponse) (evt : WebhookEvent)
      → find (has_id pi_id) w.intents ≡ some pi
      → pi.status ≡ requires_action
      → find (λ x. str_eq x.id attempt_id) w.attempts ≡ some a
      → let call = suc (suc w.calls) in
        let m = at call in
        (token cfg codec.token_codec m.auth m.asked_at m.fetched_at (kept call)).0 ≡ ok tok
        → let call = suc (suc w.calls) in
          let m = at call in
          m.api (
              request cfg codec m tok "/mpesa/stkpushquery/v1/query"
                (query_body cfg codec m a.psp_reference))
            ≡ some reply
          → codec.query_response reply.body ≡ some r
          → r.result_code ≢ "0"
          → let q : DelayedQuery = record {
            pi_id = pi_id;
            attempt_id = attempt_id;
            psp = "mpesa";
          } in
            let w' = (run_delayed_query env engine q w).1 in
            find (λ x. str_eq x.psp evt.psp && str_eq x.psp_reference evt.psp_reference) w'.attempts
              ≡ some b
            → b.payment_intent_id ≡ pi.id
            → let q : DelayedQuery = record {
              pi_id = pi_id;
              attempt_id = attempt_id;
              psp = "mpesa";
            } in
              let w' = (run_delayed_query env engine q w).1 in
              let now = env.now (suc (suc (suc (suc w.calls)))) in
              let later = (handle_webhook_event env engine evt w').1 in
              (find (has_id pi.id) w'.intents
                ≡ some (with_status PaymentIntentStatus.failed now pi))
              × (w'.entries ≡ w.entries)
              × (later.intents ≡ w'.intents)
              × (later.entries ≡ w.entries)
  unfinished-failed pi_id attempt_id tok pi a b w reply r evt owner waits tried held replied decoded
        not_done matched owned =
      let call = suc (suc w.calls) in
      run_delayed_query-premature env engine up
        (record { pi_id = pi_id; attempt_id = attempt_id; psp = "mpesa" })
        (daraja cfg codec at kept) pi a (reported r) w registered owner waits tried
        (get_status-reported cfg codec (at call) (kept call) a.psp_reference tok reply r held
          replied decoded)
        (status_of_text-failed r.result_code not_done) evt b matched owned
