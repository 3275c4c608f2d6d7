-- ===== src/Api/Checkout/Polled.antt =====
-- internal/api/checkout.go: what the token of a checkout shows.
use zia.Base.{
  ℕ, suc, String, true, false, ◌<>◌, ◌≡◌, refl, ap, ◌∙◌, some, [], ◌∷◌, ◌++◌, any, find, str_eq,
  str_eq_self, nonempty, find-append_last,
}
use zia.Base.Int.{ℤ, pos, ltb_ℤ}
use zia.Domain.Intent.{PaymentIntent}
use zia.Domain.Portal.{CheckoutSession}
use zia.Effects.Failure.{ok}
use zia.Effects.World.{World, Env, tick}
use zia.Effects.Action.{exec, query}
use zia.Repository.Intents
use zia.Repository.Intents.{has_id}
use zia.Routing.Engine.{RoutingEngine}
use zia.Orchestrator.Create.{CreateRequest, CreateResult, create_payment_intent}
use zia.Api.Handler.{Handler, answered, refused, invalid, ◌>>◌, answer, require}
use zia.Api.Sequences.{attempt-ok, require-true}
use zia.Api.Checkout.{
  CheckoutRequest, CheckoutStatus, insert_session, session_of_token, build_request, session_for,
  checkout_view, open_checkout, pay_at_checkout, checkout_with, create_checkout, show_status,
  checkout_status,
}

module _ (env : Env) (up : (n : ℕ) → env.fails n ≡ false) (routing : RoutingEngine)
    (encode : CreateRequest → String) (ui_config : ℤ → String → String) where
  abbrev pub opened : CheckoutRequest → CreateResult → World → CheckoutSession
  opened req result v =
      session_for env routing encode ui_config req result (env.now v.calls)
        ("cs_" <> env.uuid (suc v.calls)) (env.uuid (suc (suc v.calls)))

  checkout-opened :
      (req : CheckoutRequest) (result : CreateResult) (v : World)
      → any (λ x. str_eq x.public_token (opened req result v).public_token) v.api.checkouts ≡ false
      → let s = opened req result v in
        open_checkout env routing encode ui_config req result v ≡ (
          answered (checkout_view env routing encode ui_config s result),
          record v {
            api = record v.api { checkouts = v.api.checkouts ++ s ∷ [] };
            calls = suc (suc (suc (suc v.calls)));
          },
        )
  unfolding open_checkout insert_session exec
  checkout-opened req result v fresh =
      let s = opened req result v in
      let v₃ = tick (tick (tick v)) in
      attempt-ok (insert_session env s) (refused 500 "500" "failed to create checkout session")
        (λ _. answer (checkout_view env routing encode ui_config s result)) v₃
        (tick (record v₃ { api = record v.api { checkouts = v.api.checkouts ++ s ∷ [] } })) tt
        (rw fresh (rw (up v₃.calls) refl))

  checkout-run :
      (m id : String) (req : CheckoutRequest) (result : CreateResult) (w v : World)
      → ltb_ℤ (pos 0) req.amount ≡ true
      → nonempty req.currency ≡ true
      → create_payment_intent env routing encode (build_request m id req) w ≡ (ok result, v)
      → create_checkout env routing encode ui_config m (some (id, some req)) w
        ≡ open_checkout env routing encode ui_config req result v
  unfolding create_checkout checkout_with pay_at_checkout
  checkout-run m id req result w v positive known created =
      let pay = pay_at_checkout env routing encode ui_config m id req in
      require-true (ltb_ℤ (pos 0) req.amount) (invalid "amountMinor" "must be positive")
        (require (nonempty req.currency) (invalid "currency" "required") >> pay) w positive
      ∙ require-true (nonempty req.currency) (invalid "currency" "required") pay w known
      ∙ attempt-ok (create_payment_intent env routing encode (build_request m id req))
          (refused 500 "500" "failed to create payment")
          (open_checkout env routing encode ui_config req) w v result created

  status-shown :
      (token : String) (s : CheckoutSession) (pi : PaymentIntent) (w : World)
      → find (λ x. str_eq x.public_token token) w.api.checkouts ≡ some s
      → find (has_id s.payment_intent_id) w.intents ≡ some pi
      → (checkout_status env token w).0
        ≡ answered (record {
          token = token;
          payment_intent_id = pi.id;
          status = pi.status;
          amount = pi.amount;
          currency = pi.currency;
        })
  unfolding checkout_status show_status session_of_token Intents.get_by_id query
  status-shown token s pi w here there =
      let shown : PaymentIntent → Handler CheckoutStatus = λ p. answer (record {
        token = token;
        payment_intent_id = p.id;
        status = p.status;
        amount = p.amount;
        currency = p.currency;
      }) in
      ap (λ q. q.0)
        (attempt-ok (session_of_token env token) (refused 404 "404" "checkout session not found")
            (show_status env token) w (tick w) s (rw (up w.calls, here) refl)
          ∙ attempt-ok (Intents.get_by_id env s.payment_intent_id)
              (refused 404 "404" "payment not found") shown (tick w) (tick (tick w)) pi
              (rw (up (suc w.calls), there) refl))

  -- Where nothing of ours fails and the engine takes the payment, a checkout answers with a token.
  -- While the table of checkouts stays, that token shows the payment as it is by then, also after
  -- the session has expired. The token must be no session's yet.
  pub create_checkout-checkout_status :
      (m id : String) (req : CheckoutRequest) (result : CreateResult) (pi : PaymentIntent)
      (w v later : World)
      → ltb_ℤ (pos 0) req.amount ≡ true
      → nonempty req.currency ≡ true
      → create_payment_intent env routing encode (build_request m id req) w ≡ (ok result, v)
      → any (λ x. str_eq x.public_token (opened req result v).public_token) v.api.checkouts ≡ false
      → later.api.checkouts
        ≡ (create_checkout env routing encode ui_config m (some (id, some req)) w).1.api.checkouts
      → find (has_id result.payment_intent.id) later.intents ≡ some pi
      → let s = opened req result v in
        ((create_checkout env routing encode ui_config m (some (id, some req)) w).0
          ≡ answered (checkout_view env routing encode ui_config s result))
        × ((checkout_status env s.public_token later).0
            ≡ answered (record {
              token = s.public_token;
              payment_intent_id = pi.id;
              status = pi.status;
              amount = pi.amount;
              currency = pi.currency;
            }))
  create_checkout-checkout_status m id req result pi w v later positive known created fresh same
        there =
      let s = opened req result v in
      let run =
        checkout-run m id req result w v positive known created
        ∙ checkout-opened req result v fresh in
      let mine = λ (x : CheckoutSession). str_eq x.public_token s.public_token in
      let here : find mine later.api.checkouts ≡ some s =
        ap (find mine) (same ∙ ap (λ q. q.1.api.checkouts) run)
        ∙ find-append_last mine v.api.checkouts s fresh (str_eq_self s.public_token) in
      (ap (λ q. q.0) run, status-shown s.public_token s pi later here there)
