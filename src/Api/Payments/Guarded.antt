-- ===== src/Api/Payments/Guarded.antt =====
-- internal/api/paymentintent.go: what it takes for a request to reach the engine.
use zia.Base.{
  String, true, false, ◌≡◌, refl, sym, ap, subst, ◌∙◌, ◌⊎◌, inl, inr, Option, none, some, find,
  str_eq, nonempty,
}
use zia.Base.Int.{pos, ltb_ℤ}
use zia.Domain.Portal.{ApiKey}
use zia.Effects.Failure.{Result, ok, err}
use zia.Effects.World.{World, Env, tick}
use zia.Effects.Action.{query}
use zia.Routing.Engine.{RoutingEngine}
use zia.Orchestrator.Create.{CreateRequest, CreateResult, create_payment_intent}
use zia.Api.Handler.{
  Handler, Reply, answered, refused, invalid, ◌>>=◌, ◌>>◌, answer, attempt, require,
}
use zia.Api.Bearer.{is_bearer, token_of}
use zia.Effects.Cases.{Result-cases}
use zia.Api.Sequences.{attempt-ok, attempt-err}
use zia.Api.Outcomes.{is_answer, sequence_out, require_out, answered-clash, query-answered}
use zia.Portal.Keys.{key_by_hash}
use zia.Authn.{middleware, write_unauthorized}
use zia.Api.Payments.{
  PaymentRequest, PaymentView, payment_view, order_of, create_order, create_checked, create_from,
  create_payment, serve_create,
}

module _ (env : Env) (routing : RoutingEngine) (encode : CreateRequest → String)
    (sha256 : String → String) where
  -- What is answered where the engine was asked.
  abbrev pub reply_to : Result CreateResult → Reply PaymentView
  reply_to r = elim r [
    | ok result ↦ answered (payment_view result.payment_intent result.next_action)
    | err _ ↦ refused 422 "1005" "payment initiation failed"
  ]

  -- Refused, and nothing but time has passed.
  abbrev pub TurnedAway : World → Reply PaymentView × World → Type 0
  TurnedAway w (r, v) = (is_answer r ≡ false) × (v ≡ record w { calls = v.calls })

  abbrev pub Asked :
      Option (String × Option PaymentRequest) → String → World → Reply PaymentView × World → Type 0
  Asked body merchant_id w (r, v) =
      (id : String) × (req : PaymentRequest) × (body ≡ some (id, some req))
      × (ltb_ℤ (pos 0) req.amount ≡ true)
      × (nonempty req.currency ≡ true)
      × (nonempty req.method ≡ true)
      × (nonempty merchant_id ≡ true)
      × let (result, after) =
          create_payment_intent env routing encode (order_of merchant_id id req) w in
        (r ≡ reply_to result) × (v ≡ after)

  abbrev Checked :
      Option (String × Option PaymentRequest) → String → World → Reply PaymentView × World → Type 0
  Checked body m w end = TurnedAway w end ⊎ Asked body m w end

  order_created :
      (order : CreateRequest) (w : World)
      → create_order env routing encode order w ≡ (
          let (result, after) = create_payment_intent env routing encode order w in
          (reply_to result, after))
  unfolding create_order
  order_created order w =
      let ask = create_payment_intent env routing encode order in
      let v = (ask w).1 in
      let shown : CreateResult → Handler PaymentView =
        λ c. answer (payment_view c.payment_intent c.next_action) in
      elim (Result-cases (ask w).0) [
        | inl (c, h) ↦
            attempt-ok ask (refused 422 "1005" "payment initiation failed") shown w v c
              (ap (λ r. (r, v)) h)
            ∙ ap (λ r. (reply_to r, v)) (sym h)
        | inr (e, h) ↦
            attempt-err ask 422 "1005" "payment initiation failed" shown w v e (ap (λ r. (r, v)) h)
            ∙ ap (λ r. (reply_to r, v)) (sym h)
      ]

  create_payment-Checked :
      (body : Option (String × Option PaymentRequest)) (m : String) (w : World)
      → Checked body m w (create_payment env routing encode body m w)
  unfolding create_payment create_from create_checked
  create_payment-Checked none m w = inl (refl, refl)
  create_payment-Checked (some (id, none)) m w = inl (refl, refl)
  create_payment-Checked (some (id, some req)) m w =
      let P : Reply PaymentView × World → Type 0 = Checked (some (id, some req)) m w in
      let stops : (r : Reply PaymentView) → is_answer r ≡ false → P (r, w) =
        λ r stopped. inl (stopped, refl) in
      let order = create_order env routing encode (order_of m id req) in
      let own = require (nonempty m) (refused 401 "1002" "unauthorized") >> order in
      let way = require (nonempty req.method) (invalid "primaryData.method" "required") >> own in
      let money =
        require (nonempty req.currency) (invalid "primaryData.currency" "required") >> way in
      require_out P (ltb_ℤ (pos 0) req.amount)
        (invalid "primaryData.amountMinor" "must be greater than 0") money w refl stops
        (λ positive.
          require_out P (nonempty req.currency) (invalid "primaryData.currency" "required") way w
            refl stops
            (λ known.
              require_out P (nonempty req.method) (invalid "primaryData.method" "required") own w
                refl stops
                (λ chosen.
                  require_out P (nonempty m) (refused 401 "1002" "unauthorized") order w refl stops
                    (λ named.
                      let run = order_created (order_of m id req) w in
                      inr (
                        id,
                        req,
                        refl,
                        positive,
                        known,
                        chosen,
                        named,
                        (ap (λ e. e.0) run, ap (λ e. e.1) run),
                      )))))

  abbrev pub Key : String → World → ApiKey → Type 0
  Key header w k =
      (is_bearer header ≡ true)
      × (find (λ x. str_eq x.key_hash (sha256 (token_of header))) w.api.api_keys ≡ some k)

  -- The middleware changes nothing, and answers for a key that is on record.
  abbrev LetIn : String → World → Reply String × World → Type 0
  LetIn header w (r, v) =
      (v ≡ record w { calls = v.calls })
      × ((m : String)
          → r ≡ answered m
          → (k : ApiKey) × Key header w k × (m ≡ k.merchant_id) × (v ≡ tick w))

  answered-injective : {A : Type 0} (a b : A) → ◌≡◌ {A = Reply A} (answered a) (answered b) → b ≡ a
  answered-injective a b h = cc

  middleware-LetIn : (header : String) (w : World) → LetIn header w (middleware env sha256 header w)
  unfolding middleware key_by_hash query
  middleware-LetIn header w =
      let hash = sha256 (token_of header) in
      let P : Reply String × World → Type 0 = LetIn header w in
      let ask = key_by_hash env hash in
      let enter : ApiKey → Handler String = λ k. answer k.merchant_id in
      let o = find (λ x. str_eq x.key_hash hash) w.api.api_keys in
      require_out P (is_bearer header) write_unauthorized (attempt ask write_unauthorized >>= enter)
        w refl (λ r stopped. (refl, λ m h. absurd (answered-clash r m stopped h)))
        (λ bearer.
          sequence_out P (attempt ask write_unauthorized) enter w
            (λ r stopped. (refl, λ m h. absurd (answered-clash r m stopped h)))
            (λ k h. (
              refl,
              λ m same. (
                k,
                (
                  bearer,
                  query-answered 401 "1002" "unauthorized" env
                      (λ v. find (λ x. str_eq x.key_hash hash) v.api.api_keys) w k h,
                ),
                answered-injective k.merchant_id m same,
                refl,
              ),
            )))

  -- A request for a payment is refused, and then nothing has changed, or it was sent with a key that
  -- is on record, and with an amount above zero, a currency and a method. Then the engine was asked
  -- for the payment in the name of the merchant of that key, the answer shows what it returned, and
  -- nothing else has changed.
  pub serve_create-Asked :
      (header : String) (body : Option (String × Option PaymentRequest)) (w : World)
      → let end = serve_create env routing encode sha256 header body w in
        TurnedAway w end ⊎ ((k : ApiKey) × Key header w k × Asked body k.merchant_id (tick w) end)
  unfolding serve_create
  serve_create-Asked header body w =
      let Goal : Reply PaymentView × World → Type 0 = λ end.
        TurnedAway w end
        ⊎ ((k : ApiKey) × Key header w k × Asked body k.merchant_id (tick w) end) in
      let (same, key) = middleware-LetIn header w in
      sequence_out Goal (middleware env sha256 header) (create_payment env routing encode body) w
        (λ r stopped. inl (stopped, same))
        (λ m h.
          let (k, known, owner, after) = key m h in
          let checked : Goal (create_payment env routing encode body k.merchant_id (tick w)) =
            elim (create_payment-Checked body k.merchant_id (tick w)) [
              | inl (stopped, left) ↦ inl (stopped, left)
              | inr asked ↦ inr (k, known, asked)
            ] in
          subst
            (λ n.
              Goal (create_payment env routing encode body n (middleware env sha256 header w).1))
            (sym owner)
            (subst (λ v. Goal (create_payment env routing encode body k.merchant_id v)) (sym after)
              checked))
