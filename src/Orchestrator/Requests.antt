-- ===== src/Orchestrator/Requests.antt =====
-- internal/orchestrator/engine.go: what a whole run of `CreatePaymentIntent` does to the intents and
-- the ledger.
use zia.Base.{
  String, false, ◌≡◌, refl, ap, subst, ◌∙◌, inl, inr, none, some, List, [], ◌∷◌, ◌++◌, arith,
  if◌then◌else◌, Bool-cases, Option-cases, nonempty, any,
}
use zia.Domain.Intent.{PaymentIntent}
use zia.Effects.Failure.{Error, errorf, ok, err}
use zia.Effects.World.{World, Env, Connector}
use zia.Effects.Action.{Action, pure, raise, exec, query, clock, new_uuid, ◌>>=◌, ◌>>◌, wrapped}
use zia.Effects.Cases.{bind-lem, bind_any, wrapped-ok, wrapped-err}
use zia.Repository.Intents
use zia.Repository.Intents.{has_id, same_key, clashes, set_status, with_status}
use zia.Routing.Engine.{RouteDecision, RoutingEngine}
use zia.Idempotency.{check, store}
use zia.Orchestrator.Create.{
  CreateRequest, CreateResult, first_registered, evaluate_risk, route_request, collect,
  save_and_collect, save_intent, remember, row_key, known, return_known, create_new,
  create_payment_intent,
}
use zia.Orchestrator.Change.{Same, is_paid}
use zia.Orchestrator.Touched.{Same-trans}
use zia.Orchestrator.Created.{Added, Created, Added-Same, collect-Added}

module _ (env : Env) (routing : RoutingEngine) (encode : CreateRequest → String) where
  no_clash :
      (pi : PaymentIntent) (pis : List PaymentIntent)
      → any (clashes pi) pis ≡ false
      → any (has_id pi.id) pis ≡ false
  no_clash pi [] h = refl
  no_clash pi (p ∷ pis) h = elim (Bool-cases (has_id pi.id p)) [
    | inl here ↦ ground arith
    | inr other ↦ rw other (no_clash pi pis (ground arith))
  ]

  create-Added :
      (w : World) (pi : PaymentIntent)
      → is_paid pi.status ≡ false
      → (Intents.create env pi w).0 ≡ ok tt
      → Added w pi.id (Intents.create env pi w).1
  unfolding Intents.create exec
  create-Added w pi unpaid h = elim (Bool-cases (any (clashes pi) w.intents)) [
    | inl clash ↦ ground arith
    | inr free ↦ elim (Bool-cases (env.fails w.calls)) [
      | inl down ↦ ground arith
      | inr up ↦ rw (free, up) (pi, refl, no_clash pi w.intents free, unpaid, refl, refl)
    ]
  ]

  create-failed :
      (w : World) (pi : PaymentIntent) (e : Error)
      → (Intents.create env pi w).0 ≡ err e
      → Same w (Intents.create env pi w).1
  unfolding Intents.create exec
  create-failed w pi e h = elim (Bool-cases (any (clashes pi) w.intents)) [
    | inl clash ↦ rw clash (refl, refl)
    | inr free ↦ elim (Bool-cases (env.fails w.calls)) [
      | inl down ↦ rw (free, down) (refl, refl)
      | inr up ↦ ground arith
    ]
  ]

  store-Same : (merchant_id key id : String) (w : World) → Same w (store env merchant_id key id w).1
  unfolding store exec
  store-Same merchant_id key id w = elim (Bool-cases (env.fails w.calls)) [
    | inl down ↦ rw down (refl, refl)
    | inr up ↦ rw up (refl, refl)
  ]

  remember-Same :
      (req : CreateRequest) (pi : PaymentIntent) (w : World)
      → Same w (remember env routing encode req pi w).1
  unfolding remember
  remember-Same req pi w = elim (Bool-cases (nonempty req.idempotency_key)) [
    | inl named ↦ rw named (store-Same req.merchant_id req.idempotency_key pi.id w)
    | inr unnamed ↦ rw unnamed (refl, refl)
  ]

  save_intent-Created :
      (w : World) (req : CreateRequest) (pi : PaymentIntent) (psp : String) (conn : Connector)
      → is_paid pi.status ≡ false
      → Created w (save_intent env routing encode req pi psp conn w).1
  unfolding save_intent
  save_intent-Created w req pi psp conn unpaid =
      let save = Intents.create env pi in
      let keep = remember env routing encode req pi in
      let ask = collect env routing encode req pi psp conn in
      let w₁ = (save w).1 in
      let w₂ = (keep w₁).1 in
      bind-lem (Created w) (wrapped "save payment intent" save) (λ _. keep >> ask) w
        (λ _ saved.
          let added₁ =
            create-Added w pi unpaid (wrapped-ok "save payment intent" save w tt saved) in
          let added₂ =
            Added-Same env routing encode w w₁ w₂ pi.id (remember-Same req pi w₁) added₁ in
          bind_any (Created w) keep (λ _. ask) w₁ (inr (pi.id, added₂))
            (λ _. inr (pi.id, collect-Added env routing encode w w₂ req pi psp conn added₂)))
        (λ e refused.
          let (x, failed_) = wrapped-err "save payment intent" save w e refused in
          inl (create-failed w pi x failed_))

  save_and_collect-Created :
      (w : World) (req : CreateRequest) (psp : String) (conn : Connector)
      → Created w (save_and_collect env routing encode req psp conn w).1
  unfolding save_and_collect row_key clock new_uuid
  save_and_collect-Created w req psp conn = elim (Bool-cases (nonempty req.idempotency_key)) [
    | inl named ↦ rw named (save_intent-Created _ req _ psp conn (unfold is_paid in refl))
    | inr unnamed ↦ rw unnamed (save_intent-Created _ req _ psp conn (unfold is_paid in refl))
  ]

  create_new-Created :
      (w : World) (req : CreateRequest) → Created w (create_new env routing encode req w).1
  unfolding create_new evaluate_risk route_request
  create_new-Created w req =
      let assess = evaluate_risk env routing encode req in
      let choose = route_request env routing encode req in
      let go : RouteDecision → Action CreateResult = λ decision.
        elim (first_registered env.registry (decision.primary ∷ decision.fallbacks)) [
          | none ↦ raise (errorf "no registered connector for method=%s" (req.method ∷ []))
          | some choice ↦ save_and_collect env routing encode req choice.0 choice.1
        ] in
      let w₁ = (assess w).1 in
      let w₂ = (choose w₁).1 in
      bind_any (Created w) (wrapped "risk check" assess) (λ _. wrapped "routing" choose >>= go) w
        (inl (refl, refl))
        (λ _. bind_any (Created w) (wrapped "routing" choose) go w₁ (inl (refl, refl)) (λ decision.
          elim (Option-cases
            (first_registered env.registry (decision.primary ∷ decision.fallbacks))) [
              | inl nobody ↦ rw nobody (inl (refl, refl))
              | inr (choice, there) ↦ rw there (save_and_collect-Created w₂ req choice.0 choice.1)
            ]))

  known-Same : (req : CreateRequest) (w : World) → Same w (known env routing encode req w).1
  unfolding known check query
  known-Same req w = elim (Bool-cases (nonempty req.idempotency_key)) [
    | inl named ↦ rw named (refl, refl)
    | inr unnamed ↦ rw unnamed (refl, refl)
  ]

  Created-Same : (w₀ w w' : World) → Same w₀ w → Created w w' → Created w₀ w'
  Created-Same w₀ w w' same (inl s) = inl (Same-trans w₀ w w' same s)
  Created-Same w₀ w w' same (inr (id, (pi, own, fresh, unpaid, grown, kept))) = inr (
    id,
    (
      pi,
      own,
      subst (λ l. any (has_id id) l ≡ false) same.0 fresh,
      unpaid,
      grown ∙ ap (λ l. l ++ pi ∷ []) same.0,
      kept ∙ same.1,
    ),
  )

  -- A request for a payment changes no row of the intents, or adds one under an id that no other row
  -- has, for a payment that has not succeeded. It posts nothing to the ledger.
  pub create_payment_intent-Created :
      (req : CreateRequest) (w : World)
      → Created w (create_payment_intent env routing encode req w).1
  unfolding create_payment_intent return_known Intents.get_by_id query
  create_payment_intent-Created req w =
      let look = known env routing encode req in
      let go : String → Action CreateResult = λ existing.
        if nonempty existing
        then return_known env routing encode existing
        else create_new env routing encode req in
      let w₁ = (look w).1 in
      let same = known-Same req w in
      bind_any (Created w) look go w (inl same) (λ existing. elim (Bool-cases (nonempty existing)) [
        | inl hit ↦ rw hit (
            bind_any (Created w) (Intents.get_by_id env existing) (λ pi. pure _) w₁ (inl same)
              (λ _. inl same))
        | inr miss ↦ rw miss (
            Created-Same w w₁ (create_new env routing encode req w₁).1 same
              (create_new-Created w₁ req))
      ])
