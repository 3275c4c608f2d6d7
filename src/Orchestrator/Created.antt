-- ===== src/Orchestrator/Created.antt =====
-- internal/orchestrator/engine.go: what `CreatePaymentIntent` does to the intents and the ledger.
use zia.Base.{
  ℕ, suc, String, false, ◌&&◌, ◌≡◌, refl, ap, ◌∙◌, ◌⊎◌, inl, inr, List, [], ◌∷◌, ◌++◌, arith,
  if◌then◌else◌, Bool-cases, str_eq, str_eq_iff, any,
}
use zia.Domain.Intent.{
  PaymentIntent, PaymentIntentStatus, created, requires_action, failed, status_eq, status_text,
}
use zia.Domain.Attempt.{Attempt}
use zia.Domain.Message.{CollectionResult}
use zia.Effects.Failure.{errorf}
use zia.Effects.World.{World, Env, Connector, tick}
use zia.Effects.Action.{Action, Done, pure, raise, exec, clock, new_uuid, ◌>>◌, wrapped}
use zia.Effects.Cases.{Result-cases, bind_any}
use zia.Repository.Attempts
use zia.Repository.Intents
use zia.Repository.Intents.{has_id, same_key, clashes, set_status, with_status}
use zia.Routing.Engine.{RoutingEngine}
use zia.Orchestrator.State.{is_valid_transition}
use zia.Orchestrator.Query.{schedule_delayed_query}
use zia.Orchestrator.Create.{
  CreateRequest, CreateResult, collection_status, fail_intent, save_attempt, advance, new_attempt,
  collect, request_of,
}
use zia.Orchestrator.Change.{Same, is_paid}

-- A row was added under an id that no other row has, for a payment that has not succeeded, and
-- nothing was posted.
abbrev pub Added : World → String → World → Type 0
Added w id w' =
    (pi : PaymentIntent) × (pi.id ≡ id)
    × (any (has_id id) w.intents ≡ false)
    × (is_paid pi.status ≡ false)
    × (w'.intents ≡ w.intents ++ pi ∷ [])
    × (w'.entries ≡ w.entries)

abbrev pub Created : World → World → Type 0
Created w w' = Same w w' ⊎ ((id : String) × Added w id w')

-- Setting the status of the row that was added.
set_status-append :
    (id : String) (s : PaymentIntentStatus) (now : ℕ) (pis : List PaymentIntent)
    (pi : PaymentIntent)
    → pi.id ≡ id
    → any (has_id id) pis ≡ false
    → set_status id s now (pis ++ pi ∷ []) ≡ pis ++ with_status s now pi ∷ []
unfolding set_status
set_status-append id s now [] pi own fresh = rw ((str_eq_iff pi.id id).1 own) refl
set_status-append id s now (p ∷ pis) pi own fresh = elim (Bool-cases (has_id id p)) [
  | inl here ↦ ground arith
  | inr other ↦ rw other (ap (λ ps. p ∷ ps) (set_status-append id s now pis pi own (ground arith)))
]

module _ (env : Env) (routing : RoutingEngine) (encode : CreateRequest → String) where
  update_status-Added :
      (w₀ w : World) (id : String) (s : PaymentIntentStatus)
      → is_paid s ≡ false
      → Added w₀ id w
      → Added w₀ id (Intents.update_status env id s w).1
  unfolding Intents.update_status exec
  update_status-Added w₀ w id s unpaid (pi, own, fresh, open_, grown, kept) =
      elim (Bool-cases (env.fails w.calls)) [
        | inl down ↦ rw down (pi, own, fresh, open_, grown, kept)
        | inr up ↦
            let set =
              ap (set_status id s (env.now w.calls)) grown
              ∙ set_status-append id s (env.now w.calls) w₀.intents pi own fresh in
            rw up (with_status s (env.now w.calls) pi, own, fresh, unpaid, set, kept)
      ]

  attempt_create-Same : (a : Attempt) (w : World) → Same w (Attempts.create env a w).1
  unfolding Attempts.create exec
  attempt_create-Same a w = elim (Bool-cases (env.fails w.calls)) [
    | inl down ↦ rw down (refl, refl)
    | inr up ↦ rw up (refl, refl)
  ]

  pub Added-Same : (w₀ w w' : World) (id : String) → Same w w' → Added w₀ id w → Added w₀ id w'
  Added-Same w₀ w w' id (i, e) (pi, own, fresh, open_, grown, kept) =
      (pi, own, fresh, open_, i ∙ grown, e ∙ kept)

  fail_intent-Added :
      (w₀ w : World) (pi : PaymentIntent)
      → Added w₀ pi.id w
      → Added w₀ pi.id (fail_intent env routing encode pi w).1
  unfolding fail_intent clock
  fail_intent-Added w₀ w pi added =
      let w₁ = tick w in
      let set = wrapped "update pi status" (Intents.update_status env pi.id failed) in
      let failed_ = update_status-Added w₀ w₁ pi.id failed (unfold is_paid in refl) added in
      bind_any {B = CreateResult} (Added w₀ pi.id) set (λ _. pure _) w₁ failed_ (λ _. failed_)

  collection_status-unpaid :
      (result : CollectionResult) → is_paid (collection_status result).0 ≡ false
  unfolding collection_status is_paid
  collection_status-unpaid result = elim (Bool-cases (str_eq result.status "processing")) [
    | inl started ↦ rw started refl
    | inr waits ↦ rw waits refl
  ]

  advance-Added :
      (w₀ w : World) (pi : PaymentIntent) (psp attempt_id : String) (result : CollectionResult)
      → Added w₀ pi.id w
      → Added w₀ pi.id (advance env routing encode pi psp attempt_id result w).1
  unfolding advance clock schedule_delayed_query
  advance-Added w₀ w pi psp attempt_id result added =
      let P = Added w₀ pi.id in
      let s = (collection_status result).0 in
      let w₁ = tick w in
      let set : Action Done =
        if is_valid_transition created s
        then wrapped "update pi status" (Intents.update_status env pi.id s)
        else raise (
            errorf "invalid transition from %s to %s" (status_text created ∷ status_text s ∷ [])) in
      let plan : Action Done =
        if str_eq psp "mpesa" && status_eq s requires_action
        then schedule_delayed_query pi.id attempt_id psp
        else pure tt in
      let moved : P (set w₁).1 = elim (Bool-cases (is_valid_transition created s)) [
        | inl valid ↦
            rw valid (update_status-Added w₀ w₁ pi.id s (collection_status-unpaid result) added)
        | inr invalid ↦ rw invalid added
      ] in
      let planned : (v : World) → P v → P (plan v).1 = λ v h.
        elim (Bool-cases (str_eq psp "mpesa" && status_eq s requires_action)) [
          | inl yes_ ↦ rw (yes_, schedule_delayed_query) h
          | inr no_ ↦ rw no_ h
        ] in
      bind_any {B = CreateResult} P set (λ _. plan >> pure _) w₁ moved
        (λ _.
          bind_any {B = CreateResult} P plan (λ _. pure _) (set w₁).1 (planned (set w₁).1 moved)
            (λ _. planned (set w₁).1 moved))

  save_attempt-Added :
      (w₀ w : World) (req : CreateRequest) (pi : PaymentIntent) (psp : String)
      (result : CollectionResult)
      → Added w₀ pi.id w
      → Added w₀ pi.id (save_attempt env routing encode req pi psp result w).1
  unfolding save_attempt clock new_uuid
  save_attempt-Added w₀ w req pi psp result added =
      let c = w.calls in
      let w₁ = tick (tick (tick w)) in
      let attempt =
        new_attempt pi psp result (env.uuid c) (encode req) (env.now (suc c))
          (env.now (suc (suc c))) in
      let saved =
        Added-Same w₀ w₁ (Attempts.create env attempt w₁).1 pi.id (attempt_create-Same attempt w₁)
          added in
      bind_any (Added w₀ pi.id) (wrapped "save attempt" (Attempts.create env attempt))
        (λ _. advance env routing encode pi psp (env.uuid c) result) w₁ saved
        (λ _. advance-Added w₀ (Attempts.create env attempt w₁).1 pi psp (env.uuid c) result saved)

  pub collect-Added :
      (w₀ w : World) (req : CreateRequest) (pi : PaymentIntent) (psp : String) (conn : Connector)
      → Added w₀ pi.id w
      → Added w₀ pi.id (collect env routing encode req pi psp conn w).1
  unfolding collect
  collect-Added w₀ w req pi psp conn added =
      elim (Result-cases (conn.initiate_collection w.calls (request_of req pi))) [
        | inl (result, accepted) ↦
            rw (accepted, collect) (save_attempt-Added w₀ (tick w) req pi psp result added)
        | inr (e, refused) ↦ rw (refused, collect) (fail_intent-Added w₀ (tick w) pi added)
      ]
