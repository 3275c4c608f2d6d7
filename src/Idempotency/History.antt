-- ===== src/Idempotency/History.antt =====
-- What internal/idempotency/store.go promises over any sequence of calls of Redis, which also holds
-- the keys of internal/webhook/dedup.go.
use zia.Base.{
  ℕ, ◌+◌, String, Bool, true, false, ◌&&◌, ◌≡◌, refl, ap, ◌∙◌, inl, inr, Option, none, some, List,
  [], ◌∷◌, if◌then◌else◌, ltb, length, All, str_eq, Bool-cases, arith,
}
use zia.Base.Dict.{lookup, lookup-insert}
use zia.Effects.Failure.{Result, ok, err, wrapf, external}
use zia.Effects.World.{World, Env, RedisEntry}
use zia.Effects.Action.{exec, query}
use zia.Idempotency.{ttl, redis_key, live, check, store}
use zia.Idempotency.Laws.{Plain, redis_key_same, dedup_apart}
use zia.Webhook.Processor.{dedup_redis_key, mark}

-- A call of the store of keys, or of the deduplicator of webhooks.
pub data Call : Type 0 where
  stores : String → String → String → Call
  checks : String → String → Call
  marks : String → Call

-- The world after some calls, the latest first.
unfoldable pub run : Env → List Call → World → World
run env [] w = w
run env (stores m k id ∷ past) w = (store env m k id (run env past w)).1
run env (checks m k ∷ past) w = (check env m k (run env past w)).1
run env (marks key ∷ past) w = (mark env key (run env past w)).1

-- Every merchant of the calls has an id without a colon.
abbrev pub PlainCall : Call → Type 0
PlainCall (stores m k id) = Plain m
PlainCall (checks m k) = Plain m
PlainCall (marks key) = Unit

-- The id of the last `Store` for the merchant and the key that did not fail, with the time of it;
-- `n` calls of the outside were made before.
unfoldable pub last_store : Env → String → String → ℕ → List Call → Option (String × ℕ)
last_store env m k n [] = none
last_store env m k n (stores m' k' id ∷ past) =
    let earlier = last_store env m k n past in
    let made = n + length past in
    if env.fails made
    then earlier
    else if str_eq m' m && str_eq k' k
    then some (id, env.now made)
    else earlier
last_store env m k n (checks m' k' ∷ past) = last_store env m k n past
last_store env m k n (marks key ∷ past) = last_store env m k n past

-- It is kept for 24 hours.
abbrev pub promised : ℕ → Option (String × ℕ) → String
promised now none = ""
promised now (some (id, at)) = if ltb now (at + ttl) then id else ""

run-calls :
    (env : Env) (past : List Call) (w : World) → (run env past w).calls ≡ w.calls + length past
unfolding run store check mark exec query
run-calls env [] w = omega arith
run-calls env (stores m k id ∷ past) w = ground (arith, run-calls env past w)
run-calls env (checks m k ∷ past) w = ground (arith, run-calls env past w)
run-calls env (marks key ∷ past) w = ground (arith, run-calls env past w)

abbrev entry_of : Option (String × ℕ) → Option RedisEntry
entry_of none = none
entry_of (some (id, at)) = some (record { value = id; expires_at = at + ttl })

store-lookup :
    (env : Env) (m k m' k' id : String) (w : World)
    → Plain m
    → Plain m'
    → lookup (redis_key m k) (store env m' k' id w).1.redis ≡ (
        if env.fails w.calls
        then lookup (redis_key m k) w.redis
        else if str_eq m' m && str_eq k' k
        then entry_of (some (id, env.now w.calls))
        else lookup (redis_key m k) w.redis)
unfolding store exec
store-lookup env m k m' k' id w plain plain' =
    let entry : RedisEntry = record { value = id; expires_at = env.now w.calls + ttl } in
    elim (Bool-cases (env.fails w.calls)) [
      | inl fails ↦ rw fails refl
      | inr works ↦ rw works (
          lookup-insert (redis_key m' k') (redis_key m k) entry w.redis
          ∙ rw (redis_key_same m' m k' k plain' plain) refl)
    ]

check-redis : (env : Env) (m k : String) (w : World) → (check env m k w).1.redis ≡ w.redis
unfolding check query
check-redis env m k w = refl

mark-lookup :
    (env : Env) (m k key : String) (w : World)
    → lookup (redis_key m k) (mark env key w).1.redis ≡ lookup (redis_key m k) w.redis
unfolding mark exec
mark-lookup env m k key w = elim (Bool-cases (env.fails w.calls)) [
  | inl fails ↦ rw fails refl
  | inr works ↦ rw works (
      lookup-insert (dedup_redis_key key) (redis_key m k) _ w.redis ∙ rw (dedup_apart key m k) refl)
]

entry_if :
    (a b : Bool) (x y : Option (String × ℕ))
    → (if a then entry_of y else if b then entry_of x else entry_of y)
      ≡ entry_of (if a then y else if b then x else y)
entry_if true b x y = refl
entry_if false true x y = refl
entry_if false false x y = refl

run-lookup :
    (env : Env) (m k : String) (past : List Call) (w : World)
    → Plain m
    → All PlainCall past
    → lookup (redis_key m k) w.redis ≡ none
    → lookup (redis_key m k) (run env past w).redis ≡ entry_of (last_store env m k w.calls past)
unfolding run last_store
run-lookup env m k [] w plain plains absent = absent
run-lookup env m k (stores m' k' id ∷ past) w plain (plain', plains) absent =
    let so_far = run-lookup env m k past w plain plains absent in
    store-lookup env m k m' k' id (run env past w) plain plain'
    ∙ rw (run-calls env past w, so_far)
        (entry_if (env.fails (w.calls + length past)) (str_eq m' m && str_eq k' k)
          (some (id, env.now (w.calls + length past))) (last_store env m k w.calls past))
run-lookup env m k (checks m' k' ∷ past) w plain (plain', plains) absent =
    ap (lookup (redis_key m k)) (check-redis env m' k' (run env past w))
    ∙ run-lookup env m k past w plain plains absent
run-lookup env m k (marks key ∷ past) w plain (plain', plains) absent =
    mark-lookup env m k key (run env past w) ∙ run-lookup env m k past w plain plains absent

live-promised :
    (now : ℕ) (m k : String) (w : World) (o : Option (String × ℕ))
    → lookup (redis_key m k) w.redis ≡ entry_of o
    → live now (redis_key m k) w ≡ promised now o
live-promised now m k w none there = rw (there, live) refl
live-promised now m k w (some (id, at)) there = rw (there, live) refl

wrapped_if :
    (b : Bool) (text id : String)
    → (elim (if b then err external else ok id) as (λ _. Result String) [
      | ok a ↦ ok a
      | err e ↦ err (wrapf text e)
    ])
      ≡ (if b then err (wrapf text external) else ok id)
wrapped_if true text id = refl
wrapped_if false text id = refl

check-reads :
    (env : Env) (m k : String) (w : World) (o : Option (String × ℕ))
    → lookup (redis_key m k) w.redis ≡ entry_of o
    → (check env m k w).0 ≡ (
        if env.fails w.calls
        then err (wrapf "redis get" external)
        else ok (promised (env.now w.calls) o))
unfolding check query
check-reads env m k w o there =
    wrapped_if (env.fails w.calls) "redis get" (live (env.now w.calls) (redis_key m k) w)
    ∙ rw (live-promised (env.now w.calls) m k w o there) refl

-- After any calls of Redis, any of which may have failed, where no merchant has a colon in its id
-- and the key was not there at first: `Check` returns the id of the last `Store` for this very
-- merchant and key that did not fail, if it is asked within 24 hours of it, and the empty text
-- where there was none or it is older. It returns an error exactly if its own call fails.
pub check-last_store :
    (env : Env) (m k : String) (past : List Call) (w : World)
    → Plain m
    → All PlainCall past
    → lookup (redis_key m k) w.redis ≡ none
    → (check env m k (run env past w)).0 ≡ (
        let at = w.calls + length past in
        if env.fails at
        then err (wrapf "redis get" external)
        else ok (promised (env.now at) (last_store env m k w.calls past)))
check-last_store env m k past w plain plains absent =
    check-reads env m k (run env past w) (last_store env m k w.calls past)
      (run-lookup env m k past w plain plains absent)
    ∙ rw (run-calls env past w) refl
