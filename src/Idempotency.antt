-- ===== src/Idempotency.antt =====
-- internal/idempotency/store.go. An entry is a JSON object with one field, whose text is kept here;
-- only `Store` writes such a key, so decoding it does not fail.
pub mod Laws
pub mod History
use zia.Base.{ℕ, ◌+◌, String, ◌<>◌, none, some, ltb, if◌then◌else◌}
use zia.Base.Dict.{lookup, insert}
use zia.Effects.Failure.{ok}
use zia.Effects.World.{World, Env, RedisEntry}
use zia.Effects.Action.{Action, Done, exec, query, wrapped}

-- `24 * time.Hour`, in nanoseconds.
abbrev pub ttl : ℕ
ttl = 86_400_000_000_000

abbrev pub redis_key : String → String → String
redis_key merchant_id key = "idempotency:" <> merchant_id <> ":" <> key

-- `rdb.Get`: the empty text stands for a key that is not there, as in `Check`.
abbrev pub live : ℕ → String → World → String
live now key w = elim (lookup key w.redis) [
  | none ↦ ""
  | some e ↦ if ltb now e.expires_at then e.value else ""
]

unfoldable pub check : Env → String → String → Action String
check env merchant_id key =
    wrapped "redis get" (query env λ w. ok (live (env.now w.calls) (redis_key merchant_id key) w))

unfoldable pub store : Env → String → String → String → Action Done
store env merchant_id key pi_id = exec env λ w.
    let entry : RedisEntry = record { value = pi_id; expires_at = env.now w.calls + ttl } in
    record w { redis = insert (redis_key merchant_id key) entry w.redis }
