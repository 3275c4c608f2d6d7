-- ===== src/Routing/Breaker.antt =====
-- internal/routing/circuitbreaker.go. Each method takes the state and the clock reading that it
-- makes, and returns the new state. The mutex makes each method one step.
use zia.Base.{ℕ, String, Bool, true, false, not, ◌&&◌, Option, none, some, [], if◌then◌else◌}
use zia.Base.Int.{ℤ, pos, sub_ℕ, ltb_ℤ, leb_ℤ}
use zia.Base.Word.{add64, min_i64, max_i64}
use zia.Base.Dict.{Dict, lookup, insert}

pub record BreakerConfig : Type 0 where
  pub threshold : ℤ
  pub cooldown : ℤ

pub record BreakerState : Type 0 where
  pub failures : ℤ
  pub last_failure : ℕ
  pub is_open : Bool
  pub cooldown : ℤ

pub record CircuitBreaker : Type 0 where
  pub states : Dict BreakerState
  pub thresholds : Dict BreakerConfig

-- `time.Since(t)`: the difference, held to the range of a `time.Duration`.
unfoldable pub since : ℕ → ℕ → ℤ
since now t =
    let d = sub_ℕ now t in
    if leb_ℤ max_i64 d then max_i64 else if leb_ℤ d min_i64 then min_i64 else d

unfoldable pub new_circuit_breaker : CircuitBreaker
new_circuit_breaker = record { states = []; thresholds = [] }

unfoldable pub set_config : String → ℤ → ℤ → CircuitBreaker → CircuitBreaker
set_config psp threshold cooldown cb = record cb {
  thresholds = insert psp (record { threshold = threshold; cooldown = cooldown }) cb.thresholds;
}

abbrev pub config_threshold : Option BreakerConfig → ℤ
config_threshold none = pos 5
config_threshold (some cfg) = cfg.threshold

abbrev pub config_cooldown : Option BreakerConfig → ℤ
config_cooldown none = pos 60_000_000_000
config_cooldown (some cfg) = cfg.cooldown

-- What the first failure of a PSP stores. `LastFailure` keeps its zero value.
unfoldable pub first_failure : Option BreakerConfig → BreakerState
first_failure cfg = record {
  failures = pos 1;
  last_failure = 0;
  is_open = false;
  cooldown = config_cooldown cfg;
}

-- What a further failure makes of the state.
unfoldable pub next_failure : Option BreakerConfig → ℕ → BreakerState → BreakerState
next_failure cfg now state =
    let failures = add64 state.failures (pos 1) in
    record {
      failures = failures;
      last_failure = now;
      is_open =
          if leb_ℤ (config_threshold cfg) failures && not state.is_open
          then true
          else state.is_open;
      cooldown = state.cooldown;
    }

-- What a failure makes of what is stored of the PSP.
unfoldable pub after_failure : Option BreakerConfig → ℕ → Option BreakerState → BreakerState
unfolding first_failure next_failure
after_failure cfg now none = first_failure cfg
after_failure cfg now (some state) = next_failure cfg now state

unfoldable pub record_failure : ℕ → String → CircuitBreaker → CircuitBreaker
record_failure now psp cb =
    let cfg = lookup psp cb.thresholds in
    let state = after_failure cfg now (lookup psp cb.states) in
    record cb { states = insert psp state cb.states }

abbrev pub closed : BreakerState → BreakerState
closed state = record state { failures = pos 0; is_open = false }

unfoldable pub record_success : String → CircuitBreaker → CircuitBreaker
record_success psp cb = elim (lookup psp cb.states) [
  | none ↦ cb
  | some state ↦ record cb { states = insert psp (closed state) cb.states }
]

unfoldable pub is_available : ℕ → String → CircuitBreaker → Bool × CircuitBreaker
is_available now psp cb = elim (lookup psp cb.states) [
  | none ↦ (true, cb)
  | some state ↦
      if not state.is_open
      then (true, cb)
      else if ltb_ℤ state.cooldown (since now state.last_failure)
      then (true, record cb { states = insert psp (closed state) cb.states })
      else (false, cb)
]

unfoldable pub state_of : String → CircuitBreaker → BreakerState
state_of psp cb = elim (lookup psp cb.states) [
  | none ↦ record { failures = pos 0; last_failure = 0; is_open = false; cooldown = pos 0 }
  | some state ↦ state
]
