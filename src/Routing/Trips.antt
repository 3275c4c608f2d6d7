-- ===== src/Routing/Trips.antt =====
-- internal/routing/circuitbreaker.go: how many failures in a row open a PSP's breaker.
use zia.Base.{
  ℕ, suc, ◌+◌, ◌<◌, ◌^◌, String, ◌&&◌, ◌≡◌, refl, ap, ◌∙◌, Option, none, some, List, [], ◌∷◌, arith,
  ltb, not, subst, if◌then◌else◌, str_eq_self, length,
}
use zia.Base.Int.{pos, leb_ℤ, ◌+ℤ◌}
use zia.Base.Word.{i64}
use zia.Base.Dict.{lookup, lookup-insert}
use zia.Routing.Breaker.{
  BreakerConfig, BreakerState, CircuitBreaker, record_failure, after_failure, config_threshold,
  config_cooldown, is_available, since,
}

-- Failures of one PSP at the given times, with no success between them.
pub fail_all : List ℕ → String → CircuitBreaker → CircuitBreaker
fail_all [] psp cb = cb
fail_all (t ∷ ts) psp cb = fail_all ts psp (record_failure t psp cb)

add64_one : (n : ℕ) → suc n < 2 ^ 63 → i64 (pos n +ℤ pos 1) ≡ pos (suc n)
unfolding i64 ◌+ℤ◌
add64_one n h = ground arith

abbrev pub last_of : ℕ → List ℕ → ℕ
last_of t [] = t
last_of t (u ∷ us) = last_of u us

-- The breaker after `n` failures, `n` at least 1, of which the last was at `t`.
abbrev Counted : Option BreakerConfig → ℕ → ℕ → BreakerState → Type 0
Counted cfg n t s =
    (s.failures ≡ pos n)
    × (s.is_open ≡ (ltb 1 n && leb_ℤ (config_threshold cfg) (pos n)))
    × (s.last_failure ≡ (if ltb 1 n then t else 0))
    × (s.cooldown ≡ config_cooldown cfg)

next-Counted :
    (cfg : Option BreakerConfig) (t u n : ℕ) (s : BreakerState)
    → suc (suc n) < 2 ^ 63
    → Counted cfg (suc n) t s
    → Counted cfg (suc (suc n)) u (after_failure cfg u (some s))
unfolding after_failure
next-Counted cfg t u n s small h = ground (arith, add64_one (suc n))

record_failure-stored :
    (t : ℕ) (psp : String) (cb : CircuitBreaker)
    → lookup psp (record_failure t psp cb).states
      ≡ some (after_failure (lookup psp cb.thresholds) t (lookup psp cb.states))
unfolding record_failure
record_failure-stored t psp cb = rw (lookup-insert psp psp _ cb.states, str_eq_self psp)

-- The breaker is stored, after `n` failures of which the last was at `t`.
abbrev Holds : String → CircuitBreaker → Option BreakerConfig → ℕ → ℕ → Type 0
Holds psp cb cfg n t = (s : BreakerState) × (lookup psp cb.states ≡ some s) × Counted cfg n t s

fail_all-Counted :
    (ts : List ℕ) (psp : String) (cb : CircuitBreaker) (t n : ℕ)
    → suc (n + length ts) < 2 ^ 63
    → Holds psp cb (lookup psp cb.thresholds) (suc n) t
    → Holds psp (fail_all ts psp cb) (lookup psp cb.thresholds) (suc (n + length ts)) (last_of t ts)
unfolding fail_all record_failure
fail_all-Counted [] psp cb t n small h =
    subst (λ m. Holds psp cb (lookup psp cb.thresholds) m t) (omega arith) h
fail_all-Counted (u ∷ us) psp cb t n small (s, e, h) =
    let cfg = lookup psp cb.thresholds in
    let stored = record_failure-stored u psp cb ∙ ap (λ o. some (after_failure cfg u o)) e in
    subst (λ m. Holds psp (fail_all us psp (record_failure u psp cb)) cfg m (last_of u us))
      (omega arith)
      (fail_all-Counted us psp (record_failure u psp cb) u (suc n) (omega arith)
        (after_failure cfg u (some s), stored, next-Counted cfg t u n s (omega arith) h))

answered :
    (now : ℕ) (psp : String) (cfg : Option BreakerConfig) (n t : ℕ) (cb : CircuitBreaker)
    → Holds psp cb cfg (suc n) t
    → (is_available now psp cb).0
      ≡ not (
          ltb 1 (suc n)
          && leb_ℤ (config_threshold cfg) (pos (suc n))
          && leb_ℤ (since now t) (config_cooldown cfg))
unfolding is_available
answered now psp cfg n t cb (s, e, h) = ground arith

-- From a state that knows nothing of the PSP, a run of failures with no success between them makes
-- the PSP unavailable exactly if there are at least two, they reach the threshold that is set (5 if
-- none is), and the time since the last is at most the cooldown.
pub fail_all-is_available :
    (t : ℕ) (ts : List ℕ) (now : ℕ) (psp : String) (cb : CircuitBreaker)
    → lookup psp cb.states ≡ none
    → suc (length ts) < 2 ^ 63
    → (is_available now psp (fail_all (t ∷ ts) psp cb)).0
      ≡ not (
          ltb 1 (suc (length ts))
          && leb_ℤ (config_threshold (lookup psp cb.thresholds)) (pos (suc (length ts)))
          && leb_ℤ (since now (last_of t ts)) (config_cooldown (lookup psp cb.thresholds)))
unfolding fail_all record_failure after_failure
fail_all-is_available t ts now psp cb fresh small =
    let cfg = lookup psp cb.thresholds in
    let stored = record_failure-stored t psp cb ∙ ap (λ o. some (after_failure cfg t o)) fresh in
    answered now psp cfg (length ts) (last_of t ts) (fail_all ts psp (record_failure t psp cb)) (
      subst (λ n. Holds psp (fail_all ts psp (record_failure t psp cb)) cfg (suc n) (last_of t ts))
        (omega arith)
        (fail_all-Counted ts psp (record_failure t psp cb) t 0 (omega arith)
          (after_failure cfg t none, stored, (refl, refl, refl, refl))))
