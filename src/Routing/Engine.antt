-- ===== src/Routing/Engine.antt =====
-- internal/routing/engine.go. `clock n` is the time of the n-th question that `Route` puts to the
-- circuit breaker, which closes a breaker whose cooldown is over; so the loop passes the breaker on.
use zia.Base.{
  ℕ, zero, suc, String, Bool, true, false, not, ◌&&◌, Option, none, some, List, [], ◌∷◌,
  if◌then◌else◌, str_eq, nonempty,
}
use zia.Base.Int.{ℤ, pos}
use zia.Base.Dict.{Dict, lookup}
use zia.Effects.Failure.{errorf, Result, ok, err}
use zia.Routing.Breaker.{CircuitBreaker, is_available}

pub record RouteRequest : Type 0 where
  pub merchant_id : String
  pub currency : String
  pub country : String
  pub method : String
  pub amount : ℤ

-- The two formats of `RouteDecision.Reason`, with what they are given.
pub data Reason : Type 0 where
  fell_back : String → String → Reason
  rule_matched : ℤ → Reason

pub record RouteDecision : Type 0 where
  pub primary : String
  pub fallbacks : List String
  pub reason : Reason

pub record Condition : Type 0 where
  pub currency : String
  pub method : String
  pub country : String
  pub merchant : String

pub record Rule : Type 0 where
  pub priority : ℤ
  pub conditions : Condition
  pub primary_psp : String
  pub fallbacks : List String
  pub enabled : Bool

pub record RoutingEngine : Type 0 where
  pub rules : List Rule
  pub excluded : Dict Bool

unfoldable pub default_rules : List Rule
default_rules =
    record {
      priority = pos 1;
      conditions = record { currency = "KES"; method = "mpesa_stk"; country = ""; merchant = "" };
      primary_psp = "mpesa";
      fallbacks = [];
      enabled = true;
    }
    ∷ record {
      priority = pos 3;
      conditions = record { currency = ""; method = "card"; country = ""; merchant = "" };
      primary_psp = "paystack";
      fallbacks = [];
      enabled = true;
    }
    ∷ []

unfoldable pub new_engine : RoutingEngine
unfolding default_rules
new_engine = record { rules = default_rules; excluded = [] }

unfoldable pub match_condition : Condition → RouteRequest → Bool
match_condition c req =
    if nonempty c.currency && not (str_eq c.currency req.currency)
    then false
    else if nonempty c.method && not (str_eq c.method req.method)
    then false
    else if nonempty c.country && not (str_eq c.country req.country)
    then false
    else if nonempty c.merchant && not (str_eq c.merchant req.merchant_id)
    then false
    else true

-- `e.excluded[psp]`
unfoldable pub is_excluded : RoutingEngine → String → Bool
is_excluded e psp = elim (lookup psp e.excluded) [ none ↦ false | some b ↦ b ]

-- The tests that make the loop of `Route` go on to the next rule.
unfoldable pub applies : RoutingEngine → RouteRequest → Rule → Bool
applies e req rule =
    rule.enabled && match_condition rule.conditions req && not (is_excluded e rule.primary_psp)

-- The error at the end of the loop.
abbrev pub no_rule : RouteRequest → Result RouteDecision
no_rule req = err (
    errorf "no routing rule matched for method=%s currency=%s country=%s"
      (req.method ∷ req.currency ∷ req.country ∷ []))

module _ (e : RoutingEngine) (clock : ℕ → ℕ) where
  -- The first fallback that is neither excluded nor cut off, when the primary is cut off.
  unfoldable pub first_fallback : ℕ → List String → CircuitBreaker → Option String × CircuitBreaker
  first_fallback n [] cb = (none, cb)
  first_fallback n (fb ∷ fbs) cb =
      let skipped = first_fallback n fbs cb in
      let (up, cb') = is_available (clock n) fb cb in
      let later = first_fallback (suc n) fbs cb' in
      if is_excluded e fb then skipped else if up then (some fb, cb') else later

  -- The fallbacks that are neither excluded nor cut off, when the primary is in use.
  unfoldable pub available_fallbacks :
      ℕ → List String → CircuitBreaker → List String × CircuitBreaker
  available_fallbacks n [] cb = ([], cb)
  available_fallbacks n (fb ∷ fbs) cb =
      let skipped = available_fallbacks n fbs cb in
      let (up, cb') = is_available (clock n) fb cb in
      let later = available_fallbacks (suc n) fbs cb' in
      if is_excluded e fb then skipped else (if up then fb ∷ later.0 else later.0, later.1)

  -- What `Route` does with the first rule that is enabled, matches and is not excluded.
  unfoldable pub decide :
      RouteRequest → Rule → CircuitBreaker → Result RouteDecision × CircuitBreaker
  decide req rule cb =
      let (up, cb') = is_available (clock zero) rule.primary_psp cb in
      let (fallback, cut_off) = first_fallback 1 rule.fallbacks cb' in
      let (fallbacks, in_use) = available_fallbacks 1 rule.fallbacks cb' in
      if up
      then (
        ok (record {
          primary = rule.primary_psp;
          fallbacks = fallbacks;
          reason = rule_matched rule.priority;
        }),
        in_use,
      )
      else elim fallback [
        | none ↦ (
          err (
              errorf "no available connector for method=%s currency=%s"
                (req.method ∷ req.currency ∷ [])),
          cut_off,
        )
        | some fb ↦ (
          ok (record { primary = fb; fallbacks = []; reason = fell_back rule.primary_psp fb }),
          cut_off,
        )
      ]

  unfoldable pub route_rules :
      RouteRequest → List Rule → CircuitBreaker → Result RouteDecision × CircuitBreaker
  route_rules req [] cb = (
    err (
        errorf "no routing rule matched for method=%s currency=%s country=%s"
          (req.method ∷ req.currency ∷ req.country ∷ [])),
    cb,
  )
  route_rules req (rule ∷ rules) cb =
      let later = route_rules req rules cb in
      if applies e req rule then decide req rule cb else later

  unfoldable pub route : RouteRequest → CircuitBreaker → Result RouteDecision × CircuitBreaker
  unfolding route_rules
  route req cb = route_rules req e.rules cb
