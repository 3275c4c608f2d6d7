-- ===== src/Risk/Engine.antt =====
-- internal/risk/engine.go. Each velocity check takes the clock reading that it makes, in nanoseconds;
-- the mutex makes it one step. `now.Add(-e.window)` is an integer, since it may lie before Go's zero
-- time.
use zia.Base.{
  ℕ, String, Bool, none, some, List, [], ◌∷◌, ◌++◌, if◌then◌else◌, length, select, nonempty, ◌<>◌,
}
use zia.Base.Int.{ℤ, pos, ◌-ℤ◌, ltb_ℤ, leb_ℤ}
use zia.Base.Dict.{Dict, lookup, insert}
use zia.Effects.Failure.{errorf, Result, ok, err}

pub record RiskRequest : Type 0 where
  pub merchant_id : String
  pub amount : ℤ
  pub currency : String
  pub method : String
  pub customer_phone : String
  pub customer_email : String

pub record RiskEngine : Type 0 where
  pub velocities : Dict (List ℕ)
  pub max_attempts : ℤ
  pub window : ℤ
  pub max_amount : ℤ

unfoldable pub new_engine : RiskEngine
new_engine = record {
  velocities = [];
  max_attempts = pos 10;
  window = pos 60_000_000_000;
  max_amount = pos 100_000_000;
}

-- `e.velocities[key]`
unfoldable pub times_of : String → RiskEngine → List ℕ
times_of key e = elim (lookup key e.velocities) [ none ↦ [] | some times ↦ times ]

-- `t.After(now.Add(-e.window))`
unfoldable pub is_recent : ℕ → ℤ → ℕ → Bool
is_recent now window t = ltb_ℤ (pos now -ℤ window) (pos t)

unfoldable pub check_velocity : ℕ → String → RiskEngine → Result (Unit {0}) × RiskEngine
check_velocity now key e =
    let recent = select (is_recent now e.window) (times_of key e) in
    if leb_ℤ e.max_attempts (pos (length recent))
    then (
      err (errorf "rate limit exceeded for %s: %d attempts in %v" (key ∷ [])),
      record e { velocities = insert key recent e.velocities },
    )
    else (ok tt, record e { velocities = insert key (recent ++ now ∷ []) e.velocities })

-- One of the two velocity checks of `Evaluate`: none, if the request does not name the customer so.
unfoldable pub check_contact : ℕ → String → String → RiskEngine → Result (Unit {0}) × RiskEngine
check_contact now kind contact e =
    if nonempty contact then check_velocity now (kind <> contact) e else (ok tt, e)

unfoldable pub evaluate : ℕ → ℕ → RiskRequest → RiskEngine → Result (Unit {0}) × RiskEngine
evaluate at at' req e =
    if leb_ℤ req.amount (pos 0)
    then (err (errorf "amount must be positive" []), e)
    else if ltb_ℤ e.max_amount req.amount
    then (err (errorf "amount exceeds maximum: %d > %d" []), e)
    else let (r, e') = check_contact at "phone:" req.customer_phone e in
      elim r [ err x ↦ (err x, e') | ok _ ↦ check_contact at' "email:" req.customer_email e' ]
