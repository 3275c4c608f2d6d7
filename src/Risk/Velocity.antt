-- ===== src/Risk/Velocity.antt =====
-- internal/risk/engine.go: the velocity check is a sliding-window rate limit.
use zia.Base.{
  ℕ, ◌+◌, ◌≤◌, ◌<◌, ◌↔◌, String, Bool, true, ◌≡◌, refl, ap, ◌∙◌, sym, none, List, [], ◌∷◌, ◌++◌,
  arith, length, select, Bool-cases, str_eq_self, inl, inr, length-append,
}
use zia.Base.Int.{ℤ, pos, pos_part, neg_part, leb_ℤ, -ℤ_parts, ◌≤ℤ◌, ◌<ℤ◌}
use zia.Base.Dict.{lookup, insert, lookup-insert}
use zia.Effects.Failure.{Result, ok, err}
use zia.Risk.Engine.{RiskEngine, times_of, is_recent, check_velocity}

-- What is recent at a later time was recent before.
is_recent_mono :
    (t now : ℕ) (w : ℤ) (x : ℕ) → t ≤ now → is_recent now w x ≡ true → is_recent t w x ≡ true
unfolding is_recent
is_recent_mono t now w x le h = ground (arith, -ℤ_parts (pos t) w, -ℤ_parts (pos now) w)

select-select :
    (t now : ℕ) (w : ℤ) (xs : List ℕ)
    → t ≤ now
    → select (is_recent now w) (select (is_recent t w) xs) ≡ select (is_recent now w) xs
select-select t now w [] le = refl
select-select t now w (x ∷ xs) le =
    ground (arith, is_recent_mono t now w x le, select-select t now w xs le)

select-append {ℓ} :
    {A : Type ℓ} (p : A → Bool) (xs ys : List A) → select p (xs ++ ys) ≡ select p xs ++ select p ys
select-append p [] ys = refl
select-append p (x ∷ xs) ys = ground (arith, select-append p xs ys)

length-select_mono :
    (t now : ℕ) (w : ℤ) (xs : List ℕ)
    → t ≤ now
    → length (select (is_recent now w) xs) ≤ length (select (is_recent t w) xs)
length-select_mono t now w [] le = omega arith
length-select_mono t now w (x ∷ xs) le =
    ground (arith, is_recent_mono t now w x le, length-select_mono t now w xs le)

times_of-insert :
    (key : String) (ts : List ℕ) (e : RiskEngine)
    → times_of key (record e { velocities = insert key ts e.velocities }) ≡ ts
unfolding times_of
times_of-insert key ts e = ground (arith, lookup-insert key key ts e.velocities, str_eq_self key)

-- The attempts that were let through, in order.
abbrev pub and_then : List ℕ → ℕ → Result (Unit {0}) → List ℕ
and_then passed now (ok _) = passed ++ now ∷ []
and_then passed now (err _) = passed

-- Checks of one key at the given times, with those let through before.
pub admit : String → List ℕ → List ℕ → RiskEngine → List ℕ × RiskEngine
admit key [] passed e = (passed, e)
admit key (u ∷ us) passed e =
    let (r, e') = check_velocity u key e in admit key us (and_then passed u r) e'

abbrev pub Ascending : ℕ → List ℕ → Type 0
Ascending t [] = Unit
Ascending t (u ∷ us) = (t ≤ u) × Ascending u us

abbrev pub last_of : ℕ → List ℕ → ℕ
last_of t [] = t
last_of t (u ∷ us) = last_of u us

module _ (key : String) (w max : ℤ) where
  -- What is stored under the key agrees, from time `t` on, with the attempts let through, and these
  -- keep to the limit in every window that ends from then on.
  record Tracks (passed : List ℕ) (t : ℕ) (e : RiskEngine) : Type 0 where
    window : e.window ≡ w
    limit : e.max_attempts ≡ max
    same :
        (now : ℕ)
        → t ≤ now
        → select (is_recent now w) passed ≡ select (is_recent now w) (times_of key e)
    bounded : (now : ℕ) → t ≤ now → pos (length (select (is_recent now w) passed)) ≤ℤ max

  recent-same :
      (passed : List ℕ) (t u now : ℕ) (e : RiskEngine) (recent : List ℕ)
      → Tracks passed t e
      → t ≤ u
      → u ≤ now
      → recent ≡ select (is_recent u w) (times_of key e)
      → select (is_recent now w) passed ≡ select (is_recent now w) recent
  recent-same passed t u now e recent h le le' r =
      rw r (h.same now (omega arith) ∙ sym (select-select u now w (times_of key e) le'))

  passed-Tracks :
      (passed : List ℕ) (t u : ℕ) (e : RiskEngine) (recent : List ℕ)
      → Tracks passed t e
      → t ≤ u
      → recent ≡ select (is_recent u w) (times_of key e)
      → length recent + neg_part max < pos_part max
      → Tracks
          (passed ++ u ∷ [])
          u
          (record e { velocities = insert key (recent ++ u ∷ []) e.velocities })
  passed-Tracks passed t u e recent h le r room = record {
    window = h.window;
    limit = h.limit;
    same = λ now le'.
        rw
          (
            times_of-insert key,
            select-append,
            select-append,
            recent-same passed t u now e recent h le le' r,
          )
          refl;
    bounded = λ now le'.
        rw (select-append, length-append)
          (let known = ap length (h.same u le ∙ sym r) in
            let shrinks = length-select_mono u now w passed le' in
            let last : length (select (is_recent now w) (u ∷ [])) ≤ 1 = ground arith in
            omega arith);
  }

  refused-Tracks :
      (passed : List ℕ) (t u : ℕ) (e : RiskEngine) (recent : List ℕ)
      → Tracks passed t e
      → t ≤ u
      → recent ≡ select (is_recent u w) (times_of key e)
      → Tracks passed u (record e { velocities = insert key recent e.velocities })
  refused-Tracks passed t u e recent h le r = record {
    window = h.window;
    limit = h.limit;
    same = λ now le'. rw (times_of-insert key) (recent-same passed t u now e recent h le le' r);
    bounded = λ now le'. h.bounded now (omega arith);
  }

  check_velocity-Tracks :
      (passed : List ℕ) (t u : ℕ) (e : RiskEngine)
      → Tracks passed t e
      → t ≤ u
      → Tracks (and_then passed u (check_velocity u key e).0) u (check_velocity u key e).1
  unfolding check_velocity
  check_velocity-Tracks passed t u e h le =
      let recent = select (is_recent u e.window) (times_of key e) in
      let r : recent ≡ select (is_recent u w) (times_of key e) =
        ap (λ v. select (is_recent u v) (times_of key e)) h.window in
      elim (Bool-cases (leb_ℤ e.max_attempts (pos (length recent)))) [
        | inl full ↦ rw full (refused-Tracks passed t u e recent h le r)
        | inr room ↦
            let limit = h.limit in rw room (passed-Tracks passed t u e recent h le r (ground arith))
      ]

  check_velocity-exact :
      (passed : List ℕ) (t u : ℕ) (e : RiskEngine)
      → Tracks passed t e
      → t ≤ u
      → ((check_velocity u key e).0 ≡ ok tt) ↔ (pos (length (select (is_recent u w) passed)) <ℤ max)
  unfolding check_velocity
  check_velocity-exact passed t u e h le =
      let recent = select (is_recent u e.window) (times_of key e) in
      let counted : length recent ≡ length (select (is_recent u w) passed) =
        ap (λ v. length (select (is_recent u v) (times_of key e))) h.window
        ∙ ap length (sym (h.same u le)) in
      let limit = h.limit in (λ passes. ground arith, λ room. ground arith)

  admit-Tracks :
      (us : List ℕ) (passed : List ℕ) (t : ℕ) (e : RiskEngine)
      → Tracks passed t e
      → Ascending t us
      → Tracks (admit key us passed e).0 (last_of t us) (admit key us passed e).1
  unfolding admit
  admit-Tracks [] passed t e h up = h
  admit-Tracks (u ∷ us) passed t e h up =
      let (r, e') = check_velocity u key e in
      admit-Tracks us (and_then passed u r) u e' (check_velocity-Tracks passed t u e h up.0) up.1

fresh-Tracks :
    (key : String) (t : ℕ) (e : RiskEngine)
    → lookup key e.velocities ≡ none
    → pos 0 ≤ℤ e.max_attempts
    → Tracks key e.window e.max_attempts [] t e
unfolding times_of
fresh-Tracks key t e fresh some_room = record {
  window = refl;
  limit = refl;
  same = λ now le. ground arith;
  bounded = λ now le. some_room;
}

-- For a key that the engine does not know yet, checked at times that never go back: whatever the
-- number of checks, at most `max_attempts` of those let through lie in the window that ends at any
-- later time.
pub admit_bounded :
    (key : String) (us : List ℕ) (t now : ℕ) (e : RiskEngine)
    → lookup key e.velocities ≡ none
    → pos 0 ≤ℤ e.max_attempts
    → Ascending t us
    → last_of t us ≤ now
    → pos (length (select (is_recent now e.window) (admit key us [] e).0)) ≤ℤ e.max_attempts
admit_bounded key us t now e fresh room up le =
    (admit-Tracks key e.window e.max_attempts us [] t e (fresh-Tracks key t e fresh room)
        up).bounded
      now le

-- The limit is exact: after such checks a further one is let through exactly if fewer than
-- `max_attempts` of those let through lie in the window that ends with it.
pub admit_exact :
    (key : String) (us : List ℕ) (t u : ℕ) (e : RiskEngine)
    → lookup key e.velocities ≡ none
    → pos 0 ≤ℤ e.max_attempts
    → Ascending t us
    → last_of t us ≤ u
    → ((check_velocity u key (admit key us [] e).1).0 ≡ ok tt)
      ↔ (pos (length (select (is_recent u e.window) (admit key us [] e).0)) <ℤ e.max_attempts)
admit_exact key us t u e fresh room up le =
    check_velocity-exact key e.window e.max_attempts (admit key us [] e).0 (last_of t us) u
      (admit key us [] e).1
      (admit-Tracks key e.window e.max_attempts us [] t e (fresh-Tracks key t e fresh room) up) le
