-- ===== src/Orchestrator/Reaches.antt =====
-- internal/orchestrator/state.go: what the table allows in one step, and which statuses it leads to.
use zia.Base.{
  ℕ, zero, suc, Bool, true, false, ◌&&◌, ◌||◌, not, ◌≡◌, ◌↔◌, refl, List, [], ◌∷◌, Bool-cases, inl,
  inr, subst, sym, ◌∙◌, ap, arith,
}
use zia.Domain.Intent.{
  PaymentIntentStatus, created, requires_action, processing, succeeded, failed, expired,
  partially_refunded, refunded, status_eq, status_eq_iff,
}
use zia.Orchestrator.State.{transitions, is_valid_transition}

-- Any number of allowed transitions, one after the other.
pub data Reaches : PaymentIntentStatus → PaymentIntentStatus → Type 0 where
  stay : {s : PaymentIntentStatus} → Reaches s s
  go_on :
      {a c : PaymentIntentStatus} (b : PaymentIntentStatus)
      → is_valid_transition a b ≡ true
      → Reaches b c
      → Reaches a c

-- The payment is under way.
abbrev pub is_open : PaymentIntentStatus → Bool
is_open s = status_eq s created || status_eq s requires_action || status_eq s processing

abbrev pub is_repaid : PaymentIntentStatus → Bool
is_repaid s = status_eq s partially_refunded || status_eq s refunded

abbrev pub may_step : PaymentIntentStatus → PaymentIntentStatus → Bool
may_step a b =
    (is_open a
      && not (status_eq a b)
      && not (status_eq b created)
      && not (is_repaid b)
      && not (status_eq a created && status_eq b succeeded)
      && not (status_eq a processing && status_eq b expired))
    || (status_eq a succeeded && is_repaid b)

abbrev pub may_reach : PaymentIntentStatus → PaymentIntentStatus → Bool
may_reach a b =
    status_eq a b
    || (is_open a && not (status_eq b created))
    || (status_eq a succeeded && is_repaid b)

-- A test that holds of every status.
every : (PaymentIntentStatus → Bool) → Bool
every p =
    p created
    && p requires_action
    && p processing
    && p succeeded
    && p failed
    && p expired
    && p partially_refunded
    && p refunded

every-holds :
    (p : PaymentIntentStatus → Bool) → every p ≡ true → (s : PaymentIntentStatus) → p s ≡ true
unfolding every
every-holds p h created = ground arith
every-holds p h requires_action = ground arith
every-holds p h processing = ground arith
every-holds p h succeeded = ground arith
every-holds p h failed = ground arith
every-holds p h expired = ground arith
every-holds p h partially_refunded = ground arith
every-holds p h refunded = ground arith

equal : Bool → Bool → Bool
equal true b = b
equal false b = not b

equal-same : (a b : Bool) → equal a b ≡ true → a ≡ b
unfolding equal
equal-same true b h = sym h
equal-same false true h = ground arith
equal-same false false h = refl

is_valid_transition-may_step : (a b : PaymentIntentStatus) → is_valid_transition a b ≡ may_step a b
unfolding is_valid_transition transitions status_eq mathlib.Core.Bool.decide every equal
is_valid_transition-may_step a b = equal-same (is_valid_transition a b) (may_step a b) (
    every-holds (λ y. equal (is_valid_transition a y) (may_step a y))
      (every-holds (λ x. every λ y. equal (is_valid_transition x y) (may_step x y)) refl a) b)

-- A status that passes a test.
pick : (PaymentIntentStatus → Bool) → List PaymentIntentStatus → Bool
pick p [] = false
pick p (s ∷ ss) = p s || pick p ss

picked :
    (p : PaymentIntentStatus → Bool) (ss : List PaymentIntentStatus)
    → pick p ss ≡ true
    → (s : PaymentIntentStatus) × (p s ≡ true)
unfolding pick
picked p [] h = ground arith
picked p (s ∷ ss) h = elim (Bool-cases (p s)) [
  | inl good ↦ (s, good)
  | inr bad ↦ picked p ss (sym (ap (λ b. b || pick p ss) bad) ∙ h)
]

-- What can be reached in at most so many steps.
within : ℕ → PaymentIntentStatus → PaymentIntentStatus → Bool
unfolding pick
within zero a b = status_eq a b
within (suc n) a b =
    status_eq a b || pick (λ c. is_valid_transition a c && within n c b) (transitions a)

both : (a b : Bool) → (a && b) ≡ true → (a ≡ true) × (b ≡ true)
both a b h = ground arith

within-Reaches : (n : ℕ) (a b : PaymentIntentStatus) → within n a b ≡ true → Reaches a b
unfolding within
within-Reaches zero a b h = subst (Reaches a) ((status_eq_iff a b).0 h) stay
within-Reaches (suc n) a b h = elim (Bool-cases (status_eq a b)) [
  | inl same ↦ subst (Reaches a) ((status_eq_iff a b).0 same) stay
  | inr other ↦
      let q : PaymentIntentStatus → Bool = λ c. is_valid_transition a c && within n c b in
      let (c, found) =
        picked q (transitions a) (sym (ap (λ x. x || pick q (transitions a)) other) ∙ h) in
      let (step, rest) = both (is_valid_transition a c) (within n c b) found in
      go_on c step (within-Reaches n c b rest)
]

may_reach-within : (a b : PaymentIntentStatus) → may_reach a b ≡ within 3 a b
unfolding within pick is_valid_transition transitions status_eq mathlib.Core.Bool.decide every equal
may_reach-within a b = equal-same (may_reach a b) (within 3 a b) (
    every-holds (λ y. equal (may_reach a y) (within 3 a y))
      (every-holds (λ x. every λ y. equal (may_reach x y) (within 3 x y)) refl a) b)

follows : (p q r : Bool) → p ≡ true → q ≡ true → (not (p && q) || r) ≡ true → r ≡ true
follows p q r h h' holds = ground arith

may_reach_self : (s : PaymentIntentStatus) → may_reach s s ≡ true
unfolding status_eq mathlib.Core.Bool.decide every
may_reach_self s = every-holds (λ x. may_reach x x) refl s

may_reach-step :
    (a b c : PaymentIntentStatus)
    → is_valid_transition a b ≡ true
    → may_reach b c ≡ true
    → may_reach a c ≡ true
unfolding is_valid_transition transitions status_eq mathlib.Core.Bool.decide every
may_reach-step a b c step rest =
    let test : PaymentIntentStatus → PaymentIntentStatus → PaymentIntentStatus → Bool =
      λ x y z. not (is_valid_transition x y && may_reach y z) || may_reach x z in
    let holds : test a b c ≡ true =
      every-holds (test a b)
        (every-holds (λ y. every (test a y)) (every-holds (λ x. every λ y. every (test x y)) refl a)
          b)
        c in
    follows (is_valid_transition a b) (may_reach b c) (may_reach a c) step rest holds

Reaches-may_reach : {a b : PaymentIntentStatus} → Reaches a b → may_reach a b ≡ true
Reaches-may_reach stay = may_reach_self _
Reaches-may_reach (go_on b step rest) = may_reach-step _ b _ step (Reaches-may_reach rest)

-- What the table of `IsValidTransition` allows in one step: a payment under way may go to any other
-- status but back to created and but to a repaid one, save that it does not succeed straight from
-- created and does not expire from processing; one that has succeeded may be repaid, in part or in
-- whole; and no other status is left. What it leads to in any number of steps: a payment under
-- way may end in any status and does not come back to created, one that has succeeded becomes
-- nothing but repaid, and all others stay what they are.
pub is_valid_transition-Reaches :
    (a b : PaymentIntentStatus)
    → (is_valid_transition a b ≡ may_step a b) × (Reaches a b ↔ (may_reach a b ≡ true))
is_valid_transition-Reaches a b = (
  is_valid_transition-may_step a b,
  (Reaches-may_reach, λ h. within-Reaches 3 a b (sym (may_reach-within a b) ∙ h)),
)
