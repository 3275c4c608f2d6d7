-- ===== src/Orchestrator/Lifecycle.antt =====
-- The life of a payment intent, as a relation that does not mention the code's table.
use zia.Base.{
  true, Bool-cases, ◌≡◌, ◌↔◌, refl, List, [], ◌∷◌, All, any, subst, if◌then◌else◌, arith, inl, inr,
}
use zia.Domain.Intent.{
  PaymentIntentStatus, created, requires_action, processing, succeeded, failed, expired,
  partially_refunded, refunded, status_eq, status_eq_iff,
}
use zia.Orchestrator.State.{transitions, is_valid_transition}

infix 4 ◌⟶◌ ◌⟶*◌
-- What may happen to a payment: it starts, it is settled while it is open, and it is given back
-- once it has succeeded.
pub data ◌⟶◌ : PaymentIntentStatus → PaymentIntentStatus → Type 0 where
  ask : created ⟶ requires_action
  start : created ⟶ processing
  refuse : created ⟶ failed
  lapse : created ⟶ expired
  confirm : requires_action ⟶ processing
  ask_again : processing ⟶ requires_action
  approve : requires_action ⟶ succeeded
  complete : processing ⟶ succeeded
  decline : requires_action ⟶ failed
  break_off : processing ⟶ failed
  time_out : requires_action ⟶ expired
  give_part : succeeded ⟶ partially_refunded
  give_all : succeeded ⟶ refunded

pub data ◌⟶*◌ : PaymentIntentStatus → PaymentIntentStatus → Type 0 where
  stay : {s : PaymentIntentStatus} → s ⟶* s
  go_on : {a b c : PaymentIntentStatus} → a ⟶ b → b ⟶* c → a ⟶* c

-- Every status that the table lists is one step away.
steps_of : (from : PaymentIntentStatus) → All (λ to. from ⟶ to) (transitions from)
unfolding transitions
steps_of created = (ask, (start, (refuse, (lapse, tt))))
steps_of requires_action = (approve, (confirm, (decline, (time_out, tt))))
steps_of processing = (complete, (break_off, (ask_again, tt)))
steps_of succeeded = (give_part, (give_all, tt))
steps_of failed = tt
steps_of expired = tt
steps_of partially_refunded = tt
steps_of refunded = tt

listed :
    (P : PaymentIntentStatus → Type 0) (ss : List PaymentIntentStatus) (to : PaymentIntentStatus)
    → All P ss
    → any (λ allowed. status_eq allowed to) ss ≡ true
    → P to
listed P [] to _ h = ground arith
listed P (s ∷ ss) to (here, rest) h = elim (Bool-cases (status_eq s to)) [
  | inl same ↦ subst P ((status_eq_iff s to).0 same) here
  | inr other ↦
      listed P ss to rest
        (subst (λ b. (if b then true else any (λ allowed. status_eq allowed to) ss) ≡ true) other h)
]

allowed : {from to : PaymentIntentStatus} → from ⟶ to → is_valid_transition from to ≡ true
unfolding is_valid_transition status_eq mathlib.Core.Bool.decide
allowed ask = refl
allowed start = refl
allowed refuse = refl
allowed lapse = refl
allowed confirm = refl
allowed ask_again = refl
allowed approve = refl
allowed complete = refl
allowed decline = refl
allowed break_off = refl
allowed time_out = refl
allowed give_part = refl
allowed give_all = refl

-- The table of `IsValidTransition` allows exactly the steps of a payment's life.
pub is_valid_transition_iff :
    (from to : PaymentIntentStatus) → (is_valid_transition from to ≡ true) ↔ (from ⟶ to)
unfolding is_valid_transition
is_valid_transition_iff from to =
    (listed (λ to. from ⟶ to) (transitions from) to (steps_of from), allowed)
