-- ===== src/Api/Sequences.antt =====
-- How a handler goes on after a method that succeeds.
use zia.Base.{
  ◌≡◌, refl, sym, subst, ap, Bool, true, false, ◌⊎◌, inl, inr, ℕ, String, Option, none, some,
}
use zia.Effects.Failure.{Error, Result, ok, err}
use zia.Effects.World.{World}
use zia.Effects.Action.{Action, Done}
use zia.Api.Handler.{
  Reply, answered, refused, invalid, Handler, ◌>>=◌, ◌>>◌, attempt, need, perform, require,
}

module _ {A B : Type 0} (m : Action A) (refusal : Reply A) (f : A → Handler B) (w v : World)
    (a : A) where
  pub attempt-ok : m w ≡ (ok a, v) → (attempt m refusal >>= f) w ≡ f a v
  attempt-ok h =
      ap
        (λ (q : Result A × World).
          let r : Reply A = elim q.0 [ ok x ↦ answered x | err _ ↦ refusal ] in
          elim r as (λ _. Reply B × World) [
            | answered x ↦ f x q.1
            | refused status code text ↦ (refused status code text, q.1)
            | invalid field text ↦ (invalid field text, q.1)
          ])
        h

pub perform_run :
    {B : Type 0} (m : Action Done) (k : Handler B) (w v : World)
    → (m w).1 ≡ v
    → (perform m >> k) w ≡ k v
perform_run m k w v h = ap k h

pub require-true :
    {B : Type 0} (b : Bool) (refusal : Reply (Unit {0})) (k : Handler B) (w : World)
    → b ≡ true
    → (require b refusal >> k) w ≡ k w
require-true {B} b refusal k w h = ap (λ c. (require c refusal >> k) w) h

pub Reply-cases :
    {A : Type 0} (r : Reply A)
    → ((a : A) × (r ≡ answered a))
      ⊎ (((status : ℕ) × (code : String) × (text : String) × (r ≡ refused status code text))
          ⊎ ((field : String) × (text : String) × (r ≡ invalid field text)))
Reply-cases (answered a) = inl (a, refl)
Reply-cases (refused status code text) = inr (inl (status, code, text, refl))
Reply-cases (invalid field text) = inr (inr (field, text, refl))

refused-clash :
    {A : Type 0} {status : ℕ} {code text : String} {a : A}
    → ◌≡◌ {A = Reply A} (refused status code text) (answered a)
    → ⊥
refused-clash h = cc

-- A handler that is a sequence ends where its first part stops, or goes on.
module _ {A B : Type 0} (m : Handler A) (f : A → Handler B) (w : World) where
  pub sequence_any :
      (P : World → Type 0)
      → P (m w).1
      → ((a : A) → (m w).0 ≡ answered a → P (f a (m w).1).1)
      → P ((m >>= f) w).1
  sequence_any P stopped went_on =
      let ends : Reply A → Type 0 = λ r.
        let end : Reply B × World = elim r [
          | answered a ↦ f a (m w).1
          | refused status code text ↦ (refused status code text, (m w).1)
          | invalid field text ↦ (invalid field text, (m w).1)
        ] in
        P end.1 in
      elim (Reply-cases (m w).0) [
        | inl (a, h) ↦ subst ends (sym h) (went_on a h)
        | inr (inl (s, c, t, h)) ↦ subst ends (sym h) stopped
        | inr (inr (n, t, h)) ↦ subst ends (sym h) stopped
      ]

-- A value that was needed and a condition that was required are there where the handler answers.
pub need_step :
    {A B : Type 0} (o : Option A) (status : ℕ) (code text : String) (f : A → Handler B) (w : World)
    (b : B)
    → ((need o (refused status code text) >>= f) w).0 ≡ answered b
    → (a : A) × (o ≡ some a) × ((need o (refused status code text) >>= f) w ≡ f a w)
need_step none status code text f w b h = absurd (refused-clash h)
need_step (some a) status code text f w b h = (a, refl, refl)

pub require_step :
    {B : Type 0} (c : Bool) (status : ℕ) (code text : String) (k : Handler B) (w : World) (b : B)
    → ((require c (refused status code text) >> k) w).0 ≡ answered b
    → (c ≡ true) × ((require c (refused status code text) >> k) w ≡ k w)
require_step true status code text k w b h = (refl, refl)
require_step false status code text k w b h = absurd (refused-clash h)

pub require_any :
    {B : Type 0} (c : Bool) (status : ℕ) (code text : String) (k : Handler B) (w : World)
    (P : World → Type 0)
    → P w
    → (c ≡ true → P (k w).1)
    → P ((require c (refused status code text) >> k) w).1
require_any true status code text k w P stopped went_on = went_on refl
require_any false status code text k w P stopped went_on = stopped

pub need_any :
    {A B : Type 0} (o : Option A) (status : ℕ) (code text : String) (f : A → Handler B) (w : World)
    (P : World → Type 0)
    → P w
    → ((a : A) → o ≡ some a → P (f a w).1)
    → P ((need o (refused status code text) >>= f) w).1
need_any none status code text f w P stopped went_on = stopped
need_any (some a) status code text f w P stopped went_on = went_on a refl

pub attempt-err :
    {A B : Type 0} (m : Action A) (status : ℕ) (code text : String) (f : A → Handler B)
    (w v : World) (e : Error)
    → m w ≡ (err e, v)
    → (attempt m (refused status code text) >>= f) w ≡ (refused status code text, v)
attempt-err {A} {B} m status code text f w v e h =
    ap
      (λ (q : Result A × World).
        let r : Reply A = elim q.0 [ ok x ↦ answered x | err _ ↦ refused status code text ] in
        elim r as (λ _. Reply B × World) [
          | answered x ↦ f x q.1
          | refused status code text ↦ (refused status code text, q.1)
          | invalid field text ↦ (invalid field text, q.1)
        ])
      h
