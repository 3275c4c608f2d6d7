-- ===== src/Effects/Cases.antt =====
-- How an action that is a sequence may end.
use zia.Base.{
  ◌≡◌, refl, ◌⊎◌, inl, inr, sym, subst, String, ◌∙◌, ap, arith, Bool-cases, Option, none, some,
}
use zia.Effects.Failure.{Error, wrapf, Result, ok, err}
use zia.Effects.World.{World, Env}
use zia.Effects.Action.{Action, query, found, ◌>>=◌, wrapped}

module _ {A : Type 0} where
  pub Result-cases : (r : Result A) → ((a : A) × (r ≡ ok a)) ⊎ ((e : Error) × (r ≡ err e))
  Result-cases (ok a) = inl (a, refl)
  Result-cases (err e) = inr (e, refl)

  rewrap-ok :
      (text : String) (r : Result A) (a : A)
      → (elim r [ ok b ↦ ok b | err e ↦ err (wrapf text e) ]) ≡ ok a
      → r ≡ ok a
  rewrap-ok text (ok b) a h = h
  rewrap-ok text (err e) a h = ground arith

  pub wrapped-ok :
      (text : String) (m : Action A) (w : World) (a : A)
      → (wrapped text m w).0 ≡ ok a
      → (m w).0 ≡ ok a
  wrapped-ok text m w a h = rewrap-ok text (m w).0 a h

  rewrap-err :
      (text : String) (r : Result A) (e : Error)
      → (elim r [ ok b ↦ ok b | err x ↦ err (wrapf text x) ]) ≡ err e
      → (x : Error) × (r ≡ err x)
  rewrap-err text (ok b) e h = ground arith
  rewrap-err text (err x) e h = (x, refl)

  pub wrapped-err :
      (text : String) (m : Action A) (w : World) (e : Error)
      → (wrapped text m w).0 ≡ err e
      → (x : Error) × ((m w).0 ≡ err x)
  wrapped-err text m w e h = rewrap-err text (m w).0 e h

  found-ok : (o : Option A) (a : A) → found o ≡ ok a → o ≡ some a
  found-ok none a h = ground arith
  found-ok (some b) a h = ap (λ r. elim r [ ok x ↦ some x | err _ ↦ none ]) h

  pub query-ok :
      (env : Env) (f : World → Result A) (w : World) (a : A) → (query env f w).0 ≡ ok a → f w ≡ ok a
  unfolding query
  query-ok env f w a h = elim (Bool-cases (env.fails w.calls)) [
    | inl down ↦ ground arith
    | inr up ↦ sym (rw up refl) ∙ h
  ]

  -- A row that a read returned was there.
  pub query-found :
      (env : Env) (f : World → Option A) (w : World) (a : A)
      → (query env (λ v. found (f v)) w).0 ≡ ok a
      → f w ≡ some a
  query-found env f w a h = found-ok (f w) a (query-ok env (λ v. found (f v)) w a h)

module _ {A B : Type 0} (P : World → Type 0) (m : Action A) (f : A → Action B) (w : World) where
  -- A property of the state holds after a sequence if it holds wherever the sequence may stop.
  pub bind-lem :
      ((a : A) → (m w).0 ≡ ok a → P (f a (m w).1).1)
      → ((e : Error) → (m w).0 ≡ err e → P (m w).1)
      → P ((m >>= f) w).1
  bind-lem done failed =
      let ends : Result A → Type 0 = λ r.
        let end : Result B × World = elim r [ ok a ↦ f a (m w).1 | err e ↦ (err e, (m w).1) ] in
        P end.1 in
      elim (Result-cases (m w).0) [
        | inl (a, h) ↦ subst ends (sym h) (done a h)
        | inr (e, h) ↦ subst ends (sym h) (failed e h)
      ]

  -- The same, where the outcome of the first part does not matter.
  pub bind_any : P (m w).1 → ((a : A) → P (f a (m w).1).1) → P ((m >>= f) w).1
  bind_any stopped went_on = bind-lem (λ a _. went_on a) (λ _ _. stopped)

-- A sequence whose first part succeeds goes on with the second.
pub bind-ok :
    {A B : Type 0} (m : Action A) (f : A → Action B) (w : World) (a : A)
    → (m w).0 ≡ ok a
    → (m >>= f) w ≡ f a (m w).1
bind-ok {A} {B} m f w a h =
    ap
      (λ (r : Result A). elim r as (λ _. Result B × World) [
        | ok x ↦ f x (m w).1
        | err e ↦ (err e, (m w).1)
      ])
      h

pub wrapped_as_ok :
    {A : Type 0} (text : String) (m : Action A) (w : World) (a : A)
    → (m w).0 ≡ ok a
    → (wrapped text m w).0 ≡ ok a
wrapped_as_ok {A} text m w a h =
    ap (λ (r : Result A). elim r as (λ _. Result A) [ ok x ↦ ok x | err e ↦ err (wrapf text e) ]) h

pub bind_run :
    {A B : Type 0} (m : Action A) (f : A → Action B) (w v : World) (a : A)
    → m w ≡ (ok a, v)
    → (m >>= f) w ≡ f a v
bind_run {A} {B} m f w v a h =
    ap
      (λ (q : Result A × World). elim q.0 as (λ _. Result B × World) [
        | ok x ↦ f x q.1
        | err e ↦ (err e, q.1)
      ])
      h

bind-err :
    {A B : Type 0} (m : Action A) (f : A → Action B) (w : World) (e : Error)
    → (m w).0 ≡ err e
    → (m >>= f) w ≡ (err e, (m w).1)
bind-err {A} {B} m f w e h =
    ap
      (λ (r : Result A). elim r as (λ _. Result B × World) [
        | ok x ↦ f x (m w).1
        | err e ↦ (err e, (m w).1)
      ])
      h

-- A sequence that succeeds has run both of its parts.
pub bind_inv :
    {A B : Type 0} (m : Action A) (f : A → Action B) (w : World) (b : B)
    → ((m >>= f) w).0 ≡ ok b
    → (a : A) × ((m w).0 ≡ ok a) × ((m >>= f) w ≡ f a (m w).1)
bind_inv {A} {B} m f w b h = elim (Result-cases (m w).0) [
  | inl (a, done) ↦ (a, done, bind-ok m f w a done)
  | inr (e, failed) ↦
      let stops : ((m >>= f) w).0 ≡ err e = ap (λ q. q.0) (bind-err m f w e failed) in cc
]
