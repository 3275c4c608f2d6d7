-- ===== src/Api/Outcomes.antt =====
-- Where a handler may end: what holds wherever it stops and wherever it goes on holds of its outcome.
use zia.Base.{
  ◌≡◌, refl, sym, subst, ap, ◌∙◌, Bool, true, false, inl, inr, ℕ, String, Option, none, some,
  if◌then◌else◌, Bool-cases,
}
use zia.Effects.Failure.{Result, external, ok, err}
use zia.Effects.World.{World, Env, tick}
use zia.Effects.Action.{Done, exec, query, found}
use zia.Api.Handler.{
  Reply, answered, refused, invalid, Handler, ◌>>=◌, ◌>>◌, attempt, need, require,
}
use zia.Api.Sequences.{Reply-cases, attempt-ok, attempt-err}

abbrev pub is_answer : {A : Type 0} → Reply A → Bool
is_answer (answered a) = true
is_answer (refused status code text) = false
is_answer (invalid field text) = false

-- A handler that is a sequence either answers with nothing, where its first part stops, or is its
-- second part from where the first part has come to.
module _ {B : Type 0} (P : Reply B × World → Type 0) where
  abbrev Stops : World → Type 0
  Stops w = (r : Reply B) → is_answer r ≡ false → P (r, w)

  pub sequence_out :
      {A : Type 0} (m : Handler A) (f : A → Handler B) (w : World)
      → Stops (m w).1
      → ((a : A) → (m w).0 ≡ answered a → P (f a (m w).1))
      → P ((m >>= f) w)
  sequence_out {A} m f w stops goes =
      let ends : Reply A → Type 0 = λ r.
        let end : Reply B × World = elim r [
          | answered a ↦ f a (m w).1
          | refused status code text ↦ (refused status code text, (m w).1)
          | invalid field text ↦ (invalid field text, (m w).1)
        ] in
        P end in
      elim (Reply-cases (m w).0) [
        | inl (a, h) ↦ subst ends (sym h) (goes a h)
        | inr (inl (s, c, t, h)) ↦ subst ends (sym h) (stops (refused s c t) refl)
        | inr (inr (n, t, h)) ↦ subst ends (sym h) (stops (invalid n t) refl)
      ]

  pub require_out :
      (c : Bool) (r : Reply (Unit {0})) (k : Handler B) (w : World)
      → is_answer r ≡ false
      → Stops w
      → (c ≡ true → P (k w))
      → P ((require c r >> k) w)
  require_out true r k w deny stops goes = goes refl
  require_out false (answered a) k w deny stops goes = cc
  require_out false (refused s c t) k w deny stops goes = stops (refused s c t) refl
  require_out false (invalid n t) k w deny stops goes = stops (invalid n t) refl

  pub need_out :
      {A : Type 0} (o : Option A) (r : Reply A) (f : A → Handler B) (w : World)
      → is_answer r ≡ false
      → Stops w
      → ((a : A) → o ≡ some a → P (f a w))
      → P ((need o r >>= f) w)
  need_out (some a) r f w deny stops goes = goes a refl
  need_out none (answered a) f w deny stops goes = cc
  need_out none (refused s c t) f w deny stops goes = stops (refused s c t) refl
  need_out none (invalid n t) f w deny stops goes = stops (invalid n t) refl

  -- A statement that is run, or fails and changes nothing.
  pub exec_out :
      (env : Env) (f : World → World) (status : ℕ) (code text : String) (k : Done → Handler B)
      (w : World)
      → Stops (tick w)
      → P (k tt (tick (f w)))
      → P ((attempt (exec env f) (refused status code text) >>= k) w)
  unfolding exec
  exec_out env f status code text k w stops goes = elim (Bool-cases (env.fails w.calls)) [
    | inl down ↦
        let ends = attempt-err (exec env f) status code text k w (tick w) external (rw down refl) in
        subst P (sym ends) (stops (refused status code text) refl)
    | inr up ↦
        let goes_on =
          attempt-ok (exec env f) (refused status code text) k w (tick (f w)) tt (rw up refl) in
        subst P (sym goes_on) goes
  ]

pub answered-clash : {A : Type 0} (r : Reply A) (a : A) → is_answer r ≡ false → r ≡ answered a → ⊥
answered-clash r a stopped h = let clash : true ≡ false = sym (ap is_answer h) ∙ stopped in cc

-- A row that was answered with was found.
module _ {A : Type 0} (status : ℕ) (code text : String) where
  row_answered :
      (o : Option A) (down : Bool) (a : A)
      → (let r : Result A = if down then err external else found o in
          elim r as (λ _. Reply A) [ ok x ↦ answered x | err _ ↦ refused status code text ])
        ≡ answered a
      → o ≡ some a
  row_answered o true a h = absurd (answered-clash (refused status code text) a refl h)
  row_answered none false a h = absurd (answered-clash (refused status code text) a refl h)
  row_answered (some x) false a h = cc

  pub query-answered :
      (env : Env) (o : World → Option A) (w : World) (a : A)
      → (attempt (query env (λ v. found (o v))) (refused status code text) w).0 ≡ answered a
      → o w ≡ some a
  unfolding query
  query-answered env o w a h = row_answered (o w) (env.fails w.calls) a h
