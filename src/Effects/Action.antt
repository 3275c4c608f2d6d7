-- ===== src/Effects/Action.antt =====
-- A method that returns an error or a value: the state is kept also where it fails, since what was
-- written stays written.
use zia.Base.{ℕ, String, Option, none, some, if◌then◌else◌}
use zia.Effects.Failure.{Error, external, wrapf, Result, ok, err}
use zia.Effects.World.{World, Env, tick}

abbrev pub Action : Type 0 → Type 0
Action A = World → Result A × World

abbrev pub Done : Type 0
Done = Unit

module _ {A : Type 0} where
  abbrev pub pure : A → Action A
  pure a w = (ok a, w)

  abbrev pub raise : Error → Action A
  raise e w = (err e, w)

  abbrev pub lift : Result A → Action A
  lift r w = (r, w)

infixl 5 ◌>>=◌ ◌>>◌
abbrev pub ◌>>=◌ : {A B : Type 0} → Action A → (A → Action B) → Action B
◌>>=◌ m f w = let (r, w') = m w in elim r [ ok a ↦ f a w' | err e ↦ (err e, w') ]

abbrev pub ◌>>◌ : {A B : Type 0} → Action A → Action B → Action B
m >> k = m >>= λ _. k

-- `if err != nil { return fmt.Errorf("…: %w", err) }`
abbrev pub wrapped : {A : Type 0} → String → Action A → Action A
wrapped text m w = let (r, w') = m w in (elim r [ ok a ↦ ok a | err e ↦ err (wrapf text e) ], w')

-- `if err != nil { log }`: an error is logged and forgotten.
abbrev pub logged : {A : Type 0} → Action A → Action Done
logged m w = (ok tt, (m w).1)

module _ (env : Env) where
  -- A statement that changes the state, or fails and changes nothing.
  unfoldable pub exec : (World → World) → Action Done
  exec f w = if env.fails w.calls then (err external, tick w) else (ok tt, tick (f w))

  -- A read.
  unfoldable pub query : {A : Type 0} → (World → Result A) → Action A
  query f w = (if env.fails w.calls then err external else f w, tick w)

  -- `time.Now()`
  unfoldable pub clock : Action ℕ
  clock w = (ok (env.now w.calls), tick w)

  -- `uuid.New().String()`
  unfoldable pub new_uuid : Action String
  new_uuid w = (ok (env.uuid w.calls), tick w)

-- A row that was looked for: `pgx.ErrNoRows` where there is none.
abbrev pub found : {A : Type 0} → Option A → Result A
found none = err external
found (some a) = ok a
