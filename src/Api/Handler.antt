-- ===== src/Api/Handler.antt =====
-- internal/api/response.go: a handler is a method that answers, or refuses and stops. A body that
-- decodes is given decoded, and the envelope's other fields are left out.
use zia.Base.{ℕ, String, Bool, true, false, Option, none, some}
use zia.Effects.Failure.{ok, err}
use zia.Effects.World.{World, Env, tick}
use zia.Effects.Action.{Action, Done}

pub data Reply (A : Type 0) : Type 0 where
  answered : A → Reply A
  refused : ℕ → String → String → Reply A  -- `respondError`: the HTTP status, the code and the message
  invalid : String → String → Reply A  -- `respondValidationError`: the field and the message

abbrev pub Handler : Type 0 → Type 0
Handler A = World → Reply A × World

infixl 5 ◌>>=◌ ◌>>◌
abbrev pub ◌>>=◌ : {A B : Type 0} → Handler A → (A → Handler B) → Handler B
◌>>=◌ m f w =
    let (r, w') = m w in
    elim r [
      | answered a ↦ f a w'
      | refused status code text ↦ (refused status code text, w')
      | invalid field text ↦ (invalid field text, w')
    ]

abbrev pub ◌>>◌ : {A B : Type 0} → Handler A → Handler B → Handler B
m >> k = m >>= λ _. k

module _ {A : Type 0} where
  abbrev pub answer : A → Handler A
  answer a w = (answered a, w)

  abbrev pub give_up : Reply A → Handler A
  give_up r w = (r, w)

  -- A call of a method, with the refusal that its error is answered by.
  abbrev pub attempt : Action A → Reply A → Handler A
  attempt m refusal w = let (r, w') = m w in (elim r [ ok a ↦ answered a | err _ ↦ refusal ], w')

  -- A value that has to be there.
  abbrev pub need : Option A → Reply A → Handler A
  need none refusal w = (refusal, w)
  need (some a) refusal w = (answered a, w)

-- What must not be there.
abbrev pub absent : {A : Type 0} → Option A → Bool
absent none = true
absent (some _) = false

-- A condition that has to hold.
abbrev pub require : Bool → Reply (Unit {0}) → Handler Done
require true refusal w = (answered tt, w)
require false refusal w = (refusal, w)

-- A method that only logs its errors.
abbrev pub perform : Action Done → Handler Done
perform m w = (answered tt, (m w).1)

-- What a method returns, or nothing.
abbrev pub try : {A : Type 0} → Action A → Handler (Option A)
try m w = let (r, w') = m w in (answered (elim r [ ok a ↦ some a | err _ ↦ none ]), w')

-- `time.Now()` and `uuid.New().String()`
abbrev pub now : Env → Handler ℕ
now env w = (answered (env.now w.calls), tick w)

abbrev pub uuid : Env → Handler String
uuid env w = (answered (env.uuid w.calls), tick w)

-- `rand.Read`: the bytes of its n-th call.
abbrev pub random : {A : Type 0} → (ℕ → Option A) → Handler (Option A)
random bytes w = (answered (bytes w.calls), tick w)

-- `respondPortalError` for a request that is wrong, one that is not let in, and an error of our own.
module _ {A : Type 0} where
  abbrev pub bad_request : String → Reply A
  bad_request text = refused 400 "1001" text

  abbrev pub unauthorized : String → Reply A
  unauthorized text = refused 401 "1002" text

  abbrev pub not_found : String → Reply A
  not_found text = refused 404 "1003" text

  abbrev pub internal_error : Reply A
  internal_error = refused 500 "1007" "Internal error"
