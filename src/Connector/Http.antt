-- ===== src/Connector/Http.antt =====
-- Requests over HTTP and their replies. Bodies are texts; a request that cannot be built, sent or
-- answered has no reply.
use zia.Base.{ℕ, String, Option, none, some, ◌≡◌, ap}
use zia.Effects.Failure.{external, wrapf, Result, ok, err}

pub record HttpRequest : Type 0 where
  pub method : String
  pub url : String
  pub authorization : String
  pub body : String

pub record HttpReply : Type 0 where
  pub status_code : ℕ
  pub body : String

abbrev pub Server : Type 0
Server = HttpRequest → Option HttpReply

-- `client.Do(req)`, with the text that its error is wrapped in.
abbrev pub send : Server → String → HttpRequest → Result HttpReply
send server text req = elim (server req) [
  | none ↦ err (wrapf text external)
  | some reply ↦ ok reply
]

-- `json.Unmarshal`, likewise.
abbrev pub parse : {A : Type 0} → (String → Option A) → String → String → Result A
parse decode text body = elim (decode body) [ none ↦ err (wrapf text external) | some a ↦ ok a ]

infixl 5 ◌>>=◌
abbrev pub ◌>>=◌ : {A B : Type 0} → Result A → (A → Result B) → Result B
ok a >>= f = f a
err e >>= f = err e

-- A sequence whose first part succeeds goes on with the second.
pub then-ok : {A B : Type 0} (m : Result A) (f : A → Result B) (a : A) → m ≡ ok a → (m >>= f) ≡ f a
then-ok m f a h = ap (λ r. r >>= f) h

pub send-ok :
    (server : Server) (text : String) (req : HttpRequest) (reply : HttpReply)
    → server req ≡ some reply
    → send server text req ≡ ok reply
send-ok server text req reply h =
    ap
      (λ (o : Option HttpReply). elim o as (λ _. Result HttpReply) [
        | none ↦ err (wrapf text external)
        | some r ↦ ok r
      ])
      h

pub parse-ok :
    {A : Type 0} (decode : String → Option A) (text body : String) (a : A)
    → decode body ≡ some a
    → parse decode text body ≡ ok a
parse-ok {A} decode text body a h =
    ap
      (λ (o : Option A). elim o as (λ _. Result A) [
        | none ↦ err (wrapf text external)
        | some x ↦ ok x
      ])
      h
