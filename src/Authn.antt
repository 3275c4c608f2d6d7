-- ===== src/Authn.antt =====
-- internal/authn/middleware.go: the merchant that a request with an API key is let in as. SHA-256 is a
-- parameter.
use zia.Base.{String}
use zia.Effects.World.{Env}
use zia.Api.Handler.{Handler, Reply, refused, ◌>>=◌, ◌>>◌, answer, attempt, require}
use zia.Api.Bearer.{is_bearer, token_of}
use zia.Portal.Keys.{key_by_hash}

abbrev pub write_unauthorized : {A : Type 0} → Reply A
write_unauthorized = refused 401 "1002" "unauthorized"

unfoldable pub middleware : Env → (String → String) → String → Handler String
middleware env sha256 header = do
  require (is_bearer header) write_unauthorized
  key ← attempt (key_by_hash env (sha256 (token_of header))) write_unauthorized
  answer key.merchant_id
