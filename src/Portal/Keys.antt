-- ===== src/Portal/Keys.antt =====
-- internal/api/portal.go, the handlers of API keys, over the statements of
-- internal/repository/merchant.go. SHA-256 and `rand.Read` are parameters. The type of a key is its
-- `kind` here.
use zia.Base.{
  ℕ, ◌/◌, ◌%◌, String, Bool, not, ◌&&◌, ◌<>◌, Option, none, some, List, [], ◌∷◌, ◌++◌, find, select,
  map, if◌then◌else◌, str_eq, nonempty,
}
use zia.Base.Chars.{text_take, text_drop}
use zia.Domain.Portal.{ApiKey}
use zia.Effects.Failure.{ok}
use zia.Effects.World.{Env}
use zia.Effects.Action.{Action, Done, exec, query, found}
use zia.Api.Handler.{
  Handler, refused, ◌>>=◌, ◌>>◌, answer, attempt, need, require, now, uuid, random, bad_request,
  internal_error,
}
use zia.Portal.Tables.{latest_first}
pub mod Access

unfoldable pub insert_key : Env → ApiKey → Action Done
insert_key env k =
    exec env λ w. record w { api = record w.api { api_keys = w.api.api_keys ++ k ∷ [] } }

-- `GetAPIKeyByHash`
unfoldable pub key_by_hash : Env → String → Action ApiKey
key_by_hash env hash = query env λ w. found (find (λ k. str_eq k.key_hash hash) w.api.api_keys)

unfoldable pub list_keys : Env → String → Action (List ApiKey)
list_keys env merchant_id = query env λ w. ok (
    latest_first (λ k. k.created_at)
      (select (λ k. str_eq k.merchant_id merchant_id) w.api.api_keys))

abbrev pub is_key : String → String → ApiKey → Bool
is_key id merchant_id k = str_eq k.id id && str_eq k.merchant_id merchant_id

unfoldable pub delete_key : Env → String → String → Action Done
delete_key env id merchant_id = exec env λ w. record w {
  api = record w.api { api_keys = select (λ k. not (is_key id merchant_id k)) w.api.api_keys };
}

pub record KeyRequest : Type 0 where
  pub name : String
  pub environment : String
  pub kind : String

-- What an answer shows of a key; the key itself is shown once.
pub record KeyView : Type 0 where
  pub id : String
  pub name : String
  pub prefix : String
  pub environment : String
  pub created_at : ℕ

abbrev pub key_view : ApiKey → KeyView
key_view k = record {
  id = k.id;
  name = k.name;
  prefix = k.key_prefix;
  environment = k.environment;
  created_at = k.created_at;
}

-- `hex.EncodeToString` of bytes, which are below 256.
unfoldable hex : List ℕ → String
hex [] = ""
hex (b ∷ bs) =
    let digit : ℕ → String = λ n. text_take 1 (text_drop n "0123456789abcdef") in
    digit (b / 16) <> digit (b % 16) <> hex bs

abbrev pub environment_of : KeyRequest → String
environment_of req = if nonempty req.environment then req.environment else "live"

unfoldable pub raw_key : KeyRequest → List ℕ → String
unfolding hex
raw_key req bytes =
    (if str_eq req.kind "Publishable" then "pk" else "sk")
    <> "_"
    <> environment_of req
    <> "_"
    <> hex bytes

module _ (env : Env) (sha256 : String → String) (raw_bytes : ℕ → Option (List ℕ)) where
  abbrev pub key_of : String → KeyRequest → List ℕ → String → ℕ → ApiKey
  key_of merchant_id req bytes id created = record {
    id = id;
    merchant_id = merchant_id;
    name = req.name;
    key_hash = sha256 (raw_key req bytes);
    key_prefix = text_take 12 (raw_key req bytes);
    environment = environment_of req;
    created_at = created;
  }

  unfoldable pub save_key : String → KeyRequest → List ℕ → Handler (String × KeyView)
  save_key merchant_id req bytes = do
    id ← uuid env
    created ← now env
    let key = key_of merchant_id req bytes id created
    attempt (insert_key env key) (refused 500 "1007" "Failed to create API key")
    answer (raw_key req bytes, key_view key)

  unfoldable pub create_key_with : String → KeyRequest → Handler (String × KeyView)
  create_key_with merchant_id req = do
    require (nonempty req.name) (bad_request "Key name is required")
    drawn ← random raw_bytes
    bytes ← need drawn internal_error
    save_key merchant_id req bytes

  unfoldable pub create_key : String → Option (Option KeyRequest) → Handler (String × KeyView)
  create_key merchant_id body = do
    envelope ← need body (bad_request "Invalid request")
    req ← need envelope (bad_request "Key name is required")
    create_key_with merchant_id req

unfoldable pub list_api_keys : Env → String → Handler (List KeyView)
list_api_keys env merchant_id = do
  keys ← attempt (list_keys env merchant_id) internal_error
  answer (map key_view keys)

unfoldable pub revoke_key : Env → String → String → Handler Done
revoke_key env merchant_id id = attempt (delete_key env id merchant_id) internal_error
