-- ===== src/Portal/Session.antt =====
-- internal/api/portal.go, `PortalAuth` and `Login`. A body is none where its envelope does not decode,
-- and holds none where its data do not. The check of a password against a hash, which bcrypt makes,
-- is a parameter.
use zia.Base.{ℕ, ◌+◌, String, Bool, true, ◌&&◌, ◌<>◌, Option, none, some, [], str_eq, nonempty}
use zia.Domain.Accounting.{Merchant, MerchantStatus}
use zia.Domain.Portal.{User, Session}
use zia.Effects.World.{Env}
use zia.Effects.Action.{Done}
use zia.Api.Handler.{
  Handler, Reply, ◌>>=◌, ◌>>◌, answer, attempt, need, require, perform, now, uuid, bad_request,
  unauthorized, internal_error,
}
use zia.Api.Bearer.{is_bearer, token_of}
use zia.Portal.Tables.{
  user_by_email, create_session, session_by_token, delete_sessions, merchant_by_id,
}
pub mod Login

pub record Credentials : Type 0 where
  pub email : String
  pub password : String

-- What an answer shows of a user and of a merchant.
pub record UserView : Type 0 where
  pub id : String
  pub name : String
  pub email : String
  pub role : String
  pub title : String

pub record Workspace : Type 0 where
  pub id : String
  pub code : String
  pub legal_name : String
  pub country : String
  pub default_currency : String
  pub status : MerchantStatus
  pub created_at : ℕ

abbrev pub user_view : User → UserView
user_view u = record { id = u.id; name = u.name; email = u.email; role = u.role; title = u.title }

abbrev pub workspace : Merchant → Workspace
workspace m = record {
  id = m.id;
  code = m.code;
  legal_name = m.legal_name;
  country = m.country;
  default_currency = m.default_currency;
  status = m.status;
  created_at = m.created_at;
}

pub record LoggedIn : Type 0 where
  pub token : String
  pub user : UserView
  pub workspace : Workspace

-- `24 * time.Hour`
abbrev pub session_lifetime : ℕ
session_lifetime = 86_400_000_000_000

-- The session that `Login` and `Signup` issue.
unfoldable pub new_session : Env → String → Handler Session
new_session env user_id = do
  id ← uuid env
  token ← uuid env
  expires ← now env
  created ← now env
  answer (record {
    id = id;
    user_id = user_id;
    merchant_id = "";
    token = token;
    expires_at = expires + session_lifetime;
    created_at = created;
  })

-- `PortalAuth`: the user and the merchant that a request is let in as.
unfoldable pub portal_auth : Env → String → Handler (String × String)
portal_auth env header = do
  require (is_bearer header) (unauthorized "Authentication failed")
  session ←
      attempt (session_by_token env (token_of header)) (unauthorized "Invalid or expired session")
  answer (session.user_id, session.merchant_id)

-- The answer to a user with a session.
unfoldable pub show_workspace : Env → User → Session → Handler LoggedIn
show_workspace env user session = do
  merchant ← attempt (merchant_by_id env user.merchant_id) internal_error
  answer (record { token = session.token; user = user_view user; workspace = workspace merchant })

unfoldable pub issue_session : Env → User → Handler LoggedIn
issue_session env user = do
  session ← new_session env user.id
  attempt (create_session env session) internal_error
  show_workspace env user session

-- What follows once the password was right: older sessions of the user end.
unfoldable pub open_session : Env → User → Handler LoggedIn
open_session env user = do perform (delete_sessions env user.id); issue_session env user

unfoldable pub check_user : Env → (String → String → Bool) → String → User → Handler LoggedIn
check_user env check_password password user = do
  require (check_password user.password_hash password) (unauthorized "Invalid email or password")
  open_session env user

unfoldable pub login_with : Env → (String → String → Bool) → Credentials → Handler LoggedIn
login_with env check_password creds = do
  require (nonempty creds.email && nonempty creds.password)
      (bad_request "Email and password are required")
  user ← attempt (user_by_email env creds.email) (unauthorized "Invalid email or password")
  check_user env check_password creds.password user

unfoldable pub login :
    Env → (String → String → Bool) → Option (Option Credentials) → Handler LoggedIn
login env check_password body = do
  envelope ← need body (bad_request "Invalid request")
  creds ← need envelope (bad_request "Email and password are required")
  login_with env check_password creds
