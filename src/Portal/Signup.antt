-- ===== src/Portal/Signup.antt =====
-- internal/api/portal.go, `SendOTP` and `Signup`. bcrypt and `rand.Read` are parameters; the SMS that
-- carries the code goes out on its own, and no handler waits for it.
use zia.Base.{
  ℕ, ◌+◌, String, Bool, true, false, ◌&&◌, Option, none, some, List, [], str_eq, nonempty,
  if◌then◌else◌,
}
use zia.Base.Int.{pos}
use zia.Base.Chars.{decimal, has_char}
use zia.Domain.Accounting.{Merchant, MerchantStatus}
use zia.Domain.Portal.{User, Session, TeamMember, TeamInvitation}
use zia.Effects.World.{World, Env, tick}
use zia.Effects.Action.{Done}
use zia.Api.Handler.{
  absent, Handler, Reply, answered, refused, ◌>>=◌, ◌>>◌, answer, attempt, need, require, perform,
  try, now, uuid, random, bad_request, internal_error,
}
use zia.Portal.Otp
use zia.Portal.Otp.{SignupData, OtpEntry}
use zia.Portal.Texts.{member_initials, title_of, otp_code, merchant_code}
use zia.Portal.Tables.{
  create_user, create_session, create_member, open_invitation, delete_invitations, create_merchant,
  merchant_by_id,
}
use zia.Portal.Session.{LoggedIn, user_view, workspace, new_session}
pub mod Calm
pub mod Verified

-- What comes from outside: bcrypt's hash, and the bytes of the n-th call of `rand.Read`.
pub record Entropy : Type 0 where
  pub hash_password : String → Option String
  pub otp_bytes : ℕ → Option (ℕ × ℕ × ℕ)
  pub code_bytes : ℕ → Option (List ℕ)

pub record SignupRequest : Type 0 where
  pub name : String
  pub role : String
  pub email : String
  pub company : String
  pub country : String
  pub currency : String
  pub phone : String
  pub password : String
  pub otp : String

pub data SignedUp : Type 0 where
  signed_in : LoggedIn → SignedUp
  without_session : SignedUp

-- `otpStore.get`, `set` and `delete` on the store that the handlers share.
abbrev pub otp_get : Env → String → Handler (Option OtpEntry)
otp_get env phone w =
    let (e, s) = Otp.get (env.now w.calls) phone w.api.otps in
    (answered e, tick (record w { api = record w.api { otps = s } }))

abbrev pub otp_set : Env → String → String → SignupData → Handler Done
otp_set env phone code signup w =
    let s = Otp.set (env.now w.calls) phone code signup w.api.otps in
    (answered tt, tick (record w { api = record w.api { otps = s } }))

abbrev pub otp_delete : String → Handler Done
otp_delete phone w =
    (answered tt, record w { api = record w.api { otps = Otp.delete phone w.api.otps } })

abbrev pub or_default : String → String → String
or_default default s = if nonempty s then s else default

abbrev pub merchant_of : SignupRequest → String → List ℕ → ℕ → Merchant
merchant_of req id code created = record {
  id = id;
  code = merchant_code code;
  legal_name = req.company;
  country = or_default "KE" req.country;
  default_currency = or_default "KES" req.currency;
  status = MerchantStatus.active;
  settlement_config = "";
  created_at = created;
}

abbrev pub user_of : SignupRequest → String → String → String → ℕ → User
user_of req merchant_id hash id created = record {
  id = id;
  merchant_id = merchant_id;
  name = req.name;
  email = req.email;
  password_hash = hash;
  title = title_of (or_default "owner" req.role);
  phone = req.phone;
  role = or_default "owner" req.role;
  created_at = created;
}

abbrev pub member_of : User → String → ℕ → TeamMember
member_of user id created = record {
  id = id;
  merchant_id = user.merchant_id;
  user_id = user.id;
  name = user.name;
  email = user.email;
  role = user.role;
  last_active = none;
  initials = member_initials user.name;
  created_at = created;
}

module _ (env : Env) (entropy : Entropy) where
  unfoldable pub send_otp : Option (Option SignupData) → Handler Done
  send_otp body = do
    envelope ← need body (bad_request "Invalid request")
    signup ← need envelope (bad_request "Phone is required")
    require (nonempty signup.phone) (bad_request "Phone is required")
    waiting ← otp_get env signup.phone
    require (absent waiting) (refused 429 "1001" "OTP already sent, please wait")
    bytes ← random entropy.otp_bytes
    otp_set env signup.phone (decimal (pos (otp_code bytes))) signup

  unfoldable pub check_code : SignupRequest → OtpEntry → Handler Done
  check_code req entry = do
    require (str_eq entry.code req.otp) (bad_request "Invalid or expired OTP")
    require (str_eq entry.signup.email req.email) (bad_request "Email does not match OTP request")
    otp_delete req.phone

  -- A code proves the phone once, and only for the email that it was asked with.
  unfoldable pub verify : SignupRequest → Handler Done
  verify req = do
    waiting ← otp_get env req.phone
    entry ← need waiting (bad_request "Invalid or expired OTP")
    check_code req entry

  unfoldable pub save_merchant : SignupRequest → String → List ℕ → Handler String
  save_merchant req id code = do
    created ← now env
    attempt (create_merchant env (merchant_of req id code created))
        (refused 500 "1007" "Failed to create workspace")
    answer id

  -- A new merchant for a user that nobody has invited.
  unfoldable pub found_merchant : SignupRequest → Handler String
  found_merchant req = do
    id ← uuid env
    bytes ← random entropy.code_bytes
    code ← need bytes internal_error
    save_merchant req id code

  -- The merchant that invited the user, if any, and the user's merchant.
  unfoldable pub merchant_for : SignupRequest → Option TeamInvitation → Handler (String × String)
  merchant_for req none = found_merchant req >>= λ id. answer ("", id)
  merchant_for req (some i) = answer (i.merchant_id, i.merchant_id)

  unfoldable pub save_user : SignupRequest → String → String → Handler User
  save_user req merchant_id hash = do
    id ← uuid env
    created ← now env
    let user = user_of req merchant_id hash id created
    attempt (create_user env user) (refused 500 "1007" "Failed to create user")
    answer user

  unfoldable pub add_user : SignupRequest → String → Handler User
  add_user req merchant_id = do
    hash ← need (entropy.hash_password req.password) internal_error
    save_user req merchant_id hash

  unfoldable pub save_member : User → Handler Done
  save_member user = do
    id ← uuid env
    created ← now env
    perform (create_member env (member_of user id created))
    perform (delete_invitations env user.merchant_id user.email)

  -- An invited user becomes a member, and the invitation is used up; errors are let pass.
  unfoldable pub add_member : String → User → Handler Done
  add_member invited_by user = if nonempty invited_by then save_member user else answer tt

  -- A session that cannot be kept leaves the user to log in.
  unfoldable pub sign_in : User → Merchant → Handler SignedUp
  sign_in user merchant = do
    session ← new_session env user.id
    kept ← try (create_session env session)
    answer (elim kept [
      | none ↦ without_session
      | some _ ↦
          signed_in (record {
            token = session.token;
            user = user_view user;
            workspace = workspace merchant;
          })
    ])

  unfoldable pub finish : User → Handler SignedUp
  finish user = do
    merchant ← attempt (merchant_by_id env user.merchant_id) internal_error
    sign_in user merchant

  unfoldable pub register_at : SignupRequest → String × String → Handler SignedUp
  register_at req places = do user ← add_user req places.1; add_member places.0 user; finish user

  unfoldable pub register : SignupRequest → Handler SignedUp
  register req = do
    invitation ← try (open_invitation env req.email)
    places ← merchant_for req invitation
    register_at req places

  abbrev pub is_complete : SignupRequest → Bool
  is_complete req =
      nonempty req.name
      && nonempty req.email
      && nonempty req.password
      && nonempty req.phone
      && nonempty req.otp

  abbrev pub is_address : String → Bool
  is_address email = has_char b'@' email && has_char b'.' email

  unfoldable pub signup_with : SignupRequest → Handler SignedUp
  signup_with req = do
    require (is_complete req) (bad_request "Name, email, password, phone and otp are required")
    require (is_address req.email) (bad_request "Invalid email address")
    verify req
    register req

  unfoldable pub signup : Option (Option SignupRequest) → Handler SignedUp
  signup body = do
    envelope ← need body (bad_request "Invalid request")
    req ← need envelope (bad_request "Invalid signup data")
    signup_with req
