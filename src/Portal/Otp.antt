-- ===== src/Portal/Otp.antt =====
-- internal/api/portal.go, `otpStore`: the codes that wait for their phones. The clock's reading is an
-- argument.
use zia.Base.{ℕ, ◌+◌, String, Option, none, some, [], if◌then◌else◌, ltb}
use zia.Base.Dict.{Dict, lookup, insert, remove}
pub mod History

pub record SignupData : Type 0 where
  pub name : String
  pub role : String
  pub email : String
  pub company : String
  pub country : String
  pub currency : String
  pub phone : String
  pub password : String

pub record OtpEntry : Type 0 where
  pub code : String
  pub expires_at : ℕ
  pub signup : SignupData

abbrev pub OtpStore : Type 0
OtpStore = Dict OtpEntry

-- `10 * time.Minute`
abbrev pub otp_lifetime : ℕ
otp_lifetime = 600_000_000_000

abbrev pub new_otp_store : OtpStore
new_otp_store = []

unfoldable pub set : ℕ → String → String → SignupData → OtpStore → OtpStore
set now phone code signup s =
    insert phone (record { code = code; expires_at = now + otp_lifetime; signup = signup }) s

unfoldable pub get : ℕ → String → OtpStore → Option OtpEntry × OtpStore
get now phone s = elim (lookup phone s) [
  | none ↦ (none, s)
  | some e ↦ if ltb e.expires_at now then (none, remove phone s) else (some e, s)
]

unfoldable pub delete : String → OtpStore → OtpStore
delete phone s = remove phone s
