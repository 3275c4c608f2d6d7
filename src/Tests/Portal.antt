-- ===== src/Tests/Portal.antt =====
-- The merchant portal at concrete inputs.
use zia.Base.{
  ℕ, List, Option, String, false, ◌≡◌, refl, some, [], ◌∷◌, str_eq, any, not, ◌&&◌, arith,
}
use zia.Domain.Portal.{User, ApiKey, TeamInvitation}
use zia.Effects.World.{World, tick}
use zia.Api.Handler.{Reply, answered}
use zia.Portal.Otp.{SignupData, get}
use zia.Portal.Otp.History.{sets, gets, run, promised, get-promised}
use zia.Base.Chars.{text_take, text_drop}
use zia.Portal.Tables.{newest}
use zia.Portal.Session.{Credentials, portal_auth, login, user_view, workspace}
use zia.Portal.Session.Login.{login-portal_auth}
use zia.Portal.Signup.{Entropy, SignupRequest, signup}
use zia.Portal.Signup.Verified.{Guarded, signup-Guarded}
use zia.Portal.Keys.{KeyRequest, KeyView, create_key, revoke_key, raw_key}
use zia.Portal.Keys.Access.{created_key-access}
use zia.Authn.{middleware, write_unauthorized}
use zia.Api.Payments.{PaymentRequest, serve_create}
use zia.Api.Payments.Guarded.{TurnedAway, Asked, Key, serve_create-Asked}
use zia.Base.Int.{pos}
use zia.Base.{◌⊎◌}
use zia.Portal.Team.{accept_invitation}
use zia.Portal.Team.Invited.{SameUsers, TurnedDown, Joined, accept_invitation-Joined}
use zia.Tests.Fixtures.{routing, encode, calm, merchant, no_accounts, open_books}

abbrev asked : SignupData
asked = record {
  name = "Ann";
  role = "owner";
  email = "ann@example.com";
  company = "First";
  country = "";
  currency = "";
  phone = "254700000001";
  password = "secret";
}

abbrev request : SignupRequest
request = record {
  name = "Ann";
  role = "owner";
  email = "ann@example.com";
  company = "First";
  country = "";
  currency = "";
  phone = "254700000001";
  password = "secret";
  otp = "100007";
}

abbrev entropy : Entropy
entropy = record {
  hash_password = λ p. some p;
  otp_bytes = λ _. some (0, 0, 7);
  code_bytes = λ _. some (1 ∷ 2 ∷ []);
}

-- A code was sent, and waits.
abbrev sent : World
sent = record open_books {
  api = record no_accounts {
    otps = ("254700000001", record { code = "100007"; expires_at = 1000; signup = asked }) ∷ [];
  };
}

abbrev ann : User
ann = record {
  id = "u_1";
  merchant_id = "m_1";
  name = "Ann";
  email = "ann@example.com";
  password_hash = "secret";
  title = "Owner";
  phone = "254700000001";
  role = "owner";
  created_at = 0;
}

abbrev staffed : World
staffed = record open_books { api = record no_accounts { users = ann ∷ [] } }

abbrev ann_creds : Credentials
ann_creds = record { email = "ann@example.com"; password = "secret" }

get-promised_example :
    (get 20 "p" (run (gets 15 "p" ∷ sets 10 "p" "2" asked ∷ sets 5 "p" "1" asked ∷ []))).0
    ≡ some (record { code = "2"; expires_at = 600_000_000_010; signup = asked })
unfolding promised
get-promised_example =
    get-promised (gets 15 "p" ∷ sets 10 "p" "2" asked ∷ sets 5 "p" "1" asked ∷ []) 20 "p"
      (omega arith, (omega arith, (omega arith, tt)))

signup-Guarded_example :
    Guarded calm entropy
      (some (some request))
      sent
      (signup calm entropy (some (some request)) sent).1
signup-Guarded_example = signup-Guarded calm entropy (some (some request)) sent

abbrev signed_up : World
signed_up = (login calm str_eq (some (some ann_creds)) staffed).1

login-portal_auth_example :
    ((login calm str_eq (some (some ann_creds)) staffed).0
      ≡ answered (record { token = "new"; user = user_view ann; workspace = workspace merchant }))
    × ((portal_auth calm "Bearer new" (record signed_up { calls = 50 })).0
        ≡ answered ("u_1", "m_1"))
    × (any (λ x. str_eq x.user_id "u_1" && not (str_eq x.token "new")) signed_up.api.sessions
        ≡ false)
unfolding newest
login-portal_auth_example =
    login-portal_auth calm (λ _. refl) str_eq ann_creds ann merchant staffed
      (record signed_up { calls = 50 }) refl refl refl refl refl refl refl refl

abbrev key_asked : KeyRequest
key_asked = record { name = "Shop"; environment = ""; kind = "Secret" }

abbrev draw : ℕ → Option (List ℕ)
draw n = some (1 ∷ 171 ∷ [])

created_key-access_example :
    let (r, w) = create_key calm (λ t. t) draw "m_1" (some (some key_asked)) staffed in
    let use_key : World → Reply String =
      λ v. (middleware calm (λ t. t) "Bearer sk_live_01ab" v).0 in
    let view : KeyView = record {
      id = "new";
      name = "Shop";
      prefix = "sk_live_01ab";
      environment = "live";
      created_at = 2;
    } in
    (r ≡ answered ("sk_live_01ab", view))
    × (use_key w ≡ answered "m_1")
    × (use_key (revoke_key calm "m_2" "new" w).1 ≡ answered "m_1")
    × (use_key (revoke_key calm "m_1" "new" w).1 ≡ write_unauthorized)
unfolding raw_key text_take text_drop
created_key-access_example =
    created_key-access calm (λ _. refl) (λ t. t) draw "m_1" "m_2" key_asked (1 ∷ 171 ∷ []) staffed
      (create_key calm (λ t. t) draw "m_1" (some (some key_asked)) staffed).1 refl refl refl refl
      refl

abbrev shop_key : ApiKey
shop_key = record {
  id = "key_1";
  merchant_id = "m_1";
  name = "Shop";
  key_hash = "sk_live_1";
  key_prefix = "sk_live_1";
  environment = "live";
  created_at = 0;
}

abbrev with_key : World
with_key = record open_books { api = record no_accounts { api_keys = shop_key ∷ [] } }

abbrev payment_asked : PaymentRequest
payment_asked = record {
  amount = pos 1000;
  currency = "KES";
  method = "mpesa_stk";
  customer_phone = "254700000000";
  customer_email = "";
  customer_ref = "";
}

serve_create-Asked_example :
    let end =
      serve_create calm routing encode
        (λ t. t)
        "Bearer sk_live_1"
        (some ("order_1", some payment_asked))
        with_key in
    TurnedAway calm routing encode (λ t. t) with_key end
    ⊎ ((k : ApiKey) × Key calm routing encode (λ t. t) "Bearer sk_live_1" with_key k
        × Asked calm routing encode
            (λ t. t)
            (some ("order_1", some payment_asked))
            k.merchant_id
            (tick with_key)
            end)
serve_create-Asked_example =
    serve_create-Asked calm routing encode (λ t. t) "Bearer sk_live_1"
      (some ("order_1", some payment_asked)) with_key

abbrev invitation : TeamInvitation
invitation = record {
  id = "in_1";
  merchant_id = "m_2";
  email = "ann@example.com";
  role = "viewer";
  token = "welcome";
  expires_at = 1000;
  created_at = 0;
}

abbrev invited : World
invited = record staffed { api = record staffed.api { invitations = invitation ∷ [] } }

accept_invitation-Joined_example :
    let end = accept_invitation calm "u_1" "welcome" invited in
    SameUsers calm "u_1" "welcome" invited end.1
    × (TurnedDown calm "u_1" "welcome" invited end ⊎ Joined calm "u_1" "welcome" invited end)
accept_invitation-Joined_example = accept_invitation-Joined calm "u_1" "welcome" invited
