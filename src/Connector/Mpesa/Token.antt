-- ===== src/Connector/Mpesa/Token.antt =====
-- internal/connector/mpesa/auth.go, and the configuration of connector.go.
use zia.Base.{
  ℕ, ◌+◌, ◌-◌, String, Bool, ◌<>◌, Option, List, none, some, [], ◌∷◌, if◌then◌else◌, ltb, ◌==◌, not,
}
use zia.Base.Int.{ℤ, pos, pos_part, neg_part}
use zia.Base.Word.{mul64}
use zia.Base.Chars.{atoi, decimal}
use zia.Effects.Failure.{errorf, wrapf, external, Result, ok, err}
use zia.Connector.Http.{HttpRequest, Server, parse, ◌>>=◌}

pub record MpesaConfig : Type 0 where
  pub consumer_key : String
  pub consumer_secret : String
  pub short_code : String
  pub pass_key : String
  pub callback_base : String
  pub sandbox : Bool
  pub b2c_initiator_name : String
  pub b2c_security_cred : String
  pub allowed_ips : List String

unfoldable pub base_url : MpesaConfig → String
base_url cfg =
    if cfg.sandbox then "https://sandbox.safaricom.co.ke" else "https://api.safaricom.co.ke"

-- The token that is kept, and the time at which it expires: Go's zero time at first.
pub record TokenManager : Type 0 where
  pub token : String
  pub expires_at : ℕ

abbrev pub new_token_manager : TokenManager
new_token_manager = record { token = ""; expires_at = 0 }

pub record TokenResponse : Type 0 where
  pub access_token : String
  pub expires_in : String

pub record TokenCodec : Type 0 where
  pub base64 : String → String
  pub token_response : String → Option TokenResponse

-- `60 * time.Second`
abbrev pub margin : ℕ
margin = 60_000_000_000

-- `t.Add(d)`; a time before Go's zero time is as early as that one.
abbrev pub add_duration : ℕ → ℤ → ℕ
add_duration t d = t + pos_part d - neg_part d

-- The seconds for which a token holds: where they are no number, 3599.
unfoldable pub expiry_of : String → ℤ
expiry_of text = let (n, good) = atoi text in if good then n else pos 3599

module _ (cfg : MpesaConfig) (codec : TokenCodec) (server : Server) where
  abbrev pub token_request : HttpRequest
  token_request = record {
    method = "GET";
    url = base_url cfg <> "/oauth/v1/generate?grant_type=client_credentials";
    authorization = "Basic " <> codec.base64 (cfg.consumer_key <> ":" <> cfg.consumer_secret);
    body = "";
  }

  unfoldable pub fetch_token : Result (String × ℤ)
  fetch_token = elim (server token_request) [
    | none ↦ err external
    | some reply ↦
        if not (reply.status_code == 200)
        then err (
            errorf "mpesa auth failed: status=%d body=%s"
              (decimal (pos reply.status_code) ∷ reply.body ∷ []))
        else parse codec.token_response "parse auth response" reply.body >>= λ result.
            ok (result.access_token, expiry_of result.expires_in)
  ]

  -- `Token`, which reads the clock as it begins and after it has fetched a token.
  unfoldable pub token : ℕ → ℕ → TokenManager → Result String × TokenManager
  token asked_at fetched_at t =
      if ltb asked_at (t.expires_at - margin) then (ok t.token, t) else elim fetch_token [
        | err e ↦ (err (wrapf "fetch mpesa token" e), t)
        | ok (new, expires_in) ↦ (
          ok new,
          record t {
            token = new;
            expires_at = add_duration fetched_at (mul64 expires_in (pos 1_000_000_000));
          },
        )
      ]
