-- ===== src/Api/Bearer.antt =====
-- internal/authn/middleware.go and internal/api/portal.go: the `Authorization` header that both read.
use zia.Base.{
  String, Bool, true, ◌&&◌, ◌<>◌, ◌≡◌, ◌≢◌, refl, sym, ap, ◌∙◌, str_eq, str_eq_ne, nonempty,
}
use zia.Base.Chars.{text_take, text_drop, text_length, text_take-append, text_drop-append}

-- `auth != "" && strings.HasPrefix(auth, "Bearer ")`
abbrev pub is_bearer : String → Bool
is_bearer header = nonempty header && str_eq (text_take 7 header) "Bearer "

-- `strings.TrimPrefix(auth, "Bearer ")`, where it has the prefix.
abbrev pub token_of : String → String
token_of header = text_drop 7 header

str_eq-clash : ◌≡◌ {A = String} "Bearer " "" → ⊥
str_eq-clash h = cc

pub token_of-bearer : (token : String) → token_of ("Bearer " <> token) ≡ token
unfolding text_length
token_of-bearer token = text_drop-append "Bearer " token

taken : (token : String) → text_take 7 ("Bearer " <> token) ≡ "Bearer "
unfolding text_length
taken token = text_take-append "Bearer " token

pub bearer-is_bearer : (token : String) → is_bearer ("Bearer " <> token) ≡ true
unfolding text_take
bearer-is_bearer token =
    let header = "Bearer " <> token in
    let not_empty : header ≢ "" = λ h.
      let cut : text_take 7 header ≡ "" = ap (text_take 7) h in
      absurd (str_eq-clash (sym (taken token) ∙ cut)) in
    rw (str_eq_ne header "" not_empty) (rw (taken token) refl)
