-- ===== src/Portal/Texts.antt =====
-- internal/api/portal.go: `memberInitials`, `otpCode`, `generateMerchantCode`, and the texts that
-- `Signup` builds. Names and roles are taken to be ASCII: Go cuts bytes, and this cuts characters.
use zia.Base.{
  ℕ, ◌+◌, ◌*◌, ◌%◌, ◌≤◌, ◌<◌, String, Bool, ◌||◌, ◌&&◌, ◌-◌, ◌<>◌, Option, none, some, List, [],
  ◌∷◌, if◌then◌else◌, leb, ◌==◌, nonempty, arith,
}
use zia.Base.Chars.{text_take, text_drop}
use Prim.Native.Char.{Char, code}

abbrev is_space : Char → Bool
is_space c = code c == 32 || (leb 9 (code c) && leb (code c) 13)

-- `strings.Fields`: the word that is begun, and the words that follow.
unfoldable pub words_from : String → String → List String
words_from word String.[] = if nonempty word then word ∷ [] else []
words_from word (String.◌∷◌ c s) =
    let apart = words_from "" s in
    let longer = words_from (word <> (String.◌∷◌ c String.[])) s in
    if is_space c then (if nonempty word then word ∷ apart else apart) else longer

abbrev pub fields : String → List String
fields s = words_from "" s

unfoldable last_word : String → List String → String
last_word word [] = word
last_word word (next ∷ more) = last_word next more

-- `strings.ToUpper` of one letter.
unfoldable upper : String → String
upper String.[] = ""
upper (String.◌∷◌ c s) =
    let n = code c in
    if leb 97 n && leb n 122
    then text_take 1 (text_drop (n - 97) "ABCDEFGHIJKLMNOPQRSTUVWXYZ")
    else String.◌∷◌ c String.[]

unfoldable pub initials_of : List String → String
unfolding upper last_word
initials_of [] = ""
initials_of (word ∷ []) = upper word
initials_of (word ∷ next ∷ more) = upper word <> upper (last_word next more)

abbrev pub member_initials : String → String
member_initials name = initials_of (fields name)

-- `strings.ToUpper(role[:1]) + role[1:]`
unfoldable pub title_of : String → String
unfolding upper
title_of role = upper role <> text_drop 1 role

-- The bytes of `rand.Read` are a parameter: none where it fails.
unfoldable pub otp_code : Option (ℕ × ℕ × ℕ) → ℕ
otp_code none = 123_456
otp_code (some (b₀, b₁, b₂)) = 100_000 + (b₀ * 65_536 + b₁ * 256 + b₂) % 900_000

abbrev charset : String
charset = "ABCDEFGHJKLMNPQRSTUVWXYZ23456789"

unfoldable code_letters : List ℕ → String
code_letters [] = ""
code_letters (b ∷ bs) = text_take 1 (text_drop (b % 32) charset) <> code_letters bs

unfoldable pub merchant_code : List ℕ → String
unfolding code_letters
merchant_code bytes = "M-" <> code_letters bytes

-- A code has six digits.
pub otp_code-bound :
    (bytes : Option (ℕ × ℕ × ℕ)) → (100_000 ≤ otp_code bytes) × (otp_code bytes < 1_000_000)
unfolding otp_code
otp_code-bound none = omega arith
otp_code-bound (some (b₀, b₁, b₂)) = omega arith
