-- ===== src/Base/Chars.antt =====
-- Texts character by character, and the decimal digits of a number.
use Prim.Native.Nat.{ℕ, zero, suc, ◌+◌, ◌-◌, ◌*◌, ◌/◌, ◌%◌, ◌^◌}
use Prim.Native.Char.{Char, code}
use Prim.Native.String.{String, [], ◌∷◌, ◌++◌}
use Prim.Native.String.append
use mathlib.Core.Path.{◌≡◌, refl, sym, ap, ◌∙◌}
use mathlib.Core.Bool.{Bool, true, false, ◌&&◌, ◌||◌}
use mathlib.Core.Option.{Option, none, some}
use native.Mathlib.Omega.{arith}
use zia.Base.Tests.{ltb, leb, ◌==◌, if◌then◌else◌}
use zia.Base.Int.{ℤ, pos, negsuc, sub_ℕ}

unfoldable pub text_length : String → ℕ
text_length [] = 0
text_length (c ∷ s) = suc (text_length s)

-- `s[:n]` and `s[n:]`
unfoldable pub text_take : ℕ → String → String
text_take zero s = []
text_take (suc n) [] = []
text_take (suc n) (c ∷ s) = c ∷ text_take n s

unfoldable pub text_drop : ℕ → String → String
text_drop zero s = s
text_drop (suc n) [] = []
text_drop (suc n) (c ∷ s) = text_drop n s

abbrev pub is_digit : Char → Bool
is_digit c = leb 48 (code c) && leb (code c) 57

abbrev digit : ℕ → String
digit n =
    if ltb n 1
    then "0"
    else if ltb n 2
    then "1"
    else if ltb n 3
    then "2"
    else if ltb n 4
    then "3"
    else if ltb n 5
    then "4"
    else if ltb n 6
    then "5"
    else if ltb n 7
    then "6"
    else if ltb n 8
    then "7"
    else if ltb n 9
    then "8"
    else "9"

-- A number has fewer digits than its successor has units.
unfoldable decimal_on : ℕ → ℕ → String
decimal_on zero n = ""
decimal_on (suc f) n =
    let rest = decimal_on f (n / 10) in if ltb n 10 then digit n else rest ++ digit (n % 10)

-- `%d`
unfoldable pub decimal : ℤ → String
unfolding decimal_on
decimal (pos n) = decimal_on (suc n) n
decimal (negsuc n) = "-" ++ decimal_on (suc (suc n)) (suc n)

-- The value of a text of digits, if it is one.
unfoldable digits_value : ℕ → String → Option ℕ
digits_value acc [] = some acc
digits_value acc (c ∷ s) =
    let rest = digits_value (acc * 10 + (code c - 48)) s in if is_digit c then rest else none

unfoldable unsigned : String → Option ℕ
unfolding digits_value
unsigned [] = none
unsigned (c ∷ s) = digits_value 0 (c ∷ s)

-- An int64 that is cut to its range, and whether it was in range.
unfoldable bounded : Bool → Option ℕ → ℤ × Bool
bounded negative none = (pos 0, false)
bounded false (some n) = if ltb n (2 ^ 63) then (pos n, true) else (pos (2 ^ 63 - 1), false)
bounded true (some n) = if leb n (2 ^ 63) then (sub_ℕ 0 n, true) else (negsuc (2 ^ 63 - 1), false)

-- `strconv.Atoi`: the value, and whether there was no error.
unfoldable pub atoi : String → ℤ × Bool
unfolding unsigned bounded
atoi [] = (pos 0, false)
atoi (c ∷ s) =
    if code c == b'-'
    then bounded true (unsigned s)
    else if code c == b'+'
    then bounded false (unsigned s)
    else bounded false (unsigned (c ∷ s))

pub text_take-append : (s t : String) → text_take (text_length s) (s ++ t) ≡ s
unfolding text_take text_length
text_take-append [] t = refl
text_take-append (c ∷ s) t = rw (append.cons c s t) (ap (λ r. c ∷ r) (text_take-append s t))

pub text_drop-append : (s t : String) → text_drop (text_length s) (s ++ t) ≡ t
unfolding text_drop text_length
text_drop-append [] t = append.nil t
text_drop-append (c ∷ s) t = rw (append.cons c s t) (text_drop-append s t)

-- `strings.Contains` of one character.
unfoldable pub has_char : ℕ → String → Bool
has_char n [] = false
has_char n (c ∷ s) = code c == n || has_char n s

-- What stands before the first of a character, and after it.
unfoldable before : ℕ → String → String
before n [] = []
before n (c ∷ s) = let rest = c ∷ before n s in if code c == n then [] else rest

unfoldable after : ℕ → String → String
after n [] = []
after n (c ∷ s) = let rest = after n s in if code c == n then s else rest

or_false : (a b : Bool) → (a || b) ≡ false → (a ≡ false) × (b ≡ false)
or_false a b h = ground arith

before-append :
    (n : ℕ) (c : Char) (s t : String)
    → (code c == n) ≡ true
    → has_char n s ≡ false
    → before n (s ++ (c ∷ t)) ≡ s
unfolding before has_char
before-append n c [] t is free = rw (append.nil (c ∷ t)) (rw is refl)
before-append n c (d ∷ s) t is free =
    let other : (code d == n) ≡ false = (or_false (code d == n) (has_char n s) free).0 in
    let rest : has_char n s ≡ false = (or_false (code d == n) (has_char n s) free).1 in
    rw (append.cons d s (c ∷ t)) (rw other (ap (λ r. d ∷ r) (before-append n c s t is rest)))

after-append :
    (n : ℕ) (c : Char) (s t : String)
    → (code c == n) ≡ true
    → has_char n s ≡ false
    → after n (s ++ (c ∷ t)) ≡ t
unfolding after has_char
after-append n c [] t is free = rw (append.nil (c ∷ t)) (rw is refl)
after-append n c (d ∷ s) t is free =
    let other : (code d == n) ≡ false = (or_false (code d == n) (has_char n s) free).0 in
    let rest : has_char n s ≡ false = (or_false (code d == n) (has_char n s) free).1 in
    rw (append.cons d s (c ∷ t)) (rw other (after-append n c s t is rest))

-- Two texts that are joined by a character which the first of them has not are told apart.
pub joined-injective :
    (c : Char) (s s' t t' : String)
    → has_char (code c) s ≡ false
    → has_char (code c) s' ≡ false
    → s ++ (c ∷ t) ≡ s' ++ (c ∷ t')
    → (s ≡ s') × (t ≡ t')
joined-injective c s s' t t' free free' same =
    let is : (code c == code c) ≡ true = ground arith in
    (
      sym (before-append (code c) c s t is free)
          ∙ ap (before (code c)) same
          ∙ before-append (code c) c s' t' is free',
      sym (after-append (code c) c s t is free)
          ∙ ap (after (code c)) same
          ∙ after-append (code c) c s' t' is free',
    )
