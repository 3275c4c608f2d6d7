-- ===== src/Ledger/Names.antt =====
-- internal/ledger/accounts.go: no two accounts share a name.
use Prim.Native.Char.{code}
use text.Mathlib.TextLemmas.{nil-append, cons-append, append_cancel_left, append_cancel_right}
use zia.Base.{
  ℕ, String, ◌≡◌, ◌≢◌, refl, sym, ap, ◌∙◌, arith, ◌<>◌, str_eq, str_eq_iff, Bool-cases, inl, inr,
}
use zia.Ledger.Accounts.{
  platform_fees, platform_operating, merchant_available, merchant_in_transit, psp_clearing_account,
}

-- The last character of a text, or `d` where it is empty.
abbrev last_or : ℕ → String → ℕ
last_or d String.[] = d
last_or d (String.◌∷◌ c s) = last_or (code c) s

last_or-append : (d : ℕ) (s t : String) → last_or d (s <> t) ≡ last_or (last_or d s) t
last_or-append d String.[] t = rw nil-append
last_or-append d (String.◌∷◌ c s) t = rw cons-append (last_or-append (code c) s t)

pub merchant_available_inj : (a b : String) → merchant_available a ≡ merchant_available b → a ≡ b
unfolding merchant_available
merchant_available_inj a b h = append_cancel_right a b ":available" (cc)

pub merchant_in_transit_inj : (a b : String) → merchant_in_transit a ≡ merchant_in_transit b → a ≡ b
unfolding merchant_in_transit
merchant_in_transit_inj a b h = append_cancel_right a b ":in_transit" (cc)

-- The name as the template gives it, with the part before the id as far as it is one character.
last-available : (a : String) → last_or 0 (merchant_available a) ≡ b'e'
unfolding merchant_available
last-available a = last_or-append b':' a ":available"

last-in_transit : (a : String) → last_or 0 (merchant_in_transit a) ≡ b't'
unfolding merchant_in_transit
last-in_transit a = last_or-append b':' a ":in_transit"

-- A PSP's clearing account is named alike for every PSP, whether the code lists it or not.
clearing_lem : (psp : String) → psp_clearing_account psp ≡ "psp_clearing:" <> psp
unfolding psp_clearing_account
clearing_lem psp = elim (Bool-cases (str_eq psp "mpesa")) [
  | inl mpesa ↦ rw ((str_eq_iff psp "mpesa").0 mpesa) refl
  | inr other ↦ elim (Bool-cases (str_eq psp "paystack")) [
    | inl paystack ↦ rw ((str_eq_iff psp "paystack").0 paystack) refl
    | inr unlisted ↦ rw other (rw unlisted refl)
  ]
]

-- The first and the second character of a text.
abbrev first_of : String → ℕ
first_of String.[] = 0
first_of (String.◌∷◌ c s) = code c

abbrev second_of : String → ℕ
second_of String.[] = 0
second_of (String.◌∷◌ c s) = first_of s

first-clearing : (psp : String) → first_of (psp_clearing_account psp) ≡ b'p'
first-clearing psp = rw (clearing_lem psp, cons-append _ "sp_clearing:" psp) refl

second-clearing : (psp : String) → second_of (psp_clearing_account psp) ≡ b's'
second-clearing psp =
    rw (clearing_lem psp, cons-append _ "sp_clearing:" psp, cons-append _ "p_clearing:" psp) refl

pub available-ne-in_transit : (a b : String) → merchant_available a ≢ merchant_in_transit b
available-ne-in_transit a b h = omega (arith, last-available a, last-in_transit b, ap (last_or 0) h)

pub clearing-ne-available : (psp a : String) → psp_clearing_account psp ≢ merchant_available a
unfolding merchant_available
clearing-ne-available psp a h = omega (arith, first-clearing psp, ap first_of h)

pub fees-ne-available : (a : String) → platform_fees ≢ merchant_available a
unfolding merchant_available
fees-ne-available a h = omega (arith, ap first_of h)

pub operating-ne-in_transit : (a : String) → platform_operating ≢ merchant_in_transit a
unfolding merchant_in_transit
operating-ne-in_transit a h = omega (arith, ap first_of h)

pub clearing-ne-fees : (psp : String) → psp_clearing_account psp ≢ platform_fees
clearing-ne-fees psp h = omega (arith, second-clearing psp, ap second_of h)

pub clearing_inj : (p q : String) → psp_clearing_account p ≡ psp_clearing_account q → p ≡ q
clearing_inj p q h =
    append_cancel_left "psp_clearing:" p q (sym (clearing_lem p) ∙ h ∙ clearing_lem q)

pub operating-ne-available : (a : String) → platform_operating ≢ merchant_available a
unfolding merchant_available
operating-ne-available a h = omega (arith, ap first_of h)

-- The accounts of different kinds are different accounts, whatever the merchants and the PSP.
pub accounts_apart :
    (a b psp : String)
    → (merchant_available a ≢ merchant_in_transit b)
      × (psp_clearing_account psp ≢ merchant_available a)
      × (platform_fees ≢ merchant_available a)
      × (platform_operating ≢ merchant_available a)
      × (platform_operating ≢ merchant_in_transit a)
      × (psp_clearing_account psp ≢ platform_fees)
accounts_apart a b psp = (
  available-ne-in_transit a b,
  clearing-ne-available psp a,
  fees-ne-available a,
  operating-ne-available a,
  operating-ne-in_transit a,
  clearing-ne-fees psp,
)
