-- ===== src/Ledger/Accounts.antt =====
-- internal/ledger/accounts.go.
use Prim.Native.Char.{code}
use zia.Base.{String, ◌&&◌, ◌==◌, if◌then◌else◌, str_eq, ◌<>◌}

abbrev pub psp_clearing_mpesa : String
psp_clearing_mpesa = "psp_clearing:mpesa"

abbrev pub psp_clearing_paystack : String
psp_clearing_paystack = "psp_clearing:paystack"

abbrev pub platform_fees : String
platform_fees = "platform:fees"

abbrev pub platform_operating : String
platform_operating = "platform:operating"

-- `tmpl` with the id in place of each `%s`. The templates are ASCII, so the bytes that the loop
-- walks are the characters.
unfoldable pub format_account : String → String → String
format_account String.[] id = String.[]
format_account (String.◌∷◌ c String.[]) id = String.◌∷◌ c String.[]
format_account (String.◌∷◌ c (String.◌∷◌ d rest)) id =
    let replaced = format_account rest id in
    let kept = format_account (String.◌∷◌ d rest) id in
    if code c == b'%' && code d == b's' then id <> replaced else String.◌∷◌ c kept

unfoldable pub merchant_available : String → String
unfolding format_account
merchant_available = format_account "merchant:%s:available"

unfoldable pub merchant_in_transit : String → String
unfolding format_account
merchant_in_transit = format_account "merchant:%s:in_transit"

unfoldable pub merchant_settled : String → String
unfolding format_account
merchant_settled = format_account "merchant:%s:settled"

-- engine.go: the clearing account of a PSP.
unfoldable pub psp_clearing_account : String → String
psp_clearing_account psp =
    if str_eq psp "mpesa"
    then psp_clearing_mpesa
    else if str_eq psp "paystack"
    then psp_clearing_paystack
    else "psp_clearing:" <> psp
