-- ===== src/Api/Settings.antt =====
-- internal/api/merchant.go: a merchant's settings and balances. The JSON of the settings is a
-- parameter; what it decodes to is the `webhook_url` of it.
use zia.Base.{String, Option, none, some, List, map, find, str_eq, nonempty, if◌then◌else◌}
use zia.Base.Int.{ℤ, pos}
use zia.Domain.Accounting.{Merchant}
use zia.Effects.World.{Env}
use zia.Effects.Action.{Action, Done, exec}
use zia.Ledger.Accounts.{merchant_available, merchant_in_transit}
use zia.Ledger.Rows.{balance}
use zia.Portal.Tables.{merchant_by_id}
use zia.Api.Handler.{
  Handler, Reply, refused, invalid, ◌>>=◌, ◌>>◌, answer, attempt, need, require, try,
}
pub mod Kept

unfoldable pub with_config : String → String → List Merchant → List Merchant
with_config id config ms =
    map (λ m. if str_eq m.id id then record m { settlement_config = config } else m) ms

unfoldable pub update_settlement_config : Env → String → String → Action Done
update_settlement_config env id config =
    exec env λ w. record w { merchants = with_config id config w.merchants }

-- `merchantID`: the key's merchant.
abbrev merchant_named : String → Handler Done
merchant_named merchant_id = require (nonempty merchant_id) (refused 401 "1002" "unauthorized")

unfoldable pub save_settings : Env → String → String → String → Handler String
save_settings env merchant_id config url = do
  attempt (update_settlement_config env merchant_id config)
      (refused 500 "500" "failed to save settings")
  answer url

unfoldable pub update_settings :
    Env → (String → String) → String → Option (Option String) → Handler String
update_settings env encode merchant_id body = do
  merchant_named merchant_id
  envelope ← need body (invalid "body" "invalid JSON")
  url ← need envelope (invalid "primaryData" "invalid payload")
  save_settings env merchant_id (encode url) url

abbrev pub shown_url : (String → Option String) → Merchant → String
shown_url decode m =
    if nonempty m.settlement_config
    then (elim (decode m.settlement_config) [ none ↦ "" | some url ↦ url ])
    else ""

unfoldable pub get_settings : Env → (String → Option String) → String → Handler (Merchant × String)
get_settings env decode merchant_id = do
  merchant_named merchant_id
  merchant ← attempt (merchant_by_id env merchant_id) (refused 404 "404" "merchant not found")
  answer (merchant, shown_url decode merchant)

abbrev or_zero : Option ℤ → ℤ
or_zero none = pos 0
or_zero (some n) = n

-- The available balance and that in transit. One that cannot be read is shown as zero.
unfoldable pub get_balance : Env → String → Handler (ℤ × ℤ)
get_balance env merchant_id = do
  merchant_named merchant_id
  available ← try (balance env (merchant_available merchant_id))
  in_transit ← try (balance env (merchant_in_transit merchant_id))
  answer (or_zero available, or_zero in_transit)
