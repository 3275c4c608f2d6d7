-- ===== src/Repository/Payouts.antt =====
-- internal/repository/payout.go and merchant.go: the statements that the settlement run uses.
use zia.Base.{ℕ, String, List, [], ◌∷◌, ◌++◌, if◌then◌else◌, str_eq}
use zia.Domain.Accounting.{Payout, PayoutStatus, Merchant}
use zia.Effects.Failure.{ok}
use zia.Effects.World.{Env}
use zia.Effects.Action.{Action, Done, exec, query}

unfoldable pub create : Env → Payout → Action Done
create env p = exec env λ w. record w { payouts = w.payouts ++ p ∷ [] }

unfoldable pub set_status : String → PayoutStatus → ℕ → List Payout → List Payout
set_status id status now [] = []
set_status id status now (p ∷ ps) =
    (if str_eq p.id id then record p { status = status; updated_at = now } else p)
    ∷ set_status id status now ps

unfoldable pub update_status : Env → String → PayoutStatus → Action Done
update_status env id status =
    exec env λ w. record w { payouts = set_status id status (env.now w.calls) w.payouts }

unfoldable pub list_merchants : Env → Action (List Merchant)
list_merchants env = query env λ w. ok w.merchants
