-- ===== src/Repository/Intents.antt =====
-- internal/repository/paymentintent.go: the statements that the engines use.
use zia.Base.{ℕ, String, Bool, ◌&&◌, ◌||◌, List, [], ◌∷◌, ◌++◌, if◌then◌else◌, str_eq, find, any}
use zia.Domain.Intent.{PaymentIntent, PaymentIntentStatus, status_eq}
use zia.Effects.Failure.{external, ok, err}
use zia.Effects.World.{Env, tick}
use zia.Effects.Action.{Action, Done, exec, query, found}

abbrev pub has_id : String → PaymentIntent → Bool
has_id id pi = str_eq pi.id id

-- The unique index of migrations/000001_init.up.sql on (merchant_id, idempotency_key).
abbrev pub same_key : PaymentIntent → PaymentIntent → Bool
same_key a b = str_eq a.merchant_id b.merchant_id && str_eq a.idempotency_key b.idempotency_key

-- The primary key or that index refuses the row.
abbrev pub clashes : PaymentIntent → PaymentIntent → Bool
clashes pi row = has_id pi.id row || same_key pi row

unfoldable pub create : Env → PaymentIntent → Action Done
create env pi w =
    if any (clashes pi) w.intents
    then (err external, tick w)
    else exec env (λ v. record v { intents = v.intents ++ pi ∷ [] }) w

unfoldable pub get_by_id : Env → String → Action PaymentIntent
get_by_id env id = query env λ w. found (find (has_id id) w.intents)

-- `SET status = $1, updated_at = now()` on a row.
abbrev pub with_status : PaymentIntentStatus → ℕ → PaymentIntent → PaymentIntent
with_status status now pi = record pi { status = status; updated_at = now }

-- `UPDATE … WHERE id = $2`
unfoldable pub set_status :
    String → PaymentIntentStatus → ℕ → List PaymentIntent → List PaymentIntent
set_status id status now [] = []
set_status id status now (pi ∷ pis) =
    (if has_id id pi then with_status status now pi else pi) ∷ set_status id status now pis

unfoldable pub update_status : Env → String → PaymentIntentStatus → Action Done
update_status env id status =
    exec env λ w. record w { intents = set_status id status (env.now w.calls) w.intents }

-- `WHERE id = $2 AND status = $3`
abbrev pub is_at : String → PaymentIntentStatus → PaymentIntent → Bool
is_at id from pi = has_id id pi && status_eq pi.status from

unfoldable pub set_status_from :
    String → PaymentIntentStatus → PaymentIntentStatus → ℕ → List PaymentIntent → List PaymentIntent
set_status_from id from to now [] = []
set_status_from id from to now (pi ∷ pis) =
    (if is_at id from pi then with_status to now pi else pi) ∷ set_status_from id from to now pis

-- Whether a row was affected.
unfoldable pub update_status_safe :
    Env → String → PaymentIntentStatus → PaymentIntentStatus → Action Bool
update_status_safe env id from to w = if env.fails w.calls then (err external, tick w) else (
  ok (any (is_at id from) w.intents),
  tick (record w { intents = set_status_from id from to (env.now w.calls) w.intents }),
)
