-- ===== src/Repository/Attempts.antt =====
-- internal/repository/attempt.go: the statements that the engines use.
use zia.Base.{ℕ, String, ◌&&◌, List, [], ◌∷◌, ◌++◌, if◌then◌else◌, str_eq, find}
use zia.Domain.Attempt.{Attempt, AttemptStatus}
use zia.Effects.World.{Env}
use zia.Effects.Action.{Action, Done, exec, query, found}

unfoldable pub create : Env → Attempt → Action Done
create env a = exec env λ w. record w { attempts = w.attempts ++ a ∷ [] }

unfoldable pub get_by_id : Env → String → Action Attempt
get_by_id env id = query env λ w. found (find (λ a. str_eq a.id id) w.attempts)

unfoldable pub get_by_psp_reference : Env → String → String → Action Attempt
get_by_psp_reference env psp psp_reference =
    query env
      λ w. found (find (λ a. str_eq a.psp psp && str_eq a.psp_reference psp_reference) w.attempts)

-- `UPDATE attempts SET … WHERE id = $2`
unfoldable pub set_where : String → (Attempt → Attempt) → List Attempt → List Attempt
set_where id f [] = []
set_where id f (a ∷ as_) = (if str_eq a.id id then f a else a) ∷ set_where id f as_

unfoldable pub update : Env → String → (Attempt → ℕ → Attempt) → Action Done
update env id f =
    exec env λ w. record w { attempts = set_where id (λ a. f a (env.now w.calls)) w.attempts }

unfoldable pub update_callback_payload : Env → String → String → Action Done
unfolding update
update_callback_payload env id payload =
    update env id λ a now. record a { callback_payload = payload; updated_at = now }

unfoldable pub update_psp_transaction_id : Env → String → String → Action Done
unfolding update
update_psp_transaction_id env id transaction_id =
    update env id λ a now. record a { psp_transaction_id = transaction_id; updated_at = now }

unfoldable pub update_status : Env → String → AttemptStatus → Action Done
unfolding update
update_status env id status = update env id λ a now. record a { status = status; updated_at = now }
