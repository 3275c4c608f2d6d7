-- ===== src/Tests/Rails.antt =====
-- Routing, risk, settlement, reconciliation and notifications at concrete inputs.
use zia.Base.{
  String, ℕ, suc, ◌+◌, ◌≤◌, true, false, ◌≡◌, ◌↔◌, ◌⊎◌, refl, none, some, [], ◌∷◌, arith, length,
  select, find, All, ltb, str_eq, Option, if◌then◌else◌,
}
use zia.Base.Int.{pos, ◌≤ℤ◌, ◌<ℤ◌}
use zia.Base.Dict.{lookup}
use zia.Domain.Attempt.{AttemptRow, AttemptStatus}
use zia.Domain.Message.{StatusResult}
use zia.Effects.Failure.{ok}
use zia.Routing.Breaker.{is_available}
use zia.Routing.Engine.{RouteDecision, Rule, rule_matched, applies, route}
use zia.Routing.Decisions.{Usable, route-Usable}
use zia.Risk.Engine.{is_recent, check_velocity}
use zia.Risk.Velocity.{admit, admit_bounded, admit_exact}
use zia.Settlement.Runner.{SettlementPolicy, settle}
use zia.Settlement.Solvency.{Solvent, settle-Solvent}
use zia.Reconciliation.Runner.{matched, unmatched, compare_status, reconcile_psp, Tally}
use zia.Reconciliation.Verdicts.{Contradicts, compare_status_iff, reconcile_psp-total}
use zia.Notification.Sender.{send_with_retry}
use zia.Notification.Delivery.{sum, send_with_retry-steps, Proper, posts, pauses, accepts}
use zia.Ledger.Rows.{sum_credits}
use zia.Effects.World.{World}
use zia.Domain.Message.{NotificationEvent}
use zia.Webhook.Stream.{ack}
use zia.Notification.Consumer.{Receiver, consume_notification, notification_from_event}
use zia.Notification.Delivered.{Reached, consume_notification_iff}
use zia.Tests.Fixtures.{calm, mpesa, merchant, open_books, risk, breaker, routing, journey}

abbrev chosen : RouteDecision
chosen = record { primary = "mpesa"; fallbacks = "paystack" ∷ []; reason = rule_matched (pos 1) }

route-Usable_example :
    Usable routing (λ n. n) breaker "mpesa"
    × All (Usable routing (λ n. n) breaker) ("paystack" ∷ [])
    × (r : Rule) × (find (applies routing journey) routing.rules ≡ some r)
    × (("mpesa" ≡ r.primary_psp) ⊎ ((is_available 0 r.primary_psp breaker).0 ≡ false))
unfolding route zia.Routing.Engine.route_rules zia.Routing.Engine.decide applies is_available lookup
    zia.Routing.Engine.match_condition zia.Routing.Engine.is_excluded
    zia.Routing.Engine.available_fallbacks
route-Usable_example = route-Usable routing (λ n. n) journey breaker {d = chosen} refl

admit_bounded_example :
    pos (length (select (is_recent 20 risk.window) (admit "phone:1" (1 ∷ 2 ∷ 3 ∷ []) [] risk).0))
    ≤ℤ risk.max_attempts
admit_bounded_example =
    admit_bounded "phone:1" (1 ∷ 2 ∷ 3 ∷ []) 0 20 risk (unfold lookup in refl) (omega arith)
      (omega arith, (omega arith, (omega arith, tt))) (omega arith)

admit_exact_example :
    ((check_velocity 20 "phone:1" (admit "phone:1" (1 ∷ 2 ∷ 3 ∷ []) [] risk).1).0 ≡ ok tt) ↔ (
      pos (length (select (is_recent 20 risk.window) (admit "phone:1" (1 ∷ 2 ∷ 3 ∷ []) [] risk).0))
      <ℤ risk.max_attempts)
admit_exact_example =
    admit_exact "phone:1" (1 ∷ 2 ∷ 3 ∷ []) 0 20 risk (unfold lookup in refl) (omega arith)
      (omega arith, (omega arith, (omega arith, tt))) (omega arith)

abbrev generous : SettlementPolicy
generous = record { min_balance_minor = pos 0; max_payout_minor = pos 100 }

open_books-Solvent : Solvent open_books
unfolding sum_credits
open_books-Solvent m = omega arith

settle-Solvent_example : Solvent (settle calm generous open_books).1
settle-Solvent_example = settle-Solvent calm generous open_books open_books-Solvent

abbrev row : AttemptRow
row = record {
  id = "at_1";
  payment_intent_id = "pi_1";
  psp = "mpesa";
  psp_reference = "ws_1";
  status = AttemptStatus.failed;
  amount = pos 900;
  currency = "KES";
  created_at = 0;
}

abbrev answer : StatusResult
answer = record { supported = true; status = "succeeded"; amount = pos 1000; currency = "KES" }

compare_status_iff_example :
    ((compare_status row answer ≡ unmatched) ↔ ((answer.supported ≡ true) × Contradicts row answer))
    × ((compare_status row answer ≡ matched)
        ↔ ¬ ((answer.supported ≡ true) × Contradicts row answer))
compare_status_iff_example = compare_status_iff row answer

abbrev zeros : Tally
zeros = record { matched = 0; unmatched = 0; errors = 0 }

reconcile_psp-total_example :
    let t = (reconcile_psp "mpesa" mpesa (row ∷ []) zeros open_books).0 in
    t.matched + t.unmatched + t.errors
    ≡ zeros.matched
      + zeros.unmatched
      + zeros.errors
      + length (select (λ a. str_eq a.psp "mpesa") (row ∷ []))
reconcile_psp-total_example = reconcile_psp-total "mpesa" mpesa (row ∷ []) zeros open_books

-- The server is down twice, and then accepts.
abbrev recovering : ℕ → Option ℕ
recovering n = if ltb n 2 then none else some 204

send_with_retry-steps_example :
    let (r, steps) = send_with_retry true recovering in
    Proper recovering 0 steps
    × (length (posts steps) ≤ 4)
    × (length (pauses steps) ≤ 3)
    × (sum (pauses steps) ≤ 36)
    × ((r ≡ ok tt) ⊎ (length (posts steps) ≡ 4))
    × ((r ≡ ok tt) ↔ ((n : ℕ) × (suc n ≤ 4) × (accepts (recovering n) ≡ true)))
send_with_retry-steps_example = send_with_retry-steps true recovering

abbrev receiver : Receiver
receiver = record {
  settings = λ config. some config;
  encode = λ p. p.event;
  is_valid_url = λ _. true;
  answer = λ url body. recovering;
}

abbrev shop_url : String
shop_url = "https://shop.example"

abbrev hooked : World
hooked = record open_books { merchants = record merchant { settlement_config = shop_url } ∷ [] }

abbrev told : NotificationEvent
told = record {
  event_type = "payment.succeeded";
  pi_id = "pi_1";
  merchant_id = "m_1";
  amount = pos 1000;
  currency = "KES";
  psp = "mpesa";
  psp_reference = "ws_1";
  status = "succeeded";
  timestamp = 0;
}

consume_notification_iff_example :
    let (settled, v) = consume_notification calm receiver (some told) hooked in
    (v.api.notifications ≡ notification_from_event "new" 2 told ∷ [])
    × ((settled ≡ ack) ↔ ((shop_url ≡ "") ⊎ Reached calm receiver shop_url told))
consume_notification_iff_example =
    consume_notification_iff calm receiver told (record merchant { settlement_config = shop_url })
      hooked (λ _. refl) refl
