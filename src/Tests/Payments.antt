-- ===== src/Tests/Payments.antt =====
-- Payments from request to ledger, at concrete inputs.
use zia.Base.{
  ℕ, ◌+◌, ◌≤◌, ◌<◌, String, Bool, true, false, ◌≡◌, ◌↔◌, ◌⊎◌, refl, ap, ◌∙◌, some, List, [], ◌∷◌,
  find, arith, ◌==◌, ◌*◌, if◌then◌else◌,
}
use zia.Base.Int.{pos}
use zia.Domain.Intent.{PaymentIntentStatus, created, succeeded, requires_action, failed}
use zia.Effects.Failure.{ok}
use zia.Effects.World.{World, Env, tick}
use zia.Repository.Intents.{has_id, with_status}
use zia.Repository.Keys.{Keyed}
use zia.Ledger.Postings.{Moves}
use zia.Ledger.Collections.{collected}
use zia.Orchestrator.Lifecycle.{approve}
use zia.Orchestrator.Reaches.{Reaches, is_valid_transition-Reaches}
use zia.Orchestrator.State.{is_valid_transition}
use zia.Orchestrator.Outcome.{compute_fee}
use zia.Orchestrator.Webhook.{handle_webhook_event, apply_event}
use zia.Orchestrator.Create.{create_payment_intent}
use zia.Orchestrator.Created.{Created}
use zia.Orchestrator.Requests.{create_payment_intent-Created}
use zia.Orchestrator.Change.{payments, Books, Progress}
use zia.Orchestrator.History.{Event, webhook, timer, request, replay, replay-Books, replay-Progress}
use zia.Orchestrator.Paid.{transition-Paid, handle_webhook_event-Paid}
use zia.Orchestrator.Once.{says_succeeded}
use zia.Orchestrator.Redelivery.{handle_webhook_event-over}
use zia.Orchestrator.Races.{apply_event-again}
use zia.Orchestrator.Query.{apply_query_result}
use zia.Orchestrator.Overtaken.{attempt_moved, apply_query_result-overtaken}
use zia.Domain.Message.{StatusResult}
use zia.Domain.Attempt.{AttemptStatus}
use zia.Orchestrator.Fees.{compute_fee-bound}
use zia.Idempotency.{redis_key, check}
use zia.Idempotency.History.{Call, stores, marks, run, last_store, check-last_store}
use zia.Tests.Fixtures.{
  calm, rough, waiting, pushed, open_books, paid, five_percent, routing, order, encode, query,
}

-- The order, two webhooks and the timer.
abbrev day_of_events : List Event
day_of_events = request order ∷ webhook paid ∷ timer query ∷ webhook paid ∷ []

open_books-Books : Books open_books
unfolding payments
open_books-Books id = omega arith

replay-Books_example :
    Keyed (replay calm five_percent routing encode day_of_events open_books).intents
    × Books (replay calm five_percent routing encode day_of_events open_books)
    × ((id : String)
        → payments id (replay calm five_percent routing encode day_of_events open_books).entries
          ≤ 1)
replay-Books_example =
    replay-Books calm five_percent routing encode day_of_events open_books (refl, tt)
      open_books-Books

replay-Progress_example :
    Progress open_books (replay calm five_percent routing encode day_of_events open_books)
replay-Progress_example =
    replay-Progress calm five_percent routing encode day_of_events open_books (refl, tt)

handle_webhook_event-Paid_example :
    let (r, w') = handle_webhook_event calm five_percent paid open_books in
    (r ≡ ok tt)
    × ((now : ℕ) × (find (has_id "pi_1") w'.intents ≡ some (with_status succeeded now waiting)))
    × Moves open_books w' (collected "m_1" "mpesa" (pos 1000) (compute_fee five_percent (pos 1000)))
handle_webhook_event-Paid_example =
    handle_webhook_event-Paid calm five_percent (λ _. refl) paid pushed waiting open_books refl refl
      refl approve (omega arith)

is_valid_transition-Reaches_example :
    (is_valid_transition failed created ≡ false) × (Reaches failed created ↔ (false ≡ true))
unfolding zia.Domain.Intent.status_eq mathlib.Core.Bool.decide
is_valid_transition-Reaches_example = is_valid_transition-Reaches failed created

create_payment_intent-Created_example :
    Created open_books (create_payment_intent rough routing encode order open_books).1
create_payment_intent-Created_example =
    create_payment_intent-Created rough routing encode order open_books

-- The payment has succeeded already.
abbrev settled_books : World
settled_books = record open_books { intents = with_status succeeded 3 waiting ∷ [] }

handle_webhook_event-over_example :
    let w' = (handle_webhook_event calm five_percent paid settled_books).1 in
    (w'.intents ≡ settled_books.intents) × (w'.entries ≡ settled_books.entries)
unfolding zia.Orchestrator.Redelivery.is_over
handle_webhook_event-over_example =
    handle_webhook_event-over calm five_percent paid pushed (with_status succeeded 3 waiting)
      settled_books refl refl refl

apply_event-again_example :
    payments "pi_1" (apply_event calm five_percent paid pushed waiting settled_books).1.entries
    ≡ payments "pi_1" settled_books.entries + 1
apply_event-again_example =
    apply_event-again calm five_percent paid pushed waiting settled_books refl approve (
      ap (λ m. m.0)
        (says_succeeded calm five_percent paid pushed waiting settled_books refl approve)
      ∙ (transition-Paid calm five_percent (λ _. refl) settled_books settled_books waiting pushed
          (refl, refl) (omega arith)).0)

compute_fee-bound_example :
    (fee : ℕ) × (compute_fee five_percent (pos 1000) ≡ pos fee) × (1 ≤ fee) × (fee ≤ 1000)
compute_fee-bound_example =
    compute_fee-bound 1000 5 1 true (omega arith) (omega arith) (omega arith, omega arith)

-- Why the merchants' ids are to have no colon.
keys_collide : redis_key "a:b" "c" ≡ redis_key "a" "b:c"
keys_collide = refl

-- A call in five hours and a half; the second one fails.
abbrev slow : Env
slow = record calm { fails = λ n. n == 1; now = λ n. n * 20_000_000_000_000 }

-- The latest first.
abbrev day_of_keys : List Call
day_of_keys =
    marks "mpesa:ws_CO_1"
    ∷ stores "m_2" "order_2" "pi_4"
    ∷ stores "m_1" "order_2" "pi_3"
    ∷ stores "m_1" "order_2" "pi_2"
    ∷ []

check-last_store_example :
    (check slow "m_1" "order_2" (run slow day_of_keys open_books)).0 ≡ ok "pi_2"
unfolding last_store zia.Base.Dict.lookup zia.Base.Chars.has_char
check-last_store_example =
    check-last_store slow "m_1" "order_2" day_of_keys open_books refl
      (tt, (refl, (refl, (refl, tt)))) refl

-- The provider takes a payment for failed that a webhook has settled.
abbrev late_answer : StatusResult
late_answer = record { supported = true; status = "failed"; amount = pos 1000; currency = "KES" }

apply_query_result-overtaken_example :
    apply_query_result calm five_percent waiting pushed late_answer settled_books
    ≡ (ok tt, tick (tick (attempt_moved calm pushed AttemptStatus.failed settled_books)))
unfolding zia.Orchestrator.Outcome.outcome_of zia.Orchestrator.State.is_valid_transition
    zia.Domain.Intent.status_eq mathlib.Core.Bool.decide
apply_query_result-overtaken_example =
    apply_query_result-overtaken calm five_percent waiting pushed late_answer
      (PaymentIntentStatus.failed, AttemptStatus.failed) settled_books (λ _. refl) refl refl refl
