-- ===== src/Lib.antt =====
-- Zia, a payment orchestration service: the parts that decide about payments and about money.
--
-- The program takes payment requests from merchants, routes each to a payment provider (PSP), learns
-- from webhooks or from a delayed query what became of it, keeps a double-entry ledger, pays the
-- merchants out and compares its records with the providers'. The development follows its packages:
--
--   Domain          internal/domain: the records and enumerations, and the messages of
--                   internal/connector/connector.go.
--   Effects         what the program touches outside its own variables. World holds the tables, the
--                   keys in Redis, the messages published, the timers and the engines' variables.
--                   Env is the outside: which calls fail, the clock, the UUIDs and the connectors,
--                   each a function of the number of the call. Action is a method that returns an
--                   error or a value; the state stays as it was written where it fails. Cases has
--                   the lemmas on sequences.
--   Repository      internal/repository: the SQL statements of intents, attempts, payouts and
--                   merchants, as functions on lists of rows. Keys says what an update does to the
--                   row that a lookup finds.
--   Ledger          internal/ledger and internal/repository/ledger.go. Accounts has the names
--                   (`formatAccount`), Rows the inserts and the balance, Engine the postings and
--                   `validateBalanced`. Balanced, Inserts, Postings, Collections, Payouts, Atomicity
--                   and Names have the proofs.
--   Routing         internal/routing. Breaker is circuitbreaker.go, Engine is engine.go (`Route`).
--                   Availability, Trips and Decisions have the proofs.
--   Risk            internal/risk/engine.go (`Evaluate`, `checkVelocity`), with its proofs in
--                   Velocity.
--   Idempotency     internal/idempotency/store.go (`Check`, `Store`). Laws says when two keys in Redis
--                   are one, History what a sequence of calls does.
--   Orchestrator    internal/orchestrator. State is state.go. Create is `CreatePaymentIntent`,
--                   Webhook is `HandleWebhookEvent`, Query is `scheduleDelayedQuery` and
--                   `applyQueryResult`, Outcome is what these share (`computeFee`, the posting and
--                   the notification). Lifecycle is the life of a payment as a relation, Reaches
--                   what the table leads to. Change, Touched, Once, Late, Created, Requests and
--                   Growth say what one handler does to the tables, History what a sequence of them
--                   does, Paid, Idempotent, Redelivery, Overtaken, Premature, Races and Fees what
--                   single runs do.
--   Connector       internal/connector/mpesa and internal/connector/paystack, over HTTP (Http). Mpesa
--                   has Token (auth.go) and Daraja (connector.go), with proofs in Freshness and
--                   Unfinished; Paystack has its proofs in Amounts.
--   Settlement      internal/settlement/runner.go (`Settle`, `settleMerchant`, `selectRail`).
--   Reconciliation  internal/reconciliation/runner.go (`Reconcile`, `reconcilePSP`).
--   Notification    internal/notification/dispatcher.go. `Publish` is in Orchestrator.Outcome, Sender is
--                   `sendWithRetry`, Consumer is `processNotification` and the round of
--                   `StartConsumer` that has got a message. Delivery and Delivered have the proofs.
--   Webhook         internal/webhook. Dispatcher is dispatcher.go (`Dispatch`, `deliver`, `Retry`) with
--                   internal/repository/webhookdelivery.go, Processor is `HandleEventAndDispatch` and
--                   dedup.go, Stream is `Publish` and the round of `StartConsumer` that has got a
--                   message. Fanout, Deliveries, Isolation and Consumed have the proofs.
--   Api             internal/api. Handler is how a handler answers (response.go), Sequences and
--                   Outcomes have the lemmas on it, and Bearer the header that carries a token.
--                   Payments is paymentintent.go, with its proofs in Payments/Guarded, Checkout is
--                   checkout.go, with its proofs in Checkout/Polled, Settings is merchant.go
--                   (`UpdateSettings`, `GetSettings`, `GetBalance`), with its proofs in Settings/Kept,
--                   and Ingest is webhook.go (`Ingest`), with its proofs in Repeats.
--   Authn           internal/authn/middleware.go: the key that a payment request is sent with.
--   Portal          internal/api/portal.go. Otp is `otpStore`, Tables the statements of
--                   internal/repository/portal.go and merchant.go, Session is `PortalAuth` and `Login`,
--                   Signup is `SendOTP` and `Signup`, Keys the handlers of API keys, Team those of
--                   members and invitations, Texts what these make of names and of random bytes.
--                   Otp/History, Session/Login, Signup/Calm, Signup/Verified, Keys/Access and
--                   Team/Invited have the proofs.
--   Base            shared notation, integers, machine words, texts, lists and maps.
--   Tests           the theorems at concrete inputs.
--
-- The engines share the tables through World. A request goes through Idempotency, Risk and Routing
-- to a connector, and adds an intent and an attempt; a webhook or a query moves the intent along
-- and posts to the Ledger; a settlement run reads balances from the ledger and posts payouts to it.
--
-- Choices. An int64 is an integer, and sums and products wrap as Go's do. A time is a number of
-- nanoseconds, in an event too. Any call may fail, and a call that fails changes nothing. A handler
-- runs as one step, but an answer to a query may come with an intent that was read at any earlier
-- time, and Races has the step of a webhook that does. Go walks a map in any order; a map is walked
-- here in the order of its list. A list of rows has the order of the statement's ORDER BY at
-- first; a new row is put at one end of it, and a new merchant is not sorted in by its name. Primary
-- keys that are fresh UUIDs are not checked by the inserts. Loops
-- are structural recursion; the retry loop of the notifications recurs on the retries that are
-- left, three at first, which is the bound in the source. The encoding of a request that is kept
-- with an attempt is a parameter, and so are the answers of connectors and of a merchant's server.
-- A request's body is given decoded: none where its envelope does not decode, and holding none where
-- its data do not. The hash of a password and its check (bcrypt), SHA-256, the random bytes, the JSON
-- of the providers and of a merchant's settings, and the providers' servers are parameters.
--
-- Not modelled: logging, metrics and contexts; the other handlers of the API and of the portal, and
-- the programs under cmd, which decode requests and wire the engines; the redelivery of a message by
-- the stream; phone numbers, money formatting and signatures.
pub mod Base
pub mod Domain
pub mod Effects
pub mod Ledger
pub mod Repository
pub mod Idempotency
pub mod Orchestrator
pub mod Settlement
pub mod Reconciliation
pub mod Notification
pub mod Webhook
pub mod Connector
pub mod Portal
pub mod Api
pub mod Authn
pub mod Routing
pub mod Risk
pub mod Tests
