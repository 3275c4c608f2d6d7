-- ===== src/Notification/Sender.antt =====
-- internal/notification/dispatcher.go, `sendWithRetry`. What the merchant's server answers to the
-- n-th request is a parameter: a status code, or none where the request fails. So is whether a
-- request can be made for the URL at all.
use zia.Base.{ℕ, zero, suc, Bool, ◌&&◌, Option, none, some, List, [], ◌∷◌, if◌then◌else◌, ltb, leb}
use zia.Effects.Failure.{external, errorf, wrapf, Result, ok, err}
use zia.Effects.Action.{Done}

abbrev pub max_retries : ℕ
max_retries = 3

-- `backoff[attempt]`, in seconds. Go would panic beyond the third; the loop does not get there.
unfoldable pub backoff : ℕ → ℕ
backoff zero = 1
backoff (suc zero) = 5
backoff (suc (suc n)) = 30

-- `resp.StatusCode >= 200 && resp.StatusCode < 300`
abbrev pub is_success : ℕ → Bool
is_success status = leb 200 status && ltb status 300

-- What the loop does, in order: a request, by its number, and a pause, in seconds.
pub data Step : Type 0 where
  post sleep : ℕ → Step

-- The requests that are left, the first of which is number `attempt`: the outcome, and the steps.
unfoldable pub send_from : (ℕ → Option ℕ) → ℕ → ℕ → Result Done × List Step
send_from answer zero attempt = (
  elim (answer attempt) [
    | none ↦ err (wrapf "webhook send failed after retries" external)
    | some status ↦
        if is_success status then ok tt else err (errorf "webhook non-2xx after retries: %d" [])
  ],
  post attempt ∷ [],
)
send_from answer (suc left) attempt =
    let (later, steps) = send_from answer left (suc attempt) in
    let retried : Result Done × List Step =
      (later, post attempt ∷ sleep (backoff attempt) ∷ steps) in
    elim (answer attempt) [
      | none ↦ retried
      | some status ↦ if is_success status then (ok tt, post attempt ∷ []) else retried
    ]

unfoldable pub send_with_retry : Bool → (ℕ → Option ℕ) → Result Done × List Step
send_with_retry is_valid_url answer =
    if is_valid_url
    then send_from answer max_retries 0
    else (err (wrapf "create request" external), [])
