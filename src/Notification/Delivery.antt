-- ===== src/Notification/Delivery.antt =====
-- internal/notification/dispatcher.go: when a notification counts as delivered, and how long that
-- may take.
use zia.Base.{
  ℕ, zero, suc, ◌+◌, ◌≤◌, Bool, true, false, ◌≡◌, ◌↔◌, ◌≢◌, refl, sym, ap, ◌∙◌, ◌⊎◌, inl, inr,
  Option, none, some, List, [], ◌∷◌, length, Bool-cases, Option-cases, arith, if◌then◌else◌,
}
use zia.Effects.Failure.{Result, ok}
use zia.Effects.Action.{Done}
use zia.Notification.Sender.{Step, post, sleep, backoff, is_success, send_from, send_with_retry}

-- Whether the n-th request was answered with a 2xx code.
unfoldable pub accepts : Option ℕ → Bool
accepts none = false
accepts (some status) = is_success status

-- The numbers of the requests that were made, and the pauses.
unfoldable pub posts : List Step → List ℕ
posts [] = []
posts (post n ∷ steps) = n ∷ posts steps
posts (sleep s ∷ steps) = posts steps

unfoldable pub pauses : List Step → List ℕ
pauses [] = []
pauses (post n ∷ steps) = pauses steps
pauses (sleep s ∷ steps) = s ∷ pauses steps

unfoldable pub sum : List ℕ → ℕ
sum [] = 0
sum (n ∷ ns) = n + sum ns

less_or_more : (a b : ℕ) → (suc a ≤ b) ⊎ (b ≤ a)
less_or_more a b = ground arith

module _ (answer : ℕ → Option ℕ) where
  hit : (left k : ℕ) → accepts (answer k) ≡ true → send_from answer left k ≡ (ok tt, post k ∷ [])
  unfolding send_from accepts
  hit left k h = elim (Option-cases (answer k)) [
    | inl lost ↦ ground arith
    | inr (status, got) ↦
        let good : is_success status ≡ true = ap accepts (sym got) ∙ h in
        elim left as (λ left. send_from answer left k ≡ (ok tt, post k ∷ [])) [
          | zero ↦ rw (got, send_from, good) refl
          | suc _ ↦ rw (got, send_from, good) refl
        ]
  ]

  miss_last : (k : ℕ) → accepts (answer k) ≡ false → (send_from answer 0 k).0 ≢ ok tt
  unfolding send_from accepts
  miss_last k h done = elim (Option-cases (answer k)) [
    | inl lost ↦ ground arith
    | inr (status, got) ↦ ground arith
  ]

  miss :
      (left k : ℕ)
      → accepts (answer k) ≡ false
      → send_from answer (suc left) k ≡ (
        (send_from answer left (suc k)).0,
        post k ∷ sleep (backoff k) ∷ (send_from answer left (suc k)).1,
      )
  unfolding send_from accepts
  miss left k h = elim (Option-cases (answer k)) [
    | inl lost ↦ rw (lost, send_from) refl
    | inr (status, got) ↦
        let bad : is_success status ≡ false = ap accepts (sym got) ∙ h in
        rw (got, send_from, bad) refl
  ]

  -- A run that reports success has had a request accepted, and one that has reports success.
  sent :
      (left k : ℕ)
      → (send_from answer left k).0 ≡ ok tt
      → (i : ℕ) × (k ≤ i) × (i ≤ k + left) × (accepts (answer i) ≡ true)
  sent zero k done = elim (Bool-cases (accepts (answer k))) [
    | inl good ↦ (k, omega arith, omega arith, good)
    | inr bad ↦ absurd (miss_last k bad done)
  ]
  sent (suc left) k done = elim (Bool-cases (accepts (answer k))) [
    | inl good ↦ (k, omega arith, omega arith, good)
    | inr bad ↦
        let (i, from, to, good) =
          sent left (suc k) (ap (λ r. r.0) (sym (miss left k bad)) ∙ done) in
        (i, omega arith, omega arith, good)
  ]

  accepted :
      (left k i : ℕ)
      → k ≤ i
      → i ≤ k + left
      → accepts (answer i) ≡ true
      → (send_from answer left k).0 ≡ ok tt
  accepted zero k i from to good =
      let same : k ≡ i = omega arith in
      ap (λ r. r.0) (hit 0 k (ap (λ j. accepts (answer j)) same ∙ good))
  accepted (suc left) k i from to good = elim (Bool-cases (accepts (answer k))) [
    | inl first ↦ ap (λ r. r.0) (hit (suc left) k first)
    | inr bad ↦
        let later : suc k ≤ i = elim (less_or_more k i) [
          | inl less ↦ less
          | inr more ↦ let same : k ≡ i = omega arith in cc
        ] in
        ap (λ r. r.0) (miss left k bad) ∙ accepted left (suc k) i later (omega arith) good
  ]

  budget : ℕ → ℕ → ℕ
  budget zero k = 0
  budget (suc left) k = backoff k + budget left (suc k)

  -- The requests have the numbers from k on, and one that was accepted is the last step.
  abbrev pub Proper : ℕ → List Step → Type 0
  Proper k [] = Unit
  Proper k (post n ∷ steps) =
      (n ≡ k) × ((accepts (answer n) ≡ false) ⊎ (steps ≡ [])) × Proper (suc k) steps
  Proper k (sleep s ∷ steps) = Proper k steps

  -- At most the requests that are left are made, and all of them if none is accepted.
  Within : ℕ → ℕ → Result Done × List Step → Type 0
  Within left k (r, steps) =
      Proper k steps
      × (length (posts steps) ≤ suc left)
      × (length (pauses steps) ≤ left)
      × (sum (pauses steps) ≤ budget left k)
      × ((r ≡ ok tt) ⊎ (length (posts steps) ≡ suc left))

  last_Within : (k : ℕ) → Within 0 k (send_from answer 0 k)
  unfolding send_from Within posts pauses sum budget
  last_Within k = ((refl, inr refl, tt), omega arith, omega arith, omega arith, inr refl)

  within : (left k : ℕ) → Within left k (send_from answer left k)
  unfolding budget sum posts pauses Within
  within zero k = last_Within k
  within (suc left) k = elim (Bool-cases (accepts (answer k))) [
    | inl first ↦
        rw (hit (suc left) k first)
          ((refl, inr refl, tt), omega arith, omega arith, omega arith, inl refl)
    | inr bad ↦
        let (proper, made, few, short, end) = within left (suc k) in
        rw (miss left k bad) (
          (refl, inl bad, proper),
          omega arith,
          omega arith,
          omega arith,
          elim end [ inl done ↦ inl done | inr all ↦ inr (omega arith) ],
        )
  ]

-- With a valid URL, a notification is reported as sent exactly if one of its first four requests
-- is answered with a 2xx code.
pub send_with_retry_iff :
    (answer : ℕ → Option ℕ)
    → ((send_with_retry true answer).0 ≡ ok tt) ↔ ((n : ℕ) × (n ≤ 3) × (accepts (answer n) ≡ true))
unfolding send_with_retry
send_with_retry_iff answer = (
  λ done. let (i, _, to, good) = sent answer 3 0 done in (i, omega arith, good),
  λ (n, h, good). accepted answer 3 0 n (omega arith) (omega arith) good,
)

none_left : (n : ℕ) → suc n ≤ 0 → ⊥
none_left n le = omega arith

-- Whatever is answered, at most four requests are made, in the order of their numbers, with three
-- pauses at most that are 36 seconds in all. A request that is answered with a 2xx code is the last
-- step, and all four are made where none is. Success is reported exactly if one of the four was
-- answered so. With a URL that cannot be used, none is made and an error is reported.
pub send_with_retry-steps :
    (is_valid_url : Bool) (answer : ℕ → Option ℕ)
    → let (r, steps) = send_with_retry is_valid_url answer in
      let most : ℕ = if is_valid_url then 4 else 0 in
      Proper answer 0 steps
      × (length (posts steps) ≤ most)
      × (length (pauses steps) ≤ 3)
      × (sum (pauses steps) ≤ 36)
      × ((r ≡ ok tt) ⊎ (length (posts steps) ≡ most))
      × ((r ≡ ok tt) ↔ ((n : ℕ) × (suc n ≤ most) × (accepts (answer n) ≡ true)))
unfolding send_with_retry sum budget backoff posts pauses Within
send_with_retry-steps true answer =
    let (proper, made, few, short, end) = within answer 3 0 in
    let (there, back) = send_with_retry_iff answer in
    (
      proper,
      made,
      few,
      short,
      end,
      (
        λ done. let (n, le, good) = there done in (n, omega arith, good),
        λ (n, le, good). back (n, omega arith, good),
      ),
    )
send_with_retry-steps false answer = (
  tt,
  omega arith,
  omega arith,
  omega arith,
  inr refl,
  (λ done. ground arith, λ (n, le, good). absurd (none_left n le)),
)
