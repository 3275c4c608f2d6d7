-- ===== src/Reconciliation/Verdicts.antt =====
-- internal/reconciliation/runner.go: what the three counts say.
use zia.Base.{
  ℕ, ◌+◌, String, true, not, ◌&&◌, ◌≡◌, ◌≢◌, ◌↔◌, ◌⊎◌, inl, inr, refl, List, [], ◌∷◌, select,
  length, if◌then◌else◌, Bool-cases, str_eq, str_eq_iff, nonempty, arith,
}
use zia.Base.Int.{ℤ, pos, eqb_ℤ, ◌≤ℤ◌, eq_of_parts}
use zia.Domain.Attempt.{AttemptRow, AttemptStatus}
use zia.Domain.Message.{StatusResult}
use zia.Effects.World.{World, Connector}
use zia.Effects.Cases.{Result-cases}
use zia.Reconciliation.Runner.{
  Verdict, matched, unmatched, attempt_text, compare_status, reconcile_attempt, Tally, count,
  reconcile_psp,
}

text_iff :
    (s : AttemptStatus)
    → (str_eq (attempt_text s) "succeeded" ≡ true) ↔ (s ≡ AttemptStatus.succeeded)
unfolding attempt_text
text_iff AttemptStatus.pending = ground arith
text_iff AttemptStatus.requires_action = ground arith
text_iff AttemptStatus.processing = ground arith
text_iff AttemptStatus.succeeded = (λ _. refl, λ _. refl)
text_iff AttemptStatus.failed = ground arith

same_iff : (a b : ℤ) → (eqb_ℤ a b ≡ true) ↔ (a ≡ b)
same_iff a b = (λ h. eq_of_parts a b (ground arith), λ h. rw h (ground arith))

-- The two ways in which a provider's answer may contradict an attempt.
abbrev pub Contradicts : AttemptRow → StatusResult → Type 0
Contradicts att result =
    ((att.status ≡ AttemptStatus.succeeded) × (result.status ≢ "succeeded"))
    ⊎ ((pos 1 ≤ℤ result.amount) × (result.amount ≢ att.amount))

contradicted_iff :
    (att : AttemptRow) (result : StatusResult)
    → (compare_status att result ≡ unmatched) ↔ ((result.supported ≡ true) × Contradicts att result)
unfolding compare_status
contradicted_iff att result = ground (
  arith,
  text_iff att.status,
  str_eq_iff result.status "succeeded",
  same_iff result.amount att.amount,
)

matched_or_not :
    (att : AttemptRow) (result : StatusResult)
    → (compare_status att result ≡ matched) ⊎ (compare_status att result ≡ unmatched)
unfolding compare_status
matched_or_not att result = ground arith

apart : (v : Verdict) → v ≡ matched → v ≡ unmatched → ⊥
apart v good bad = cc

-- An answer makes an attempt unmatched exactly if the provider answers status queries at all and
-- the answer contradicts the attempt: the attempt has succeeded here and not there, or a positive
-- amount differs. All else is matched, an attempt that has succeeded there and not here too.
pub compare_status_iff :
    (att : AttemptRow) (result : StatusResult)
    → ((compare_status att result ≡ unmatched)
        ↔ ((result.supported ≡ true) × Contradicts att result))
      × ((compare_status att result ≡ matched)
          ↔ ¬ ((result.supported ≡ true) × Contradicts att result))
compare_status_iff att result =
    let (found, finds) = contradicted_iff att result in
    (
      (found, finds),
      (
        λ good contradicts. apart (compare_status att result) good (finds contradicts),
        λ agrees. elim (matched_or_not att result) [
          | inl good ↦ good
          | inr bad ↦ absurd (agrees (found bad))
        ],
      ),
    )

abbrev total : Tally → ℕ
total t = t.matched + t.unmatched + t.errors

compared :
    (att : AttemptRow) (result : StatusResult) (t : Tally)
    → total (count (compare_status att result) t) ≡ total t + 1
unfolding compare_status count
compared att result t = ground arith

counted :
    (name : String) (conn : Connector) (a : AttemptRow) (w : World) (t : Tally)
    → total (count (reconcile_attempt name conn a w).0 t)
      ≡ total t + (if str_eq a.psp name then 1 else 0)
unfolding reconcile_attempt count
counted name conn a w t = elim (Bool-cases (str_eq a.psp name)) [
  | inl own ↦ elim (Bool-cases (nonempty a.psp_reference)) [
    | inl given ↦
        elim (Bool-cases
          (not conn.capabilities.supports_collection && not conn.capabilities.supports_payout)) [
            | inl idle ↦ rw (own, given, idle) (omega arith)
            | inr asks ↦ elim (Result-cases (conn.get_status w.calls a.psp_reference)) [
              | inl (result, answered) ↦ rw (own, given, asks, answered) (compared a result t)
              | inr (e, silent) ↦ rw (own, given, asks, silent) (omega arith)
            ]
          ]
    | inr missing ↦ rw (own, missing) (omega arith)
  ]
  | inr other ↦ rw other (omega arith)
]

-- Every attempt on the provider is counted once, under one of the three heads, and no other one.
pub reconcile_psp-total :
    (name : String) (conn : Connector) (atts : List AttemptRow) (t : Tally) (w : World)
    → let t' = (reconcile_psp name conn atts t w).0 in
      t'.matched + t'.unmatched + t'.errors
      ≡ t.matched + t.unmatched + t.errors + length (select (λ a. str_eq a.psp name) atts)
unfolding reconcile_psp
reconcile_psp-total name conn [] t w = omega arith
reconcile_psp-total name conn (a ∷ atts) t w =
    let (v, w') = reconcile_attempt name conn a w in
    let ih = reconcile_psp-total name conn atts (count v t) w' in
    let one = counted name conn a w t in ground (arith, ih, one)
