-- ===== src/Routing/Availability.antt =====
-- internal/routing/circuitbreaker.go: what one PSP's calls do to the answers for all PSPs.
use zia.Base.{
  ℕ, String, Bool, false, ◌≡◌, refl, List, [], ◌∷◌, arith, str_eq, str_eq_self, str_eq_iff, sym,
  subst, ◌∙◌, select, Bool-cases, Option-cases, inl, inr,
}
use zia.Base.Dict.{lookup, lookup-insert}
use zia.Routing.Breaker.{CircuitBreaker, record_failure, record_success, is_available, closed}

-- The calls that the rest of the program makes, at a clock reading.
pub data Call : Type 0 where
  failure : ℕ → String → Call
  success : String → Call
  question : ℕ → String → Call

pub psp_of : Call → String
psp_of (failure now psp) = psp
psp_of (success psp) = psp
psp_of (question now psp) = psp

pub perform : Call → CircuitBreaker → CircuitBreaker
perform (failure now psp) cb = record_failure now psp cb
perform (success psp) cb = record_success psp cb
perform (question now psp) cb = (is_available now psp cb).1

pub perform_all : List Call → CircuitBreaker → CircuitBreaker
perform_all [] cb = cb
perform_all (c ∷ cs) cb = perform_all cs (perform c cb)

-- What the breaker stores of one PSP.
abbrev pub Stored : String → CircuitBreaker → CircuitBreaker → Type 0
Stored psp cb cb' =
    (lookup psp cb.states ≡ lookup psp cb'.states)
    × (lookup psp cb.thresholds ≡ lookup psp cb'.thresholds)

-- A call about one PSP leaves what is stored of another.
perform-Stored_other :
    (c : Call) (psp : String) (cb : CircuitBreaker)
    → str_eq (psp_of c) psp ≡ false
    → Stored psp (perform c cb) cb
unfolding perform psp_of record_failure record_success is_available
perform-Stored_other (failure now p) psp cb h = (rw (lookup-insert p psp _ cb.states, h), refl)
perform-Stored_other (success p) psp cb h = elim (Option-cases (lookup p cb.states)) [
  | inl e ↦ ground arith
  | inr (s, e) ↦ ground (arith, lookup-insert p psp (closed s) cb.states)
]
perform-Stored_other (question now p) psp cb h = elim (Option-cases (lookup p cb.states)) [
  | inl e ↦ ground arith
  | inr (s, e) ↦ ground (arith, lookup-insert p psp (closed s) cb.states)
]

-- A call about a PSP does the same where the same is stored of that PSP.
perform-Stored_same :
    (c : Call) (cb cb' : CircuitBreaker)
    → Stored (psp_of c) cb cb'
    → Stored (psp_of c) (perform c cb) (perform c cb')
unfolding perform psp_of record_failure record_success is_available
perform-Stored_same (failure now p) cb cb' h =
    (rw (lookup-insert p p, str_eq_self p, lookup-insert p p, str_eq_self p, h.0, h.1) refl, h.1)
perform-Stored_same (success p) cb cb' h = elim (Option-cases (lookup p cb.states)) [
  | inl e ↦ ground arith
  | inr (s, e) ↦ ground (
    arith,
    str_eq_self p,
    lookup-insert p p (closed s) cb.states,
    lookup-insert p p (closed s) cb'.states,
  )
]
perform-Stored_same (question now p) cb cb' h = elim (Option-cases (lookup p cb.states)) [
  | inl e ↦ ground arith
  | inr (s, e) ↦ ground (
    arith,
    str_eq_self p,
    lookup-insert p p (closed s) cb.states,
    lookup-insert p p (closed s) cb'.states,
  )
]

pub about : String → Call → Bool
about psp c = str_eq (psp_of c) psp

perform_all-Stored :
    (cs : List Call) (psp : String) (cb cb' : CircuitBreaker)
    → Stored psp cb cb'
    → Stored psp (perform_all cs cb) (perform_all (select (about psp) cs) cb')
unfolding perform_all about
perform_all-Stored [] psp cb cb' h = h
perform_all-Stored (c ∷ cs) psp cb cb' h = elim (Bool-cases (about psp c)) [
  | inl same ↦
      let e = (str_eq_iff (psp_of c) psp).0 same in
      let kept =
        subst (λ q. Stored q (perform c cb) (perform c cb')) e
          (perform-Stored_same c cb cb' (subst (λ q. Stored q cb cb') (sym e) h)) in
      rw same (perform_all-Stored cs psp (perform c cb) (perform c cb') kept)
  | inr other ↦
      let kept = perform-Stored_other c psp cb other in
      rw other (perform_all-Stored cs psp (perform c cb) cb' (kept.0 ∙ h.0, kept.1 ∙ h.1))
]

-- After any calls about any PSPs, a question about one PSP is answered as if only the calls about
-- that PSP had been made: one provider's outage never opens or closes another's breaker.
pub perform_all_isolated :
    (cs : List Call) (now : ℕ) (psp : String) (cb : CircuitBreaker)
    → (is_available now psp (perform_all cs cb)).0
      ≡ (is_available now psp (perform_all (select (about psp) cs) cb)).0
unfolding is_available
perform_all_isolated cs now psp cb = ground (arith, perform_all-Stored cs psp cb cb (refl, refl))
