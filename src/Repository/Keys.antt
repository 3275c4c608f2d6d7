-- ===== src/Repository/Keys.antt =====
-- internal/repository/paymentintent.go: what an update does to the row that a lookup finds.
use zia.Base.{
  ℕ, String, true, false, ◌≡◌, ◌≢◌, refl, sym, ap, subst, ◌∙◌, some, List, [], ◌∷◌, arith,
  Bool-cases, inl, inr, str_eq_iff, str_eq_ne, find, any,
}
use zia.Domain.Intent.{PaymentIntent, PaymentIntentStatus, status_eq, status_eq_iff}
use zia.Effects.Failure.{ok}
use zia.Effects.World.{World, Env}
use zia.Effects.Cases.{query-found}
use zia.Repository.Intents.{get_by_id, has_id, with_status, set_status, is_at, set_status_from}

-- No two rows have one id: the primary key of the table.
abbrev pub Keyed : List PaymentIntent → Type 0
Keyed [] = Unit
Keyed (pi ∷ pis) = (any (has_id pi.id) pis ≡ false) × Keyed pis

pub find-has_id :
    (id : String) (pis : List PaymentIntent) (pi : PaymentIntent)
    → find (has_id id) pis ≡ some pi
    → has_id id pi ≡ true
find-has_id id [] pi h = ground arith
find-has_id id (p ∷ pis) pi h = elim (Bool-cases (has_id id p)) [
  | inl here ↦ ground arith
  | inr other ↦ find-has_id id pis pi (ground arith)
]

pub find-set_status :
    (id : String) (s : PaymentIntentStatus) (now : ℕ) (pis : List PaymentIntent)
    (pi : PaymentIntent)
    → find (has_id id) pis ≡ some pi
    → find (has_id id) (set_status id s now pis) ≡ some (with_status s now pi)
unfolding set_status
find-set_status id s now [] pi h = ground arith
find-set_status id s now (p ∷ pis) pi h = elim (Bool-cases (has_id id p)) [
  | inl here ↦ ground arith
  | inr other ↦ rw other (rw other (find-set_status id s now pis pi (ground arith)))
]

pub find-set_status_other :
    (j id : String) (s : PaymentIntentStatus) (now : ℕ) (pis : List PaymentIntent)
    → j ≢ id
    → find (has_id j) (set_status id s now pis) ≡ find (has_id j) pis
unfolding set_status
find-set_status_other j id s now [] ne = refl
find-set_status_other j id s now (p ∷ pis) ne =
    let ih = find-set_status_other j id s now pis ne in
    elim (Bool-cases (has_id id p)) [
      | inl here ↦
          let not_j : has_id j p ≡ false =
            str_eq_ne p.id j (λ e. ne (sym e ∙ (str_eq_iff p.id id).0 here)) in
          rw (here, not_j) ih
      | inr other ↦ rw (other, ih) refl
    ]

any-set_status :
    (j id : String) (s : PaymentIntentStatus) (now : ℕ) (pis : List PaymentIntent)
    → any (has_id j) (set_status id s now pis) ≡ any (has_id j) pis
unfolding set_status
any-set_status j id s now [] = refl
any-set_status j id s now (p ∷ pis) = let ih = any-set_status j id s now pis in ground arith

pub set_status-Keyed :
    (id : String) (s : PaymentIntentStatus) (now : ℕ) (pis : List PaymentIntent)
    → Keyed pis
    → Keyed (set_status id s now pis)
unfolding set_status
set_status-Keyed id s now [] k = tt
set_status-Keyed id s now (p ∷ pis) (fresh, k) =
    let apart = any-set_status p.id id s now pis ∙ fresh in
    let rest = set_status-Keyed id s now pis k in
    elim (Bool-cases (has_id id p)) [
      | inl here ↦ rw here (apart, rest)
      | inr other ↦ rw other (apart, rest)
    ]

pub set_status_absent :
    (id : String) (s : PaymentIntentStatus) (now : ℕ) (pis : List PaymentIntent)
    → any (has_id id) pis ≡ false
    → set_status id s now pis ≡ pis
unfolding set_status
set_status_absent id s now [] h = refl
set_status_absent id s now (p ∷ pis) h = elim (Bool-cases (has_id id p)) [
  | inl here ↦ ground arith
  | inr other ↦ rw other (ap (λ ps. p ∷ ps) (set_status_absent id s now pis (ground arith)))
]

absent-is_at :
    (id : String) (from : PaymentIntentStatus) (pis : List PaymentIntent)
    → any (has_id id) pis ≡ false
    → any (is_at id from) pis ≡ false
absent-is_at id from [] h = refl
absent-is_at id from (p ∷ pis) h = elim (Bool-cases (has_id id p)) [
  | inl here ↦ ground arith
  | inr other ↦ rw other (absent-is_at id from pis (ground arith))
]

pub set_status_from_none :
    (id : String) (from to : PaymentIntentStatus) (now : ℕ) (pis : List PaymentIntent)
    → any (is_at id from) pis ≡ false
    → set_status_from id from to now pis ≡ pis
unfolding set_status_from
set_status_from_none id from to now [] h = refl
set_status_from_none id from to now (p ∷ pis) h = elim (Bool-cases (is_at id from p)) [
  | inl here ↦ ground arith
  | inr other ↦
      rw other (ap (λ ps. p ∷ ps) (set_status_from_none id from to now pis (ground arith)))
]

-- Where ids are unique, an update that names the old status changes what a plain update would.
pub set_status_from-lem :
    (id : String) (from to : PaymentIntentStatus) (now : ℕ) (pis : List PaymentIntent)
    → Keyed pis
    → any (is_at id from) pis ≡ true
    → (set_status_from id from to now pis ≡ set_status id to now pis)
      × (pi : PaymentIntent) × (find (has_id id) pis ≡ some pi)
      × (pi.status ≡ from)
unfolding set_status set_status_from
set_status_from-lem id from to now [] k h = ground arith
set_status_from-lem id from to now (p ∷ pis) (fresh, k) h =
    let alone : has_id id p ≡ true → any (has_id id) pis ≡ false =
      λ here. subst (λ i. any (has_id i) pis ≡ false) ((str_eq_iff p.id id).0 here) fresh in
    elim (Bool-cases (is_at id from p)) [
      | inl at_it ↦
          let here : has_id id p ≡ true = ground arith in
          let same : status_eq p.status from ≡ true = ground arith in
          let absent = alone here in
          (
            rw (at_it, here)
                (ap (λ ps. with_status to now p ∷ ps)
                  (set_status_from_none id from to now pis (absent-is_at id from pis absent)
                    ∙ sym (set_status_absent id to now pis absent))),
            p,
            rw here refl,
            (status_eq_iff p.status from).0 same,
          )
      | inr not_at ↦
          let later : any (is_at id from) pis ≡ true = ground arith in
          let other : has_id id p ≡ false = elim (Bool-cases (has_id id p)) [
            | inl here ↦ ground (arith, absent-is_at id from pis (alone here))
            | inr other ↦ other
          ] in
          let (same, row, found, status) = set_status_from-lem id from to now pis k later in
          (rw (not_at, other) (ap (λ ps. p ∷ ps) same), row, rw other found, status)
    ]

-- A lookup that succeeds has found the row of that id.
pub get_by_id-found :
    (env : Env) (id : String) (w : World) (pi : PaymentIntent)
    → (get_by_id env id w).0 ≡ ok pi
    → find (has_id pi.id) w.intents ≡ some pi
unfolding get_by_id
get_by_id-found env id w pi h =
    let here = query-found env (λ v. find (has_id id) v.intents) w pi h in
    subst (λ i. find (has_id i) w.intents ≡ some pi)
      (sym ((str_eq_iff pi.id id).0 (find-has_id id w.intents pi here))) here
