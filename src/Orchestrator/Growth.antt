-- ===== src/Orchestrator/Growth.antt =====
-- internal/orchestrator/engine.go: a new intent keeps the books in order.
use zia.Base.{
  ◌≤◌, String, false, ◌≡◌, refl, sym, subst, inl, inr, some, List, [], ◌∷◌, ◌++◌, arith, Bool-cases,
  str_eq_iff, any, find,
}
use zia.Domain.Intent.{PaymentIntent}
use zia.Effects.World.{World}
use zia.Repository.Intents.{has_id}
use zia.Repository.Keys.{Keyed}
use zia.Orchestrator.Change.{allowed, quota, is_paid, Books, Progress}
use zia.Orchestrator.Created.{Created}
use zia.Orchestrator.Lifecycle.{stay}

any-append :
    (id : String) (pis : List PaymentIntent) (pi : PaymentIntent)
    → any (has_id id) pis ≡ false
    → has_id id pi ≡ false
    → any (has_id id) (pis ++ pi ∷ []) ≡ false
any-append id [] pi h k = rw k refl
any-append id (p ∷ pis) pi h k = elim (Bool-cases (has_id id p)) [
  | inl here ↦ ground arith
  | inr other ↦ rw other (any-append id pis pi (ground arith) k)
]

append-Keyed :
    (pis : List PaymentIntent) (pi : PaymentIntent)
    → any (has_id pi.id) pis ≡ false
    → Keyed pis
    → Keyed (pis ++ pi ∷ [])
append-Keyed [] pi fresh keyed = (refl, tt)
append-Keyed (p ∷ pis) pi fresh (apart, keyed) =
    let ne : has_id p.id pi ≡ false =
      ground (arith, fresh, str_eq_iff p.id pi.id, str_eq_iff pi.id p.id) in
    (any-append p.id pis pi apart ne, append-Keyed pis pi (ground arith) keyed)

find-append :
    (id : String) (pis : List PaymentIntent) (pi p : PaymentIntent)
    → find (has_id id) pis ≡ some p
    → find (has_id id) (pis ++ pi ∷ []) ≡ some p
find-append id [] pi p h = ground arith
find-append id (q ∷ pis) pi p h = elim (Bool-cases (has_id id q)) [
  | inl here ↦ ground arith
  | inr other ↦ rw other (find-append id pis pi p (ground arith))
]

-- The new row allows no more than was allowed before.
allowed-append :
    (id : String) (pis : List PaymentIntent) (pi : PaymentIntent)
    → is_paid pi.status ≡ false
    → allowed (find (has_id id) pis) ≤ allowed (find (has_id id) (pis ++ pi ∷ []))
unfolding allowed quota
allowed-append id [] pi unpaid = ground arith
allowed-append id (q ∷ pis) pi unpaid = elim (Bool-cases (has_id id q)) [
  | inl here ↦ rw here (omega arith)
  | inr other ↦ rw other (allowed-append id pis pi unpaid)
]

pub Created-Keyed : (w w' : World) → Created w w' → Keyed w.intents → Keyed w'.intents
Created-Keyed w w' (inl (same, _)) k = subst Keyed (sym same) k
Created-Keyed w w' (inr (id, (pi, own, fresh, _, grown, _))) k =
    subst Keyed (sym grown)
      (append-Keyed w.intents pi (subst (λ i. any (has_id i) w.intents ≡ false) (sym own) fresh) k)

pub Created-Books : (w w' : World) → Created w w' → Books w → Books w'
Created-Books w w' (inl (same, kept)) h j = rw (same, kept) (h j)
Created-Books w w' (inr (id, (pi, _, _, unpaid, grown, kept))) h j =
    rw (grown, kept) (omega (arith, h j, allowed-append j w.intents pi unpaid))

pub Created-Progress : (w w' : World) → Created w w' → Progress w w'
Created-Progress w w' (inl (same, _)) j p h = (p, rw same h, stay, refl, refl)
Created-Progress w w' (inr (id, (pi, _, _, _, grown, _))) j p h =
    (p, rw grown (find-append j w.intents pi p h), stay, refl, refl)
