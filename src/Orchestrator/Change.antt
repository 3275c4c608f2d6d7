-- ===== src/Orchestrator/Change.antt =====
-- What one run of a handler may do to the intents and to the ledger, and the invariants of the
-- books that follow from it.
use zia.Base.{
  ℕ, suc, ◌+◌, ◌≤◌, String, Bool, true, false, ◌&&◌, ◌≡◌, ◌≢◌, refl, sym, ap, subst, ◌∙◌, ◌⊎◌, inl,
  inr, Option, none, some, List, [], ◌∷◌, ◌++◌, arith, if◌then◌else◌, Bool-cases, Option-cases,
  str_eq, str_eq_iff, find,
}
use zia.Domain.Intent.{
  PaymentIntent, PaymentIntentStatus, created, requires_action, processing, succeeded, failed,
  expired, partially_refunded, refunded,
}
use zia.Domain.Accounting.{LedgerEntry}
use zia.Effects.World.{World}
use zia.Repository.Intents.{has_id, with_status, set_status}
use zia.Repository.Keys.{Keyed, find-set_status, find-set_status_other, set_status-Keyed}
use zia.Orchestrator.Lifecycle.{
  ◌⟶◌, ask, start, refuse, lapse, confirm, ask_again, approve, complete, decline, break_off,
  time_out, give_part, give_all, ◌⟶*◌, stay, go_on,
}

-- The entry with which `PostCollection` takes a payment in.
abbrev pub is_payment : String → LedgerEntry → Bool
is_payment id e =
    str_eq e.reference_type "attempt" && str_eq e.reference_id id && str_eq e.entry_type "debit"

-- How often a payment was taken in.
unfoldable pub payments : String → List LedgerEntry → ℕ
payments id [] = 0
payments id (e ∷ es) = let rest = payments id es in if is_payment id e then suc rest else rest

pub payments-append :
    (id : String) (es fs : List LedgerEntry)
    → payments id (es ++ fs) ≡ payments id es + payments id fs
unfolding payments
payments-append id [] fs = omega arith
payments-append id (e ∷ es) fs = let ih = payments-append id es fs in ground arith

unfoldable pub is_paid : PaymentIntentStatus → Bool
is_paid succeeded = true
is_paid partially_refunded = true
is_paid refunded = true
is_paid created = false
is_paid requires_action = false
is_paid processing = false
is_paid failed = false
is_paid expired = false

-- How often an intent of that status may have been taken in.
unfoldable pub quota : PaymentIntentStatus → ℕ
quota s = if is_paid s then 1 else 0

unfoldable pub allowed : Option PaymentIntent → ℕ
allowed none = 0
allowed (some pi) = quota pi.status

-- A payment was taken in once at most, and only where its intent says so.
abbrev pub Books : World → Type 0
Books w = (id : String) → payments id w.entries ≤ allowed (find (has_id id) w.intents)

pub books_bound :
    (w : World) (id : String)
    → payments id w.entries ≤ allowed (find (has_id id) w.intents)
    → payments id w.entries ≤ 1
unfolding allowed quota
books_bound w id h = elim (Option-cases (find (has_id id) w.intents)) [
  | inl absent ↦ ground arith
  | inr (pi, here) ↦ elim (Bool-cases (is_paid pi.status)) [
    | inl paid ↦ ground arith
    | inr unpaid ↦ ground arith
  ]
]

-- The entries that were added: none, or those of one collection for an intent that has just
-- succeeded.
abbrev pub Posted : World → World → String → PaymentIntentStatus → Type 0
Posted w w' id to =
    (w'.entries ≡ w.entries)
    ⊎ ((to ≡ succeeded)
        × (es : List LedgerEntry) × (w'.entries ≡ w.entries ++ es)
        × (payments id es ≤ 1)
        × ((j : String) → j ≢ id → payments j es ≡ 0))

-- One intent took one step of its life.
abbrev pub Moved : World → World → Type 0
Moved w w' =
    (id : String) × (pi : PaymentIntent) × (to : PaymentIntentStatus) × (now : ℕ) × (find
        (has_id id) w.intents
      ≡ some pi)
    × (pi.status ⟶ to)
    × (w'.intents ≡ set_status id to now w.intents)
    × Posted w w' id to

abbrev pub Same : World → World → Type 0
Same w w' = (w'.intents ≡ w.intents) × (w'.entries ≡ w.entries)

abbrev pub Change : World → World → Type 0
Change w w' = Same w w' ⊎ Moved w w'

step-quota : {a b : PaymentIntentStatus} → a ⟶ b → quota a ≤ quota b
unfolding quota is_paid
step-quota ask = omega arith
step-quota start = omega arith
step-quota refuse = omega arith
step-quota lapse = omega arith
step-quota confirm = omega arith
step-quota ask_again = omega arith
step-quota approve = omega arith
step-quota complete = omega arith
step-quota decline = omega arith
step-quota break_off = omega arith
step-quota time_out = omega arith
step-quota give_part = omega arith
step-quota give_all = omega arith

quota_succeeded : quota succeeded ≡ 1
unfolding quota is_paid
quota_succeeded = refl

before_success : {a : PaymentIntentStatus} → a ⟶ succeeded → quota a ≡ 0
unfolding quota is_paid
before_success approve = refl
before_success complete = refl

pub Change-Keyed : (w w' : World) → Change w w' → Keyed w.intents → Keyed w'.intents
Change-Keyed w w' (inl (same, _)) k = subst Keyed (sym same) k
Change-Keyed w w' (inr (id, pi, to, now, _, _, moved, _)) k =
    subst Keyed (sym moved) (set_status-Keyed id to now w.intents k)

ne : {i k : String} → str_eq i k ≡ false → i ≢ k
ne {i} {k} other same = ground (arith, other, (str_eq_iff i k).1 same)

own_quota :
    (w w' : World) (id : String) (pi : PaymentIntent) (to : PaymentIntentStatus) (now : ℕ)
    → find (has_id id) w.intents ≡ some pi
    → pi.status ⟶ to
    → w'.intents ≡ set_status id to now w.intents
    → Posted w w' id to
    → payments id w.entries ≤ allowed (find (has_id id) w.intents)
    → payments id w'.entries ≤ allowed (find (has_id id) w'.intents)
unfolding allowed
own_quota w w' id pi to now found step moved posted before =
    let was : payments id w.entries ≤ quota pi.status =
      subst (λ o. payments id w.entries ≤ allowed o) found before in
    rw (moved, find-set_status id to now w.intents pi found)
      (elim posted [
        | inl kept ↦ rw kept (omega (arith, was, step-quota step))
        | inr (paid, es, added, one, _) ↦
            let none_yet = before_success (subst (λ t. pi.status ⟶ t) paid step) in
            rw (added, payments-append id w.entries es, paid)
              (omega (arith, was, none_yet, one, quota_succeeded))
      ])

pub Change-Books : (w w' : World) → Change w w' → Books w → Books w'
Change-Books w w' (inl (same, kept)) h j = rw (same, kept) (h j)
Change-Books w w' (inr (id, pi, to, now, found, step, moved, posted)) h j =
    elim (Bool-cases (str_eq j id)) [
      | inl same ↦
          subst (λ i. payments i w'.entries ≤ allowed (find (has_id i) w'.intents))
            (sym ((str_eq_iff j id).0 same))
            (own_quota w w' id pi to now found step moved posted (h id))
      | inr other ↦
          rw (moved, find-set_status_other j id to now w.intents (ne other))
            (elim posted [
              | inl kept ↦ rw kept (h j)
              | inr (_, es, added, _, others) ↦
                  rw (added, payments-append j w.entries es, others j (ne other))
                    (omega (arith, h j))
            ])
    ]

join : {a b c : PaymentIntentStatus} → a ⟶* b → b ⟶* c → a ⟶* c
join stay more = more
join (go_on step rest) more = go_on step (join rest more)

-- Every intent is kept, with its merchant and its amount, and has taken no step that is not one of
-- a payment's life.
abbrev pub Advanced : World → String → PaymentIntent → Type 0
Advanced w' id pi =
    (pi' : PaymentIntent) × (find (has_id id) w'.intents ≡ some pi')
    × (pi.status ⟶* pi'.status)
    × (pi'.merchant_id ≡ pi.merchant_id)
    × (pi'.amount ≡ pi.amount)

abbrev pub Progress : World → World → Type 0
Progress w w' =
    (id : String) (pi : PaymentIntent) → find (has_id id) w.intents ≡ some pi → Advanced w' id pi

pub Progress-trans : (u v w : World) → Progress u v → Progress v w → Progress u w
Progress-trans u v w f g id pi h =
    let (p, found_p, steps, merchant, amount) = f id pi h in
    let (q, found_q, more, merchant', amount') = g id p found_p in
    (q, found_q, join steps more, merchant' ∙ merchant, amount' ∙ amount)

pub Change-Progress : (w w' : World) → Change w w' → Progress w w'
Change-Progress w w' (inl (same, _)) j p h = (p, rw same h, stay, refl, refl)
Change-Progress w w' (inr (id, pi, to, now, found, step, moved, _)) j p h =
    elim (Bool-cases (str_eq j id)) [
      | inl same ↦
          let j_is = (str_eq_iff j id).0 same in
          let is_p : pi ≡ p =
            ap (λ o. elim o [ none ↦ pi | some q ↦ q ])
              (sym found ∙ ap (λ i. find (has_id i) w.intents) (sym j_is) ∙ h) in
          let changed : find (has_id j) w'.intents ≡ some (with_status to now pi) =
            rw (j_is, moved) (find-set_status id to now w.intents pi found) in
          subst (Advanced w' j) is_p (with_status to now pi, changed, go_on step stay, refl, refl)
      | inr other ↦ (
        p,
        rw (moved, find-set_status_other j id to now w.intents (ne other)) h,
        stay,
        refl,
        refl,
      )
    ]
