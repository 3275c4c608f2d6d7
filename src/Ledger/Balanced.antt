-- ===== src/Ledger/Balanced.antt =====
-- internal/ledger/engine.go: `validateBalanced` against the sums that it stands for.
use zia.Base.{
  String, ◌≡◌, refl, ap, sym, ◌∙◌, ◌↔◌, inl, inr, List, [], ◌∷◌, none, arith, if◌then◌else◌, str_eq,
  str_eq_iff, str_eq_self, Bool-cases, subst,
}
use zia.Base.Int.{ℤ, pos, ◌+ℤ◌, ◌-ℤ◌, int_laws}
use zia.Base.Word.{i64, InRange, i64-add, i64_exact, i64-InRange}
use zia.Base.Dict.{Dict, lookup, insert, lookup-insert}
use zia.Domain.Accounting.{LedgerEntry}
use zia.Effects.Failure.{ok}
use zia.Ledger.Engine.{net_of, counted, tally, first_unbalanced, validate_balanced}

-- What the entries of one currency add up to, debits less the rest, with no wrap-around.
unfoldable pub net : String → List LedgerEntry → ℤ
net currency [] = pos 0
net currency (e ∷ es) =
    let rest = net currency es in
    if str_eq e.currency currency
    then if str_eq e.entry_type "debit" then e.amount +ℤ rest else rest -ℤ e.amount
    else rest

i64-add-add : (a b c : ℤ) → i64 (i64 (a +ℤ b) +ℤ c) ≡ i64 (a +ℤ (b +ℤ c))
i64-add-add a b c = i64-add (a +ℤ b) c ∙ ap i64 (omega int_laws)

i64-sub-add : (a b c : ℤ) → i64 (i64 (a -ℤ b) +ℤ c) ≡ i64 (a +ℤ (c -ℤ b))
i64-sub-add a b c = i64-add (a -ℤ b) c ∙ ap i64 (omega int_laws)

net_of-insert :
    (k j : String) (v : ℤ) (d : Dict ℤ)
    → net_of j (insert k v d) ≡ (if str_eq k j then v else net_of j d)
unfolding net_of
net_of-insert k j v d = ground (arith, lookup-insert k j v d)

-- An entry counted with wrap-around, in a sum that wraps at the end.
counted-sum :
    (e : LedgerEntry) (n r : ℤ)
    → i64 (counted e n +ℤ r)
      ≡ i64 (n +ℤ (if str_eq e.entry_type "debit" then e.amount +ℤ r else r -ℤ e.amount))
unfolding counted
counted-sum e n r = elim (Bool-cases (str_eq e.entry_type "debit")) [
  | inl debit ↦ rw debit (i64-add-add n e.amount r)
  | inr credit ↦ rw credit (i64-sub-add n e.amount r)
]

counted-InRange : (e : LedgerEntry) (n : ℤ) → InRange (counted e n)
unfolding counted
counted-InRange e n = elim (Bool-cases (str_eq e.entry_type "debit")) [
  | inl debit ↦ rw debit (i64-InRange (n +ℤ e.amount))
  | inr credit ↦ rw credit (i64-InRange (n -ℤ e.amount))
]

net_of-tally :
    (currency : String) (es : List LedgerEntry) (d : Dict ℤ)
    → InRange (net_of currency d)
    → net_of currency (tally es d) ≡ i64 (net_of currency d +ℤ net currency es)
unfolding tally net
net_of-tally currency [] d h = sym (i64_exact (net_of currency d) h) ∙ ap i64 (omega int_laws)
net_of-tally currency (e ∷ es) d h =
    let n = net_of e.currency d in
    let step = net_of-insert e.currency currency (counted e n) d in
    elim (Bool-cases (str_eq e.currency currency)) [
      | inl same ↦
          let here = ap (λ k. net_of k d) ((str_eq_iff e.currency currency).0 same) in
          let now = rw same at step in
          rw same (
            net_of-tally currency es (insert e.currency (counted e n) d)
              (subst InRange (sym now) (counted-InRange e n))
            ∙ ap (λ m. i64 (m +ℤ net currency es)) now
            ∙ counted-sum e n (net currency es)
            ∙ ap
                (λ m. i64 (
                  m
                  +ℤ (if str_eq e.entry_type "debit"
                      then e.amount +ℤ net currency es
                      else net currency es -ℤ e.amount)))
                here)
      | inr other ↦
          let now = rw other at step in
          rw other (
            net_of-tally currency es (insert e.currency (counted e n) d) (subst InRange (sym now) h)
            ∙ ap (λ m. i64 (m +ℤ net currency es)) now)
    ]

-- No key stands twice in the map.
abbrev NoDup : Dict ℤ → Type 0
NoDup [] = Unit
NoDup ((k, v) ∷ d) = (lookup k d ≡ none) × NoDup d

insert-NoDup : (k : String) (v : ℤ) (d : Dict ℤ) → NoDup d → NoDup (insert k v d)
unfolding insert lookup
insert-NoDup k v [] h = (refl, tt)
insert-NoDup k v ((j, w) ∷ d) h = elim (Bool-cases (str_eq j k)) [
  | inl same ↦ rw same (subst (λ i. lookup i d ≡ none) ((str_eq_iff j k).0 same) h.0, h.1)
  | inr other ↦ rw other (
    ground (arith, str_eq_iff j k, str_eq_iff k j, lookup-insert k j v d),
    insert-NoDup k v d h.1,
  )
]

tally-NoDup : (es : List LedgerEntry) (d : Dict ℤ) → NoDup d → NoDup (tally es d)
unfolding tally
tally-NoDup [] d h = h
tally-NoDup (e ∷ es) d h =
    tally-NoDup es (insert e.currency (counted e (net_of e.currency d)) d)
      (insert-NoDup e.currency _ d h)

first_unbalanced_sound : (d : Dict ℤ) (k : String) → first_unbalanced d ≡ ok tt → net_of k d ≡ pos 0
unfolding first_unbalanced net_of lookup
first_unbalanced_sound [] k h = refl
first_unbalanced_sound ((j, v) ∷ d) k h = ground (arith, first_unbalanced_sound d k)

net_of-head : (j : String) (v : ℤ) (d : Dict ℤ) → net_of j ((j, v) ∷ d) ≡ v
unfolding net_of lookup
net_of-head j v d = ground (arith, str_eq_self j)

rest_balanced :
    (j : String) (v : ℤ) (d : Dict ℤ)
    → lookup j d ≡ none
    → ((k : String) → net_of k ((j, v) ∷ d) ≡ pos 0)
    → (k : String) → net_of k d ≡ pos 0
unfolding net_of lookup
rest_balanced j v d missing h k = elim (Bool-cases (str_eq j k)) [
  | inl same ↦
      let gone = subst (λ i. lookup i d ≡ none) ((str_eq_iff j k).0 same) missing in ground arith
  | inr other ↦ ground (arith, h k)
]

net_of-nil : (k : String) → net_of k [] ≡ pos 0
unfolding net_of lookup
net_of-nil k = refl

zero-InRange : (k : String) → InRange (net_of k [])
zero-InRange k = rw (net_of-nil k) (omega arith)

net_of-tally_nil :
    (currency : String) (es : List LedgerEntry)
    → net_of currency (tally es []) ≡ i64 (net currency es)
net_of-tally_nil currency es =
    net_of-tally currency es [] (zero-InRange currency)
    ∙ ap (λ n. i64 (n +ℤ net currency es)) (net_of-nil currency)
    ∙ ap i64 (omega int_laws)

first_unbalanced_complete :
    (d : Dict ℤ) → NoDup d → ((k : String) → net_of k d ≡ pos 0) → first_unbalanced d ≡ ok tt
unfolding first_unbalanced net_of
first_unbalanced_complete [] n h = refl
first_unbalanced_complete ((j, v) ∷ d) n h =
    let tail = first_unbalanced_complete d n.1 (rest_balanced j v d n.0 h) in
    ground (arith, tail, h j, net_of-head j v d)

-- `validateBalanced` accepts exactly the entries of which every currency's debits less its credits
-- come to zero as an int64: taken exactly, to a multiple of 2 ^ 64.
pub validate_balanced-exact :
    (es : List LedgerEntry)
    → (validate_balanced es ≡ ok tt) ↔ ((currency : String) → i64 (net currency es) ≡ pos 0)
unfolding validate_balanced
validate_balanced-exact es = (
  λ passes currency.
      sym (net_of-tally_nil currency es) ∙ first_unbalanced_sound (tally es []) currency passes,
  λ balanced.
      first_unbalanced_complete (tally es []) (tally-NoDup es [] tt)
        (λ currency. net_of-tally_nil currency es ∙ balanced currency),
)
