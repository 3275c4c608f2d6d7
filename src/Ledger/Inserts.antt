-- ===== src/Ledger/Inserts.antt =====
-- internal/repository/ledger.go: what a run of inserts leaves behind, wherever it stops.
use zia.Base.{
  ℕ, suc, ◌<◌, ◌≡◌, refl, ap, ◌∙◌, ◌⊎◌, inl, inr, List, [], ◌∷◌, ◌++◌, arith, String, str_eq,
  Bool-cases, length, take,
}
use mathlib.Core.List.{append-nil, append_assoc}
use zia.Base.Int.{◌+ℤ◌, int_laws}
use zia.Domain.Accounting.{LedgerEntry}
use zia.Effects.Failure.{Error, external, Result, ok, err}
use zia.Effects.World.{World, Env}
use zia.Effects.Action.{Done, exec}
use zia.Ledger.Rows.{is_accepted, insert_entry, insert_entries, sum_credits}
use zia.Ledger.Balanced.{net}

-- Only the given entries and the number of calls were added.
abbrev pub Appended : World → World → List LedgerEntry → Type 0
Appended w w' added = (c : ℕ) × (w' ≡ record w { entries = w.entries ++ added; calls = c })

-- All was inserted, or an error came after the first few.
abbrev pub Inserted : World → List LedgerEntry → Result Done × World → Type 0
Inserted w es (r, w') =
    ((r ≡ ok tt) × Appended w w' es)
    ⊎ ((x : Error) × (k : ℕ) × (r ≡ err x) × (k < length es) × Appended w w' (take k es))

unchanged-Appended : (w : World) (c : ℕ) → Appended w (record w { calls = c }) []
unchanged-Appended w c = (c, rw (append-nil w.entries) refl)

insert_entry-Inserted :
    (env : Env) (e : LedgerEntry) (w : World)
    → let (r, w') = insert_entry env e w in
      ((r ≡ ok tt) × Appended w w' (e ∷ [])) ⊎ ((x : Error) × (r ≡ err x) × Appended w w' [])
unfolding insert_entry exec
insert_entry-Inserted env e w = elim (Bool-cases (is_accepted e)) [
  | inl good ↦ elim (Bool-cases (env.fails w.calls)) [
    | inl down ↦ rw (good, down) (inr (external, refl, unchanged-Appended w (suc w.calls)))
    | inr up ↦ rw (good, up) (inl (refl, (suc w.calls, refl)))
  ]
  | inr bad ↦ rw bad (inr (external, refl, unchanged-Appended w (suc w.calls)))
]

append-Appended :
    (w w' w'' : World) (es fs : List LedgerEntry)
    → Appended w w' es
    → Appended w' w'' fs
    → Appended w w'' (es ++ fs)
append-Appended w w' w'' es fs (c, h) (d, k) =
    let onto : World → World = λ v. record v { entries = v.entries ++ fs; calls = d } in
    let holding : List LedgerEntry → World = λ l. record w { entries = l; calls = d } in
    (d, k ∙ ap onto h ∙ ap holding (append_assoc w.entries es fs))

-- A run of inserts has added all of its entries and reports success, or it reports an error and has
-- added the first few of them, fewer than all. It changes nothing else but the number of calls.
pub insert_entries-Inserted :
    (env : Env) (es : List LedgerEntry) (w : World) → Inserted w es (insert_entries env es w)
unfolding insert_entries
insert_entries-Inserted env [] w = inl (refl, unchanged-Appended w w.calls)
insert_entries-Inserted env (e ∷ es) w = elim (insert_entry-Inserted env e w) [
  | inl (done, one) ↦
      rw (done, insert_entries)
        (elim (insert_entries-Inserted env es (insert_entry env e w).1) [
          | inl (all, rest) ↦ inl (all, append-Appended w _ _ (e ∷ []) es one rest)
          | inr (x, k, failed, lt, rest) ↦
              inr
                (x, suc k, failed, omega arith, append-Appended w _ _ (e ∷ []) (take k es) one rest)
        ])
  | inr (x, failed, nothing) ↦ rw (failed, insert_entries) (inr (x, 0, refl, omega arith, nothing))
]

pub sum_credits-append :
    (a : String) (es fs : List LedgerEntry)
    → sum_credits a (es ++ fs) ≡ sum_credits a es +ℤ sum_credits a fs
unfolding sum_credits
sum_credits-append a [] fs = omega int_laws
sum_credits-append a (e ∷ es) fs =
    let ih = sum_credits-append a es fs in
    elim (Bool-cases (str_eq e.account_id a)) [
      | inl here ↦ elim (Bool-cases (str_eq e.entry_type "credit")) [
        | inl credit ↦ rw (here, credit, ih) (omega int_laws)
        | inr debit ↦ rw (here, debit, ih) (omega int_laws)
      ]
      | inr other ↦ rw other ih
    ]

pub net-append :
    (currency : String) (es fs : List LedgerEntry)
    → net currency (es ++ fs) ≡ net currency es +ℤ net currency fs
unfolding net
net-append currency [] fs = omega int_laws
net-append currency (e ∷ es) fs =
    let ih = net-append currency es fs in
    elim (Bool-cases (str_eq e.currency currency)) [
      | inl here ↦ elim (Bool-cases (str_eq e.entry_type "debit")) [
        | inl debit ↦ rw (here, debit, ih) (omega int_laws)
        | inr credit ↦ rw (here, credit, ih) (omega int_laws)
      ]
      | inr other ↦ rw other ih
    ]
