-- ===== src/Ledger/Rows.antt =====
-- internal/repository/ledger.go: the table of ledger entries. The rows only ever grow.
use zia.Base.{String, Bool, ◌&&◌, ◌||◌, List, [], ◌∷◌, ◌++◌, if◌then◌else◌, str_eq}
use zia.Base.Int.{ℤ, pos, ◌+ℤ◌, ◌-ℤ◌, ltb_ℤ, leb_ℤ}
use zia.Base.Word.{min_i64, max_i64}
use zia.Domain.Accounting.{LedgerEntry}
use zia.Effects.Failure.{external, ok, err}
use zia.Effects.World.{World, Env, tick}
use zia.Effects.Action.{Action, Done, exec, query}

-- The CHECK constraints of migrations/000001_init.up.sql.
unfoldable pub is_accepted : LedgerEntry → Bool
is_accepted e =
    (str_eq e.entry_type "debit" || str_eq e.entry_type "credit") && ltb_ℤ (pos 0) e.amount

abbrev pub append_entry : LedgerEntry → World → World
append_entry e w = record w { entries = w.entries ++ e ∷ [] }

-- One INSERT: it fails where the outside does, or where the row breaks a constraint.
unfoldable pub insert_entry : Env → LedgerEntry → Action Done
insert_entry env e w = if is_accepted e then exec env (append_entry e) w else (err external, tick w)

-- The loop of `InsertEntries`: a statement for each entry, with no transaction around them.
unfoldable pub insert_entries : Env → List LedgerEntry → Action Done
unfolding insert_entry
insert_entries env [] w = (ok tt, w)
insert_entries env (e ∷ es) w =
    let (r, w') = insert_entry env e w in
    let rest = insert_entries env es w' in elim r [ ok _ ↦ rest | err x ↦ (err x, w') ]

-- `SUM(CASE WHEN entry_type = 'credit' THEN amount ELSE -amount END)` over an account.
unfoldable pub sum_credits : String → List LedgerEntry → ℤ
sum_credits account [] = pos 0
sum_credits account (e ∷ es) =
    let rest = sum_credits account es in
    if str_eq e.account_id account
    then if str_eq e.entry_type "credit" then e.amount +ℤ rest else rest -ℤ e.amount
    else rest

-- PostgreSQL's sum of BIGINT is exact; a sum that is no int64 cannot be scanned.
unfoldable pub balance : Env → String → Action ℤ
unfolding sum_credits query
balance env account = query env λ w.
    let sum = sum_credits account w.entries in
    if leb_ℤ min_i64 sum && leb_ℤ sum max_i64 then ok sum else err external
