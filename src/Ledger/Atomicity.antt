-- ===== src/Ledger/Atomicity.antt =====
-- internal/ledger/engine.go and internal/repository/ledger.go: when a posting goes through, and what
-- an error in its middle leaves behind.
use zia.Base.{
  ℕ, suc, ◌≡◌, refl, ap, ◌∙◌, true, false, String, List, [], ◌∷◌, ◌++◌, str_eq_self, arith,
  Bool-cases, inl, inr, All,
}
use zia.Base.Int.{ℤ, pos, ltb_ℤ, ◌≤ℤ◌, ◌+ℤ◌, int_laws}
use zia.Domain.Accounting.{LedgerEntry}
use zia.Effects.Failure.{external, ok, err}
use zia.Effects.World.{World, Env}
use zia.Effects.Action.{exec}
use zia.Ledger.Rows.{is_accepted, insert_entry, insert_entries}
use zia.Ledger.Engine.{Posting, entry_of, post_transfer, post_collection}
use zia.Ledger.Accounts.{platform_fees, psp_clearing_account, merchant_available}
use zia.Ledger.Collections.{fee_entries, collection_entries, post_collection-insert_entries}
use zia.Ledger.Balanced.{net}
use zia.Ledger.Inserts.{net-append}
use zia.Ledger.Postings.{pair, posting, later, post_transfer-insert_entries}

-- With a reliable outside, entries that break no constraint are all inserted.
pub insert_entries-ok :
    (env : Env) (es : List LedgerEntry) (w : World)
    → ((n : ℕ) → env.fails n ≡ false)
    → All (λ e. is_accepted e ≡ true) es
    → (insert_entries env es w).0 ≡ ok tt
unfolding insert_entries insert_entry exec
insert_entries-ok env [] w up h = refl
insert_entries-ok env (e ∷ es) w up h =
    ground (arith, up w.calls, insert_entries-ok env es (insert_entry env e w).1 up h.1)

pub entry-accepted :
    (p : Posting) (i a : String) (amount : ℤ)
    → pos 1 ≤ℤ amount
    → (is_accepted (entry_of p i a "debit" amount) ≡ true)
      × (is_accepted (entry_of p i a "credit" amount) ≡ true)
unfolding is_accepted
entry-accepted p i a amount h = ground arith

insert_entries_half :
    (env : Env) (e f : LedgerEntry) (w : World)
    → is_accepted e ≡ true
    → is_accepted f ≡ true
    → env.fails w.calls ≡ false
    → env.fails (suc w.calls) ≡ true
    → insert_entries env (e ∷ f ∷ []) w
      ≡ (err external, record w { entries = w.entries ++ e ∷ []; calls = suc (suc w.calls) })
unfolding insert_entries insert_entry exec
insert_entries_half env e f w ae af up down = ground arith

net-debit :
    (p : Posting) (i a : String) (amount : ℤ)
    → net p.currency (entry_of p i a "debit" amount ∷ []) ≡ amount
unfolding net
net-debit p i a amount = rw (str_eq_self p.currency) (omega int_laws)

fee_entries-accepted :
    (p : Posting) (i j account : String) (fee : ℤ)
    → All (λ e. is_accepted e ≡ true) (fee_entries p i j account fee)
unfolding fee_entries
fee_entries-accepted p i j account fee = elim (Bool-cases (ltb_ℤ (pos 0) fee)) [
  | inl some_fee ↦
      let positive : pos 1 ≤ℤ fee = ground arith in
      rw some_fee (
        (entry-accepted p i account fee positive).0,
        ((entry-accepted p j platform_fees fee positive).1, tt),
      )
  | inr no_fee ↦ rw no_fee tt
]

-- Where the outside does not fail, a collection of a positive amount succeeds, whatever its fee.
pub post_collection-ok :
    (env : Env) (w : World) (merchant_id pi_id psp : String) (amount : ℤ) (currency : String)
    (fee : ℤ)
    → ((n : ℕ) → env.fails n ≡ false)
    → pos 1 ≤ℤ amount
    → (post_collection env merchant_id pi_id psp amount currency fee w).0 ≡ ok tt
post_collection-ok env w merchant_id pi_id psp amount currency fee up positive =
    let p = posting env w currency "attempt" pi_id in
    let debit =
      entry-accepted p (env.uuid (suc w.calls)) (psp_clearing_account psp) amount positive in
    let credit =
      entry-accepted p (env.uuid (suc (suc w.calls))) (merchant_available merchant_id) amount
        positive in
    ap (λ m. m.0) (post_collection-insert_entries env w merchant_id pi_id psp amount currency fee)
    ∙ insert_entries-ok env (collection_entries env w merchant_id pi_id psp amount currency fee) _
        up
        (unfold collection_entries in
          (
            debit.0,
            (credit.1, fee_entries-accepted (posting env w currency "fee" pi_id) _ _ _ fee),
          ))

module _ (env : Env) (w : World) (reference_type reference_id debited credited : String)
    (amount : ℤ) (currency : String) where
  -- A posting of a positive amount succeeds where the outside does not fail.
  pub post_transfer-ok :
      ((n : ℕ) → env.fails n ≡ false)
      → pos 1 ≤ℤ amount
      → (post_transfer env reference_type reference_id debited credited amount currency w).0 ≡ ok tt
  post_transfer-ok up positive =
      let p = posting env w currency reference_type reference_id in
      ap (λ m. m.0)
        (post_transfer-insert_entries env w reference_type reference_id debited credited amount
          currency)
      ∙ insert_entries-ok env (pair p _ _ debited credited amount)
          (later env w (suc (suc (suc w.calls)))) up
          (
            (entry-accepted p _ debited amount positive).0,
            ((entry-accepted p _ credited amount positive).1, tt),
          )

  -- The inserts of a posting are not one transaction: if the second of the two fails, the posting
  -- reports an error, the debit stays, and the debits of its currency exceed the credits by its
  -- amount.
  pub post_transfer_half :
      env.fails (suc (suc (suc w.calls))) ≡ false
      → env.fails (suc (suc (suc (suc w.calls)))) ≡ true
      → pos 1 ≤ℤ amount
      → let m = post_transfer env reference_type reference_id debited credited amount currency w in
        (m.0 ≡ err external) × (net currency m.1.entries ≡ net currency w.entries +ℤ amount)
  post_transfer_half first second positive =
      let p = posting env w currency reference_type reference_id in
      let debit = entry_of p (env.uuid (suc w.calls)) debited "debit" amount in
      let credit = entry_of p (env.uuid (suc (suc w.calls))) credited "credit" amount in
      let outcome =
        post_transfer-insert_entries env w reference_type reference_id debited credited amount
          currency
        ∙ insert_entries_half env debit credit (later env w (suc (suc (suc w.calls))))
            (entry-accepted p _ debited amount positive).0
            (entry-accepted p _ credited amount positive).1 first second in
      (
        ap (λ m. m.0) outcome,
        ap (λ m. net currency m.1.entries) outcome
            ∙ net-append currency w.entries (debit ∷ [])
            ∙ ap (λ n. net currency w.entries +ℤ n) (net-debit p _ debited amount),
      )
