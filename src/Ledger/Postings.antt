-- ===== src/Ledger/Postings.antt =====
-- internal/ledger/engine.go: what each posting does to the balances of the accounts.
use zia.Base.{
  ℕ, suc, ◌≡◌, ◌≢◌, refl, ap, sym, subst, ◌∙◌, inl, inr, List, [], ◌∷◌, arith, String,
  if◌then◌else◌, str_eq, str_eq_self, str_eq_ne, Bool-cases,
}
use zia.Base.Int.{ℤ, pos, ◌+ℤ◌, ◌-ℤ◌, int_laws}
use zia.Base.Word.{i64_exact}
use zia.Domain.Accounting.{LedgerEntry}
use zia.Effects.Failure.{Result, ok}
use zia.Effects.World.{World, Env}
use zia.Effects.Action.{Done, clock}
use zia.Ledger.Rows.{insert_entries, sum_credits}
use zia.Ledger.Engine.{Posting, entry_of, validate_balanced, post_balanced, post_transfer}
use zia.Ledger.Balanced.{net, validate_balanced-exact}
use zia.Ledger.Inserts.{Appended, Inserted, insert_entries-Inserted, sum_credits-append, net-append}

-- The two entries of a transfer.
abbrev pub pair : Posting → String → String → String → String → ℤ → List LedgerEntry
pair p i j debited credited amount =
    entry_of p i debited "debit" amount ∷ entry_of p j credited "credit" amount ∷ []

pub net-pair :
    (currency : String) (p : Posting) (i j debited credited : String) (amount : ℤ)
    → net currency (pair p i j debited credited amount) ≡ pos 0
unfolding net
net-pair currency p i j debited credited amount = elim (Bool-cases (str_eq p.currency currency)) [
  | inl same ↦ rw same (omega int_laws)
  | inr other ↦ rw other refl
]

-- Entries that balance exactly pass the check, whatever their amounts.
validate-zero :
    (es : List LedgerEntry)
    → ((currency : String) → net currency es ≡ pos 0)
    → validate_balanced es ≡ ok tt
validate-zero es h =
    (validate_balanced-exact es).1 (λ currency. rw (h currency) (i64_exact (pos 0) (omega arith)))

pub post_balanced-zero :
    (env : Env) (es : List LedgerEntry) (w : World)
    → ((currency : String) → net currency es ≡ pos 0)
    → post_balanced env es w ≡ insert_entries env es w
unfolding post_balanced
post_balanced-zero env es w h = rw (validate-zero es h) refl

-- What a transfer of `amount` adds to an account's credits.
unfoldable pub gain : String → String → ℤ → String → ℤ
gain debited credited amount a =
    (if str_eq credited a then amount else pos 0) -ℤ (if str_eq debited a then amount else pos 0)

pub gain_debited :
    (debited credited : String) (amount : ℤ)
    → debited ≢ credited
    → gain debited credited amount debited ≡ pos 0 -ℤ amount
unfolding gain
gain_debited debited credited amount h =
    rw (str_eq_ne credited debited (λ e. h (sym e)), str_eq_self debited) refl

pub gain_credited :
    (debited credited : String) (amount : ℤ)
    → debited ≢ credited
    → gain debited credited amount credited ≡ amount
unfolding gain
gain_credited debited credited amount h =
    rw (str_eq_ne debited credited h, str_eq_self credited) (omega int_laws)

pub gain_other :
    (debited credited : String) (amount : ℤ) (a : String)
    → a ≢ debited
    → a ≢ credited
    → gain debited credited amount a ≡ pos 0
unfolding gain
gain_other debited credited amount a d c =
    rw (str_eq_ne debited a (λ e. d (sym e)), str_eq_ne credited a (λ e. c (sym e)))
      (omega int_laws)

pub sum-pair :
    (a : String) (p : Posting) (i j debited credited : String) (amount : ℤ)
    → sum_credits a (pair p i j debited credited amount) ≡ gain debited credited amount a
unfolding sum_credits gain
sum-pair a p i j debited credited amount = elim (Bool-cases (str_eq debited a)) [
  | inl d ↦ elim (Bool-cases (str_eq credited a)) [
    | inl c ↦ rw (d, c) (omega int_laws)
    | inr c ↦ rw (d, c) (omega int_laws)
  ]
  | inr d ↦ elim (Bool-cases (str_eq credited a)) [
    | inl c ↦ rw (d, c) (omega int_laws)
    | inr c ↦ rw (d, c) (omega int_laws)
  ]
]

-- Every account's credits changed by the given amounts, and every currency's sum stayed.
abbrev pub Moves : World → World → (String → ℤ) → Type 0
Moves w w' f =
    ((a : String) → sum_credits a w'.entries ≡ sum_credits a w.entries +ℤ f a)
    × ((currency : String) → net currency w'.entries ≡ net currency w.entries)

Appended-Moves :
    (w w' : World) (es : List LedgerEntry) (f : String → ℤ)
    → Appended w w' es
    → ((a : String) → sum_credits a es ≡ f a)
    → ((currency : String) → net currency es ≡ pos 0)
    → Moves w w' f
Appended-Moves w w' es f (c, h) sums nets =
    let grown = ap (λ v. v.entries) h in
    (
      λ a. rw (grown, sum_credits-append a w.entries es, sums a) refl,
      λ currency. rw (grown, net-append currency w.entries es, nets currency) (omega int_laws),
    )

-- A posting that reports success has inserted all of its entries.
pub Inserted-Moves :
    (w : World) (es : List LedgerEntry) (m : Result Done × World) (f : String → ℤ)
    → Inserted w es m
    → m.0 ≡ ok tt
    → ((a : String) → sum_credits a es ≡ f a)
    → ((currency : String) → net currency es ≡ pos 0)
    → Moves w m.1 f
Inserted-Moves w es m f h done sums nets = elim h [
  | inl (_, all) ↦ Appended-Moves w m.1 es f all sums nets
  | inr (x, k, failed, _, _) ↦ cc
]

module _ (env : Env) (w : World) where
  abbrev pub posting : String → String → String → Posting
  posting currency reference_type reference_id = record {
    currency = currency;
    reference_type = reference_type;
    reference_id = reference_id;
    posted_at = env.now w.calls;
  }

  abbrev pub later : ℕ → World
  later c = record w { calls = c }

  pub post_transfer-insert_entries :
      (reference_type reference_id debited credited : String) (amount : ℤ) (currency : String)
      → post_transfer env reference_type reference_id debited credited amount currency w
        ≡ insert_entries env
            (pair
              (posting currency reference_type reference_id)
              (env.uuid (suc w.calls))
              (env.uuid (suc (suc w.calls)))
              debited
              credited
              amount)
            (later (suc (suc (suc w.calls))))
  unfolding post_transfer clock
  post_transfer-insert_entries reference_type reference_id debited credited amount currency =
      post_balanced-zero env _ (later (suc (suc (suc w.calls))))
        (λ c. net-pair c (posting currency reference_type reference_id) _ _ debited credited amount)

  pub post_transfer-Moves :
      (reference_type reference_id debited credited : String) (amount : ℤ) (currency : String)
      → (post_transfer env reference_type reference_id debited credited amount currency w).0 ≡ ok tt
      → Moves w
          (post_transfer env reference_type reference_id debited credited amount currency w).1
          (gain debited credited amount)
  post_transfer-Moves reference_type reference_id debited credited amount currency done =
      let p = posting currency reference_type reference_id in
      let step =
        post_transfer-insert_entries reference_type reference_id debited credited amount currency in
      let es =
        pair p (env.uuid (suc w.calls)) (env.uuid (suc (suc w.calls))) debited credited amount in
      let w₀ = later (suc (suc (suc w.calls))) in
      subst (λ m. Moves w m.1 (gain debited credited amount)) (sym step)
        (Inserted-Moves w₀ es (insert_entries env es w₀) (gain debited credited amount)
          (insert_entries-Inserted env es w₀) (ap (λ m. m.0) (sym step) ∙ done)
          (λ a. sum-pair a p _ _ debited credited amount)
          (λ c. net-pair c p _ _ debited credited amount))
