-- ===== src/Tests/Books.antt =====
-- The ledger at concrete inputs.
use zia.Base.{String, ◌≡◌, ◌≢◌, ◌↔◌, refl, List, [], ◌∷◌, arith}
use zia.Base.Int.{pos, ◌+ℤ◌, ◌-ℤ◌}
use zia.Base.Word.{i64}
use zia.Domain.Accounting.{LedgerEntry}
use zia.Effects.Failure.{external, ok, err}
use zia.Effects.World.{World}
use zia.Ledger.Accounts.{
  platform_fees, merchant_available, merchant_in_transit, psp_clearing_account,
}
use zia.Ledger.Rows.{sum_credits}
use zia.Ledger.Engine.{
  validate_balanced, post_collection, post_transfer, post_payout_init, post_payout_reversal,
}
use zia.Ledger.Balanced.{net, validate_balanced-exact}
use zia.Ledger.Collections.{charged, post_collection_balances}
use zia.Ledger.Payouts.{payout_reversal_restores}
use zia.Ledger.Atomicity.{post_collection-ok, post_transfer-ok, post_transfer_half}
use zia.Tests.Fixtures.{calm, rough, open_books}

-- A debit and a credit, the last of which breaks a constraint of the table.
abbrev two_entries : List LedgerEntry
two_entries =
    record {
      id = "1";
      account_id = "a";
      entry_type = "debit";
      amount = pos 7;
      currency = "KES";
      reference_type = "attempt";
      reference_id = "pi_1";
      posted_at = 0;
    }
    ∷ record {
      id = "2";
      account_id = "b";
      entry_type = "credit";
      amount = pos 0;
      currency = "KES";
      reference_type = "attempt";
      reference_id = "pi_1";
      posted_at = 0;
    }
    ∷ []

validate_balanced-exact_example :
    (validate_balanced two_entries ≡ ok tt)
    ↔ ((currency : String) → i64 (net currency two_entries) ≡ pos 0)
validate_balanced-exact_example = validate_balanced-exact two_entries

abbrev collected_books : World
collected_books = (post_collection calm "m_1" "pi_1" "mpesa" (pos 1000) "KES" (pos 50) open_books).1

post_collection_balances_example :
    let account = merchant_available "m_1" in
    (sum_credits account collected_books.entries
      ≡ sum_credits account open_books.entries +ℤ pos 1000 -ℤ charged (pos 50))
    × (sum_credits (psp_clearing_account "mpesa") collected_books.entries
        ≡ sum_credits (psp_clearing_account "mpesa") open_books.entries -ℤ pos 1000)
    × (sum_credits platform_fees collected_books.entries
        ≡ sum_credits platform_fees open_books.entries +ℤ charged (pos 50))
    × ((a : String)
        → a ≢ account
        → a ≢ psp_clearing_account "mpesa"
        → a ≢ platform_fees
        → sum_credits a collected_books.entries ≡ sum_credits a open_books.entries)
    × ((c : String) → net c collected_books.entries ≡ net c open_books.entries)
post_collection_balances_example =
    post_collection_balances calm open_books "m_1" "pi_1" "mpesa" (pos 1000) "KES" (pos 50) (
      post_collection-ok calm open_books "m_1" "pi_1" "mpesa" (pos 1000) "KES" (pos 50) (λ _. refl)
        (omega arith))

post_collection-ok_example :
    (post_collection calm "m_1" "pi_1" "mpesa" (pos 1000) "KES" (pos 50) open_books).0 ≡ ok tt
post_collection-ok_example =
    post_collection-ok calm open_books "m_1" "pi_1" "mpesa" (pos 1000) "KES" (pos 50) (λ _. refl)
      (omega arith)

post_transfer_half_example :
    let m = post_transfer rough "payout" "po_1" "a" "b" (pos 7) "KES" open_books in
    (m.0 ≡ err external) × (net "KES" m.1.entries ≡ net "KES" open_books.entries +ℤ pos 7)
post_transfer_half_example =
    post_transfer_half rough open_books "payout" "po_1" "a" "b" (pos 7) "KES" refl refl
      (omega arith)

abbrev begun_books : World
begun_books = (post_payout_init calm "m_1" "po_1" (pos 7) "KES" open_books).1

-- A payout's transfers go through.
goes_through :
    (w : World) (from to : String)
    → (post_transfer calm "payout" "po_1" from to (pos 7) "KES" w).0 ≡ ok tt
goes_through w from to =
    post_transfer-ok calm w "payout" "po_1" from to (pos 7) "KES" (λ _. refl) (omega arith)

payout_reversal_restores_example :
    sum_credits
      (merchant_available "m_1")
      (post_payout_reversal calm "m_1" "po_1" (pos 7) "KES" begun_books).1.entries
    ≡ sum_credits (merchant_available "m_1") open_books.entries
unfolding post_payout_init post_payout_reversal
payout_reversal_restores_example =
    payout_reversal_restores calm open_books "m_1" "po_1" (pos 7) "KES" (merchant_available "m_1")
      (goes_through open_books (merchant_available "m_1") (merchant_in_transit "m_1"))
      (goes_through begun_books (merchant_in_transit "m_1") (merchant_available "m_1"))
