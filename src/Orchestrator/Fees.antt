-- ===== src/Orchestrator/Fees.antt =====
-- internal/orchestrator/engine.go, `computeFee`: the bounds of the platform's fee.
use zia.Base.{ℕ, suc, zero, ◌*◌, ◌/◌, ◌≤◌, ◌≡◌, refl, ap, ◌∙◌, Bool, Bool-cases, inl, inr, arith}
use zia.Base.Int.{ℤ, pos, ◌*ℤ◌, ◌/ℤ◌, ◌≤ℤ◌, ltb_ℤ}
use zia.Base.Word.{InRange, i64, mul64, i64_exact}
use zia.Orchestrator.Outcome.{EngineConfig, compute_fee}

-- The fee is never below the configured minimum, whatever the product wraps to.
pub minimum-compute_fee :
    (cfg : EngineConfig) (amount : ℤ) → cfg.min_amount ≤ℤ compute_fee cfg amount
unfolding compute_fee
minimum-compute_fee cfg amount = ground arith

times : (a b : ℕ) → pos a *ℤ pos b ≡ pos (a * b)
unfolding ◌*ℤ◌
times a b = ground arith

share : (a p : ℕ) → p ≤ 100 → a * p ≤ a * 100
share zero p h = omega arith
share (suc a) p h = omega (arith, share a p h)

-- Of a percentage of at most 100 and a minimum that is not above the amount, the fee is at least the
-- minimum and at most the amount, if the amount times the percentage is an int64.
pub compute_fee-bound :
    (amount percent minimum : ℕ) (notifies : Bool)
    → percent ≤ 100
    → minimum ≤ amount
    → InRange (pos (amount * percent))
    → (fee : ℕ) × (compute_fee
          (record { percent = pos percent; min_amount = pos minimum; notifies = notifies })
          (pos amount)
        ≡ pos fee)
      × (minimum ≤ fee)
      × (fee ≤ amount)
unfolding compute_fee ◌/ℤ◌
compute_fee-bound amount percent minimum notifies hp hm hr =
    let exact : mul64 (pos amount) (pos percent) ≡ pos (amount * percent) =
      ap i64 (times amount percent) ∙ i64_exact (pos (amount * percent)) hr in
    let fee = amount * percent / 100 in
    let below : fee ≤ amount = omega (arith, share amount percent hp) in
    elim (Bool-cases (ltb_ℤ (pos fee) (pos minimum))) [
      | inl less ↦ (minimum, rw (exact, less) refl, omega arith, hm)
      | inr enough ↦ (fee, rw (exact, enough) refl, ground arith, below)
    ]
