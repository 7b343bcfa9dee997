-- ===== src/Ledger/Policy/Bounds.antt =====
-- The operational split: nothing is lost, and how far rounding may move it.
use logestic.Prelude.{ℕ, ◌*◌, ◌≤◌, ◌≡◌, arith}
use logestic.Prelude.Int.{ℤ, pos, ◌+ℤ◌, ◌≤ℤ◌, int_laws}
use logestic.Prelude.Rounding.{scale, round_div, scale_parts, round_div-le, round_div-nonneg}
use logestic.Ledger.Policy.{FinancePolicy, split_operational_with_policy}

-- The shares of the owner and of the platform add up to the fare, for every fare and every policy.
pub split-add :
    (total : ℤ) (policy : FinancePolicy)
    → let r = split_operational_with_policy total policy in
      r.owner_amount +ℤ r.platform_amount ≡ total
unfolding split_operational_with_policy
split-add total policy = omega int_laws

-- A fee of at most the whole, on whole rials, is from nothing to the whole fare.
fee_bounds :
    (rials fee : ℕ)
    → fee ≤ 1000000
    → let q = round_div (pos (fee * (100 * rials))) 100000000 in (pos 0 ≤ℤ q) × (q ≤ℤ pos rials)
fee_bounds rials fee h = (
  round_div-nonneg (fee * (100 * rials)) 100000000,
  round_div-le (fee * (100 * rials)) rials 100000000 (omega arith) (grind arith),
)

scale_pos : (k n : ℕ) → scale k (pos n) ≡ pos (k * n)
scale_pos k n = omega (int_laws, scale_parts)

-- For a fare of whole rials and a fee of at most the whole, no share is negative.
pub split-nonneg :
    (rials : ℕ) (policy : FinancePolicy)
    → policy.platform_fee_value ≤ 1000000
    → let r = split_operational_with_policy (pos (100 * rials)) policy in
      (pos 0 ≤ℤ r.owner_amount) × (pos 0 ≤ℤ r.platform_amount)
unfolding split_operational_with_policy
split-nonneg rials policy h =
    rw scale_pos (omega (int_laws, scale_parts, fee_bounds rials policy.platform_fee_value h))
