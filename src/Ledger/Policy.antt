-- ===== src/Ledger/Policy.antt =====
-- services/financePolicyService.ts: the platform's fee and the community's contribution. A fee or
-- a percentage is in millionths, as its column stores it; a rate is in hundredths of a rial for a
-- ton; `Math.round` gives whole rials, which are hundreds of hundredths.
pub mod Bounds
use logestic.Prelude.{ℕ, Option, none, some, ltb, if◌then◌else◌}
use logestic.Prelude.Int.{ℤ, pos, ◌-ℤ◌}
use logestic.Prelude.Rounding.{scale, round_div}

pub data CommunityContributionMode : Type 0 where
  fixed_rial_per_unit percentage_of_operational : CommunityContributionMode

pub record FinancePolicy : Type 0 where
  pub platform_fee_value : ℕ
  pub community_contribution_mode : CommunityContributionMode
  pub community_contribution_value : ℕ

-- `MineFinanceConfig`, and the percentage that the legacy rule gives where it is allowed.
pub record MineFinanceConfig : Type 0 where
  pub platform_fee_value : ℕ
  pub community_rial_per_ton : ℕ
  pub legacy_community_percent : Option ℕ

-- `resolveFinancePolicy` after the configuration has been loaded: a legacy percentage above 0
-- takes the place of the rate for a ton.
abbrev legacy_mode : Option ℕ → CommunityContributionMode
legacy_mode none = fixed_rial_per_unit
legacy_mode (some percent) =
    if ltb 0 percent then percentage_of_operational else fixed_rial_per_unit

abbrev legacy_value : Option ℕ → ℕ → ℕ
legacy_value none rate = rate
legacy_value (some percent) rate = if ltb 0 percent then percent else rate

unfoldable pub policy_of_config : MineFinanceConfig → FinancePolicy
policy_of_config c = record {
  platform_fee_value = c.platform_fee_value;
  community_contribution_mode = legacy_mode c.legacy_community_percent;
  community_contribution_value = legacy_value c.legacy_community_percent c.community_rial_per_ton;
}

pub record OperationalSplit : Type 0 where
  pub total_fare : ℤ
  pub owner_amount : ℤ
  pub platform_amount : ℤ

-- Fare in hundredths times millionths, over 10^8, is in whole rials.
unfoldable pub split_operational_with_policy : ℤ → FinancePolicy → OperationalSplit
split_operational_with_policy total_fare policy =
    let platform_amount =
      scale 100 (round_div (scale policy.platform_fee_value total_fare) 100000000) in
    record {
      total_fare = total_fare;
      owner_amount = total_fare -ℤ platform_amount;
      platform_amount = platform_amount;
    }

abbrev or_zero : Option ℤ → ℤ
or_zero none = pos 0
or_zero (some a) = a

-- Hundredths of a kilogram times hundredths for a ton, over 10^7, is in whole rials.
abbrev contribution_by : CommunityContributionMode → ℤ → ℕ → Option ℤ → ℤ
contribution_by percentage_of_operational net value payment =
    scale 100 (round_div (scale value (or_zero payment)) 100000000)
contribution_by fixed_rial_per_unit net value payment =
    scale 100 (round_div (scale value net) 10000000)

unfoldable pub compute_community_contribution_with_policy : ℤ → FinancePolicy → Option ℤ → ℤ
compute_community_contribution_with_policy net policy payment =
    contribution_by policy.community_contribution_mode net policy.community_contribution_value
      payment
