-- ===== src/Weighbridge/Anomaly.antt =====
-- lib/weighbridgeAnomaly.ts: how far the weighed load is from the expected one. The ratio of the
-- deviation is kept as its numerator and denominator, and compared by cross multiplication with a
-- threshold in millionths.
use logestic.Prelude.{ℕ, ◌*◌, Bool, false, Option, none, some, leb, if◌then◌else◌}
use logestic.Prelude.Int.{ℤ, pos, pos_part, ◌-ℤ◌, leb_ℤ, abs}
use logestic.Prelude.Rounding.{scale}

pub record Deviation : Type 0 where
  pub expected_kg : ℤ
  pub actual_kg : ℤ
  -- |actual - expected|, over expected; absent where nothing is expected
  pub deviation : Option ℕ

-- Hundredths of a ton, a thousand times, are hundredths of a kilogram.
unfoldable pub compute_weighbridge_deviation : ℤ → ℤ → ℤ → Deviation
compute_weighbridge_deviation empty_weight loaded_weight quantity_tons =
    let expected = scale 1000 quantity_tons in
    let actual = loaded_weight -ℤ empty_weight in
    record {
      expected_kg = expected;
      actual_kg = actual;
      deviation =
          if leb_ℤ expected (pos 0) then none else some (pos_part (abs (actual -ℤ expected)));
    }

abbrev reaches : ℕ → ℤ → Option ℕ → Bool
reaches threshold expected none = false
reaches threshold expected (some d) = leb (threshold * pos_part expected) (1000000 * d)

-- The test of `isWeighbridgeAnomaly`, its threshold given.
unfoldable pub is_weighbridge_anomaly : ℕ → ℤ → ℤ → ℤ → Bool
unfolding compute_weighbridge_deviation
is_weighbridge_anomaly threshold empty_weight loaded_weight quantity_tons =
    let d = compute_weighbridge_deviation empty_weight loaded_weight quantity_tons in
    reaches threshold d.expected_kg d.deviation
