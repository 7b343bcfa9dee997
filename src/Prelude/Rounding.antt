-- ===== src/Prelude/Rounding.antt =====
-- Multiplication of an integer by a number, floor division, and `Math.round` of a quotient:
-- `Math.round(x / d)` is the floor of x / d + 1/2, also for negative x.
use Prim.Native.Nat.{ℕ, ◌+◌, ◌*◌, ◌/◌, ◌≤◌, ◌<◌}
use mathlib.Core.Path.{◌≡◌}
use native.Mathlib.Omega.{arith}
use logestic.Prelude.Int.{ℤ, pos, negsuc, pos_part, neg_part, sub_ℕ, ◌+ℤ◌, ◌≤ℤ◌, ◌<ℤ◌, int_laws}

unfoldable pub scale : ℕ → ℤ → ℤ
scale k a = sub_ℕ (k * pos_part a) (k * neg_part a)

unfoldable pub floor_div : ℤ → ℕ → ℤ
floor_div (pos n) d = pos (n / d)
floor_div (negsuc n) d = negsuc (n / d)

-- `Math.round(x / d)`
unfoldable pub round_div : ℤ → ℕ → ℤ
unfolding floor_div
round_div x d = floor_div (x +ℤ x +ℤ pos d) (d + d)

pub scale_parts :
    (k : ℕ) (a : ℤ) → pos_part (scale k a) + k * neg_part a ≡ neg_part (scale k a) + k * pos_part a
unfolding scale
scale_parts k a = ground arith

-- Floor division leaves a remainder from 0 to d - 1.
floor_div_lower : (x : ℤ) (d : ℕ) → 0 < d → scale d (floor_div x d) ≤ℤ x
unfolding floor_div scale
floor_div_lower (pos n) d h = ground arith
floor_div_lower (negsuc n) d h = ground arith

floor_div_upper : (x : ℤ) (d : ℕ) → 0 < d → x <ℤ scale d (floor_div x d) +ℤ pos d
unfolding floor_div scale ◌+ℤ◌
floor_div_upper (pos n) d h = ground arith
floor_div_upper (negsuc n) d h = ground arith

-- Rounding moves a value by at most a half: |2 d q - 2 x| ≤ d.
pub round_div_lower : (x : ℤ) (d : ℕ) → 0 < d → scale (d + d) (round_div x d) ≤ℤ x +ℤ x +ℤ pos d
unfolding round_div
round_div_lower x d h = floor_div_lower (x +ℤ x +ℤ pos d) (d + d) (omega arith)

pub round_div_upper : (x : ℤ) (d : ℕ) → 0 < d → x +ℤ x <ℤ scale (d + d) (round_div x d) +ℤ pos d
unfolding round_div
round_div_upper x d h = omega (int_laws, floor_div_upper (x +ℤ x +ℤ pos d) (d + d) (omega arith))

pub round_div_pos : (n d : ℕ) → round_div (pos n) d ≡ pos ((n + n + d) / (d + d))
unfolding round_div floor_div ◌+ℤ◌
round_div_pos n d = rw (doubled n d)
  where
    doubled : (a b : ℕ) → pos a +ℤ pos a +ℤ pos b ≡ pos (a + a + b)
    doubled a b = omega int_laws

div-le : (n m d : ℕ) → 0 < d → n ≤ d * m → (n + n + d) / (d + d) ≤ m
div-le n m d h b = grind arith

-- A value of at most a whole m rounds to at most m.
pub round_div-le : (n m d : ℕ) → 0 < d → n ≤ d * m → round_div (pos n) d ≤ℤ pos m
round_div-le n m d h b = rw round_div_pos (omega (arith, div-le n m d h b))

pub round_div-nonneg : (n d : ℕ) → pos 0 ≤ℤ round_div (pos n) d
round_div-nonneg n d = rw round_div_pos (omega arith)
