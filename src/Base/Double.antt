-- ===== src/Base/Double.antt =====
-- Doubles from 0 up, as multiples of 2^-55, with the subtraction of the constant 0.1, which is
-- 3602879701896397 of them. 0 stands for every double that is not positive.
use Prim.Native.Nat.{ℕ, zero, suc, ◌+◌, ◌-◌, ◌*◌, ◌/◌, ◌%◌, ◌^◌}
use mathlib.Core.Path.{◌≡◌, refl}
use mathlib.Core.Bool.{◌&&◌, ◌||◌}
use pennos.Base.Tests.{ltb, ◌==◌, if◌then◌else◌}

abbrev pub double_of : ℕ → ℕ
double_of n = n * 2 ^ 55

abbrev tenth : ℕ
tenth = 3602879701896397

-- The least power of 2 from `p` on, in `rounds` doublings, of which 2^53 are more than `d`.
unfoldable pub unit_of : (rounds d p : ℕ) → ℕ
unit_of zero d p = p
unit_of (suc rounds) d p =
    let next = unit_of rounds d (p * 2) in if ltb d (2 ^ 53 * p) then p else next

-- The nearest multiple of `p`, the even one of two.
unfoldable pub nearest : (p d : ℕ) → ℕ
nearest p d =
    if ltb (d % p * 2) p || (d % p * 2 == p && d / p % 2 == 0) then d / p * p else (d / p + 1) * p

-- The difference, rounded to 53 bits; the doubles of unsigned ints have at most 87 bits here.
unfoldable pub minus_tenth : ℕ → ℕ
minus_tenth d = let rest = d - tenth in nearest (unit_of 35 rest 1) rest

pub minus_tenth-zero : minus_tenth 0 ≡ 0
unfolding minus_tenth unit_of nearest
minus_tenth-zero = refl
