-- ===== src/Base/Words.antt =====
-- 32-bit signed words (`i32`) as bit patterns below 2 ^ 32, with the order of the integers that
-- they stand for.
use Prim.Native.Nat.{ℕ, zero, suc, ◌+◌, ◌-◌, ◌%◌}
use mathlib.Core.Bool.{Bool, ◌&&◌}
use shredular.Base.Tests.{ltb}

abbrev pub i32_mod : ℕ
i32_mod = 0x1_0000_0000

-- The pattern of `i32::MIN`; the patterns from here on are negative.
abbrev pub i32_min : ℕ
i32_min = 0x8000_0000

-- `x > 0` on the integer that the pattern stands for.
abbrev pub i32_positive : ℕ → Bool
i32_positive x = ltb 0 x && ltb x i32_min

-- `fetch_add` and `fetch_sub` wrap.
abbrev pub i32_add : ℕ → ℕ → ℕ
i32_add x y = (x + y) % i32_mod

abbrev pub i32_sub : ℕ → ℕ → ℕ
i32_sub x y = (x + (i32_mod - y)) % i32_mod

abbrev pub i32_wrapping_neg : ℕ → ℕ
i32_wrapping_neg x = (i32_mod - x) % i32_mod

-- `x < y` on the integers.
abbrev pub i32_lt : ℕ → ℕ → Bool
i32_lt x y = ltb ((x + i32_min) % i32_mod) ((y + i32_min) % i32_mod)

-- -1
abbrev pub i32_minus_one : ℕ
i32_minus_one = 0xffff_ffff

-- An integer without a bound; `negsuc n` is -(n + 1).
pub data ℤ : Type 0 where
  pos : ℕ → ℤ
  negsuc : ℕ → ℤ

-- `-(n as isize)`.
abbrev pub neg_ℕ : ℕ → ℤ
neg_ℕ zero = pos 0
neg_ℕ (suc n) = negsuc n
