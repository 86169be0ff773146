-- ===== src/Base/Int.antt =====
-- Signed integers over the native numbers, for Rust's `isize`, and the cast back to `usize`.
use Prim.Native.Nat.{ℕ, suc, ◌+◌, ◌-◌, ◌%◌, ◌^◌, ◌≤◌, ◌<◌}
use mathlib.Core.Path.{◌≡◌}
use native.Mathlib.Omega.{arith}
use move_language_server.Base.Tests.{leb, if◌then◌else◌}

-- `negsuc n` is -(n + 1).
pub data ℤ : Type 0 where
  pos : ℕ → ℤ
  negsuc : ℕ → ℤ

abbrev pub pos_part : ℤ → ℕ
pos_part (pos n) = n
pos_part (negsuc n) = 0

abbrev pub neg_part : ℤ → ℕ
neg_part (pos n) = 0
neg_part (negsuc n) = suc n

-- a - b, as an integer.
abbrev pub sub_ℕ : ℕ → ℕ → ℤ
sub_ℕ a b = if leb b a then pos (a - b) else negsuc (b - a - 1)

infixl 65 ◌+ℤ◌
unfoldable pub ◌+ℤ◌ : ℤ → ℤ → ℤ
a +ℤ b = sub_ℕ (pos_part a + pos_part b) (neg_part a + neg_part b)

-- 2^64, the number of values of `usize`.
abbrev pub usize_mod : ℕ
usize_mod = 2 ^ 64

-- `x as usize` of an `isize`: two's complement.
unfoldable pub as_usize : ℤ → ℕ
as_usize (pos n) = n % usize_mod
as_usize (negsuc n) = usize_mod - 1 - n % usize_mod

-- `p as isize + (a - b)`, cast back, is plain arithmetic when the result is in range.
pub as_usize-add :
    (p a b : ℕ) → b ≤ p + a → p + a < b + usize_mod → as_usize (pos p +ℤ sub_ℕ a b) + b ≡ p + a
unfolding as_usize ◌+ℤ◌
as_usize-add p a b h k = ground arith
