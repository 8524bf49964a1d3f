-- ===== src/Prelude/Int.antt =====
-- Signed integers over the native numbers, under the library's names, and Go's 64-bit `int`.
use Prim.Native.Nat.{ℕ, suc, ◌+◌, ◌-◌, ◌%◌, ◌^◌, ◌<◌}
use mathlib.Core.Path.{◌≡◌}
use mathlib.Core.Bool.{Bool, false}
use native.Mathlib.Omega.{arith}
use perseus.Prelude.Tests.{ltb, leb, ◌==◌, if◌then◌else◌}

-- `negsuc n` is -(n + 1).
pub data ℤ : Type 0 where
  pos : ℕ → ℤ
  negsuc : ℕ → ℤ

abbrev pub pos_part : ℤ → ℕ
pos_part (pos n) = n
pos_part (negsuc n) = 0

abbrev pub neg_part : ℤ → ℕ
neg_part (pos n) = 0
neg_part (negsuc n) = suc n

abbrev pub sub_ℕ : ℕ → ℕ → ℤ
sub_ℕ a b = if leb b a then pos (a - b) else negsuc (b - a - 1)

infixl 65 ◌+ℤ◌
unfoldable pub ◌+ℤ◌ : ℤ → ℤ → ℤ
a +ℤ b = sub_ℕ (pos_part a + pos_part b) (neg_part a + neg_part b)

abbrev pub ltb_ℤ : ℤ → ℤ → Bool
ltb_ℤ a b = ltb (pos_part a + neg_part b) (pos_part b + neg_part a)

abbrev pub eqb_ℤ : ℤ → ℤ → Bool
eqb_ℤ (pos a) (pos b) = a == b
eqb_ℤ (negsuc a) (negsuc b) = a == b
eqb_ℤ _ _ = false

-- z > 0, and the count that such a z stands for.
abbrev pub is_positive : ℤ → Bool
is_positive z = ltb 0 (pos_part z)

abbrev pub int64_mod : ℕ
int64_mod = 2 ^ 64

abbrev pub int64_half : ℕ
int64_half = 2 ^ 63

-- Two's complement: the int64 with the same residue.
unfoldable pub wrap_int64 : ℤ → ℤ
wrap_int64 (pos n) =
    let r = n % int64_mod in if ltb r int64_half then pos r else negsuc (int64_mod - 1 - r)
wrap_int64 (negsuc n) =
    let r = n % int64_mod in if ltb r int64_half then negsuc r else pos (int64_mod - 1 - r)

-- Go's `a + b` on `int`.
unfoldable pub add_int64 : ℤ → ℤ → ℤ
unfolding ◌+ℤ◌ wrap_int64
add_int64 a b = wrap_int64 (a +ℤ b)

-- Below the bound the sum is exact.
pub add_int64-pos : (a b : ℕ) → a + b < int64_half → add_int64 (pos a) (pos b) ≡ pos (a + b)
unfolding add_int64
add_int64-pos a b h = ground arith
