-- ===== src/Common/Int.antt =====
-- Signed integers over the native numbers: the numbers of the examples that run the models.
use Prim.Native.Nat.{ℕ, zero, suc, ◌+◌, ◌-◌, ◌*◌, ◌/◌}
use mathlib.Core.Bool.{Bool}
use crypto_ai_system.Common.Tests.{ltb, leb, if◌then◌else◌}

-- `negsuc n` is -(n + 1).
pub data ℤ : Type 0 where
  pos : ℕ → ℤ
  negsuc : ℕ → ℤ

abbrev pub pos_part : ℤ → ℕ
pos_part (pos n) = n
pos_part (negsuc n) = 0

abbrev pub neg_part : ℤ → ℕ
neg_part (pos n) = 0
neg_part (negsuc n) = suc n

-- a - b, as an integer.
abbrev pub sub_ℕ : ℕ → ℕ → ℤ
sub_ℕ a b = if leb b a then pos (a - b) else negsuc (b - a - 1)

infixl 65 ◌+ℤ◌ ◌-ℤ◌
infixl 70 ◌*ℤ◌
abbrev pub ◌+ℤ◌ : ℤ → ℤ → ℤ
a +ℤ b = sub_ℕ (pos_part a + pos_part b) (neg_part a + neg_part b)

abbrev pub ◌-ℤ◌ : ℤ → ℤ → ℤ
a -ℤ b = sub_ℕ (pos_part a + neg_part b) (neg_part a + pos_part b)

abbrev pub ◌*ℤ◌ : ℤ → ℤ → ℤ
a *ℤ b =
    sub_ℕ (pos_part a * pos_part b + neg_part a * neg_part b)
      (pos_part a * neg_part b + neg_part a * pos_part b)

abbrev pub abs : ℤ → ℤ
abs a = pos (pos_part a + neg_part a)

-- Quotient of the magnitudes, with the sign of the product.
abbrev pub div : ℤ → ℤ → ℤ
div a b =
    let q = (pos_part a + neg_part a) / (pos_part b + neg_part b) in
    sub_ℕ 0 0
    +ℤ (if ltb 0 (neg_part a)
        then (if ltb 0 (neg_part b) then pos q else sub_ℕ 0 q)
        else (if ltb 0 (neg_part b) then sub_ℕ 0 q else pos q))

abbrev pub ltb_ℤ : ℤ → ℤ → Bool
ltb_ℤ a b = ltb (pos_part a + neg_part b) (pos_part b + neg_part a)

abbrev pub leb_ℤ : ℤ → ℤ → Bool
leb_ℤ a b = leb (pos_part a + neg_part b) (pos_part b + neg_part a)

-- The largest number up to `bound` whose square is at most `n`.
root_below : ℕ → ℕ → ℕ
root_below n zero = 0
root_below n (suc bound) =
    let smaller = root_below n bound in if leb (suc bound * suc bound) n then suc bound else smaller

unfoldable pub sqrt : ℤ → ℤ
unfolding root_below
sqrt (pos n) = pos (root_below n n)
sqrt (negsuc n) = pos 0
