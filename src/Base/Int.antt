-- ===== src/Base/Int.antt =====
-- Signed integers over the native numbers. Go's `int`, `int64` and `time.Duration`, and amounts of
-- money as whole numbers of a small unit, are such integers.
use Prim.Native.Nat.{◌%◌, ◌^◌, ◌/◌, ◌<◌, ℕ, suc, ◌+◌, ◌-◌, ◌*◌, ◌≤◌}
use mathlib.Core.Path.{◌≡◌}
use mathlib.Core.Logic.{◌↔◌}
use mathlib.Core.Bool.{Bool, true}
use native.Mathlib.Nat.{le-div_iff_mul-le, mul-le-mul_left}
use native.Mathlib.Omega.{arith}
use wcs_transfer.Base.Tests.{ltb, leb, ◌==◌, if◌then◌else◌}

-- `negsuc n` is -(n + 1).
pub data ℤ : Type 0 where
  pos : ℕ → ℤ
  negsuc : ℕ → ℤ

abbrev pub pos_part : ℤ → ℕ
pos_part (pos n) = n
pos_part (negsuc n) = 0

abbrev pub neg_part : ℤ → ℕ
neg_part (pos n) = 0
neg_part (negsuc n) = suc n

-- a - b, as an integer.
abbrev pub sub_ℕ : ℕ → ℕ → ℤ
sub_ℕ a b = if leb b a then pos (a - b) else negsuc (b - a - 1)

infixl 65 ◌+ℤ◌ ◌-ℤ◌
infixl 70 ◌*ℤ◌
infix 50 ◌≤ℤ◌ ◌<ℤ◌
unfoldable pub ◌+ℤ◌ : ℤ → ℤ → ℤ
a +ℤ b = sub_ℕ (pos_part a + pos_part b) (neg_part a + neg_part b)

unfoldable pub ◌-ℤ◌ : ℤ → ℤ → ℤ
a -ℤ b = sub_ℕ (pos_part a + neg_part b) (neg_part a + pos_part b)

unfoldable pub ◌*ℤ◌ : ℤ → ℤ → ℤ
a *ℤ b =
    sub_ℕ (pos_part a * pos_part b + neg_part a * neg_part b)
      (pos_part a * neg_part b + neg_part a * pos_part b)

abbrev pub ◌≤ℤ◌ : ℤ → ℤ → Type 0
a ≤ℤ b = pos_part a + neg_part b ≤ pos_part b + neg_part a

abbrev pub ◌<ℤ◌ : ℤ → ℤ → Type 0
a <ℤ b = suc (pos_part a + neg_part b) ≤ pos_part b + neg_part a

abbrev pub ltb_ℤ : ℤ → ℤ → Bool
ltb_ℤ a b = ltb (pos_part a + neg_part b) (pos_part b + neg_part a)

abbrev pub leb_ℤ : ℤ → ℤ → Bool
leb_ℤ a b = leb (pos_part a + neg_part b) (pos_part b + neg_part a)

abbrev pub eqb_ℤ : ℤ → ℤ → Bool
eqb_ℤ a b = (pos_part a + neg_part b) == (pos_part b + neg_part a)

-- `a > 0`
abbrev pub is_positive : ℤ → Bool
is_positive a = ltb 0 (pos_part a)

-- The 64-bit integer that a sum wraps round to.
unfoldable pub wrap_int64 : ℤ → ℤ
wrap_int64 a =
    let r = (pos_part a % 2 ^ 64 + (2 ^ 64 - neg_part a % 2 ^ 64)) % 2 ^ 64 in
    if ltb r (2 ^ 63) then pos r else negsuc (2 ^ 64 - r - 1)

-- Division by a positive number, which rounds towards zero.
infixl 70 ◌/ℤ◌
unfoldable pub ◌/ℤ◌ : ℤ → ℕ → ℤ
pos n /ℤ d = pos (n / d)
negsuc n /ℤ d = sub_ℕ 0 (suc n / d)

-- With these the operations stay shut.
pub +ℤ_parts :
    (a b : ℤ)
    → pos_part (a +ℤ b) + neg_part a + neg_part b ≡ neg_part (a +ℤ b) + pos_part a + pos_part b
unfolding ◌+ℤ◌
+ℤ_parts a b = ground arith

pub -ℤ_parts :
    (a b : ℤ)
    → pos_part (a -ℤ b) + neg_part a + pos_part b ≡ neg_part (a -ℤ b) + pos_part a + neg_part b
unfolding ◌-ℤ◌
-ℤ_parts a b = ground arith

pub eq_of_parts : (a b : ℤ) → pos_part a + neg_part b ≡ pos_part b + neg_part a → a ≡ b
eq_of_parts a b h = ground arith

pub eqb_ℤ_iff : (a b : ℤ) → (eqb_ℤ a b ≡ true) ↔ (a ≡ b)
eqb_ℤ_iff a b = ground arith

-- A product is not negative where both factors are not.
pub *ℤ_nonneg : (a b : ℤ) → pos 0 ≤ℤ a → pos 0 ≤ℤ b → pos 0 ≤ℤ a *ℤ b
unfolding ◌*ℤ◌
*ℤ_nonneg (pos a) (pos b) h k = ground arith
*ℤ_nonneg (pos a) (negsuc b) h k = absurd (omega arith)
*ℤ_nonneg (negsuc a) b h k = absurd (omega arith)

-- Factors that are not negative can be made larger.
pub *ℤ_mono : (a b c d : ℤ) → pos 0 ≤ℤ a → pos 0 ≤ℤ c → a ≤ℤ b → c ≤ℤ d → a *ℤ c ≤ℤ b *ℤ d
unfolding ◌*ℤ◌
*ℤ_mono (pos a) (pos b) (pos c) (pos d) h k p q = grind arith
*ℤ_mono (negsuc a) b c d h k p q = absurd (omega arith)
*ℤ_mono (pos a) (negsuc b) c d h k p q = absurd (omega arith)
*ℤ_mono (pos a) (pos b) (negsuc c) d h k p q = absurd (omega arith)
*ℤ_mono (pos a) (pos b) (pos c) (negsuc d) h k p q = absurd (omega arith)

*ℤ_pos : (a b : ℕ) → pos a *ℤ pos b ≡ pos (a * b)
unfolding ◌*ℤ◌
*ℤ_pos a b = ground arith

-- `a * m / d` is at least `a` where `m` is at least `d`.
pub scale_grows : (a m : ℤ) (d : ℕ) → 0 < d → pos 0 ≤ℤ a → pos d ≤ℤ m → a ≤ℤ a *ℤ m /ℤ d
unfolding ◌/ℤ◌
scale_grows (pos a) (pos m) d p h k =
    let room : a ≤ a * m / d = (le-div_iff_mul-le p).1 (mul-le-mul_left a (omega arith)) in
    rw (*ℤ_pos a m) (omega (arith, room))
scale_grows (pos a) (negsuc m) d p h k = absurd (omega arith)
scale_grows (negsuc a) m d p h k = absurd (omega arith)

pub ruleset int_laws = (arith, +ℤ_parts, -ℤ_parts, eq_of_parts)
