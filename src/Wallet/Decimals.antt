-- ===== src/Wallet/Decimals.antt =====
-- What the columns of the wallet tables keep of an amount (backend/migrations/0009 and 0017).
use wcs_transfer.Base.{
  ℕ, ◌+◌, ◌≤◌, ◌≡◌, refl, ap, arith, ◌+ℤ◌, +ℤ_parts, eq_of_parts, pos, negsuc, pos_part, neg_part,
  ◌≤ℤ◌, ◌<ℤ◌, is_positive, true, false, -ℤ_parts,
}
use wcs_transfer.Entity.{Money}
use wcs_transfer.Wallet.{rounded, to_eight, to_four}

-- Amounts that differ by at most `k` ticks of 10^-16 dollars.
abbrev pub Within : ℕ → Money → Money → Type 0
Within k a b =
    (pos_part a + neg_part b ≤ pos_part b + neg_part a + k)
    × (pos_part b + neg_part a ≤ pos_part a + neg_part b + k)

-- Half of the eighth decimal, and half of the fourth.
abbrev pub half_eighth : ℕ
half_eighth = 50_000_000

abbrev pub half_fourth : ℕ
half_fourth = 500_000_000_000

-- An amount with at most eight decimals.
abbrev pub HasEight : Money → Type 0
HasEight m = to_eight m ≡ m

pub to_eight-Within : (m : Money) → Within half_eighth (to_eight m) m
unfolding to_eight
to_eight-Within (pos n) = (omega arith, omega arith)
to_eight-Within (negsuc n) =
    let minus = -ℤ_parts (pos 0) (pos (rounded 100_000_000 (n + 1))) in
    (omega (arith, minus), omega (arith, minus))

pub to_four-Within : (m : Money) → Within half_fourth (to_four m) m
unfolding to_four
to_four-Within (pos n) = (omega arith, omega arith)
to_four-Within (negsuc n) =
    let minus = -ℤ_parts (pos 0) (pos (rounded 1_000_000_000_000 (n + 1))) in
    (omega (arith, minus), omega (arith, minus))

pub to_eight-nonneg : (m : Money) → pos 0 ≤ℤ m → pos 0 ≤ℤ to_eight m
unfolding to_eight
to_eight-nonneg (pos n) h = omega arith
to_eight-nonneg (negsuc n) h = absurd (omega (arith, h))

pub to_four-recorded : (m : Money) → pos half_fourth ≤ℤ m → is_positive (to_four m) ≡ true
unfolding to_four
to_four-recorded (pos n) h = ground arith
to_four-recorded (negsuc n) h = absurd (omega (arith, h))

pub to_eight-zero : to_eight (pos 0) ≡ pos 0
unfolding to_eight
to_eight-zero = refl

-- A sum of amounts with eight decimals that are not negative has eight decimals.
pub HasEight-add :
    (a b : Money) → pos 0 ≤ℤ a → pos 0 ≤ℤ b → HasEight a → HasEight b → HasEight (a +ℤ b)
unfolding to_eight
HasEight-add (pos x) (pos y) _ _ ha hb =
    let sum : pos x +ℤ pos y ≡ pos (x + y) =
      eq_of_parts _ _ (omega (arith, +ℤ_parts (pos x) (pos y))) in
    rw sum (ap pos (omega (arith, ap pos_part ha, ap pos_part hb)))
HasEight-add (negsuc x) b h _ _ _ = absurd (omega (arith, h))
HasEight-add (pos x) (negsuc y) _ h _ _ = absurd (omega (arith, h))

pub to_four-small : (m : Money) → m <ℤ pos half_fourth → is_positive (to_four m) ≡ false
unfolding to_four
to_four-small (pos n) h = ground arith
to_four-small (negsuc n) h =
    ground (arith, -ℤ_parts (pos 0) (pos (rounded 1_000_000_000_000 (n + 1))))

pub to_eight-HasEight : (m : Money) → HasEight (to_eight m)
unfolding to_eight
to_eight-HasEight (pos n) = ap pos (omega arith)
to_eight-HasEight (negsuc n) =
    let unit : ℕ = rounded 100_000_000 (n + 1) in ground (arith, -ℤ_parts (pos 0) (pos unit))

pub to_four-idempotent : (m : Money) → to_four (to_four m) ≡ to_four m
unfolding to_four
to_four-idempotent (pos n) = ap pos (omega arith)
to_four-idempotent (negsuc n) =
    let unit : ℕ = rounded 1_000_000_000_000 (n + 1) in ground (arith, -ℤ_parts (pos 0) (pos unit))
