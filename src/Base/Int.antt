-- ===== src/Base/Int.antt =====
-- Signed integers over the native numbers, under the library's names: room ids, sizes, times.
-- Sums and orders go through the two parts of an integer, which are numbers that `omega` reads.
use Prim.Native.Nat.{ℕ, zero, suc, ◌<◌, ◌+◌, ◌-◌, ◌*◌, ◌/◌, ◌≤◌}
use mathlib.Core.Path.{◌≡◌}
use mathlib.Core.Bool.{Bool, ◌&&◌}
use native.Mathlib.Omega.{arith}
use native.Mathlib.Nat.{div-zero, le-div_iff_mul-le, div-mul-le_self, mul-le-mul_right}
use live_streaming.Base.Tests.{ltb, leb, ◌==◌, if◌then◌else◌}

-- `negsuc n` is -(n + 1).
pub data ℤ : Type 0 where
  pos : ℕ → ℤ
  negsuc : ℕ → ℤ

abbrev pub pos_part : ℤ → ℕ
pos_part (pos n) = n
pos_part (negsuc n) = 0

abbrev pub neg_part : ℤ → ℕ
neg_part (pos n) = 0
neg_part (negsuc n) = suc n

-- a - b, as an integer.
abbrev pub sub_ℕ : ℕ → ℕ → ℤ
sub_ℕ a b = if leb b a then pos (a - b) else negsuc (b - a - 1)

infixl 65 ◌+ℤ◌ ◌-ℤ◌
infix 50 ◌≤ℤ◌ ◌==ℤ◌
unfoldable pub ◌+ℤ◌ : ℤ → ℤ → ℤ
a +ℤ b = sub_ℕ (pos_part a + pos_part b) (neg_part a + neg_part b)

unfoldable pub ◌-ℤ◌ : ℤ → ℤ → ℤ
a -ℤ b = sub_ℕ (pos_part a + neg_part b) (neg_part a + pos_part b)

-- C++'s product with a number and quotient by one, which is cut off towards 0.
unfoldable pub scale_ℤ : ℤ → ℕ → ℕ → ℤ
scale_ℤ a n d = sub_ℕ (pos_part a * n / d) (neg_part a * n / d)

abbrev pub ◌≤ℤ◌ : ℤ → ℤ → Type 0
a ≤ℤ b = pos_part a + neg_part b ≤ pos_part b + neg_part a

abbrev pub ltb_ℤ : ℤ → ℤ → Bool
ltb_ℤ a b = ltb (pos_part a + neg_part b) (pos_part b + neg_part a)

abbrev pub leb_ℤ : ℤ → ℤ → Bool
leb_ℤ a b = leb (pos_part a + neg_part b) (pos_part b + neg_part a)

abbrev pub ◌==ℤ◌ : ℤ → ℤ → Bool
a ==ℤ b = pos_part a == pos_part b && neg_part a == neg_part b

-- One lemma for each operation lets `omega` work with the operations shut, at any depth.
pub +ℤ_parts :
    (a b : ℤ)
    → pos_part (a +ℤ b) + neg_part a + neg_part b ≡ neg_part (a +ℤ b) + pos_part a + pos_part b
unfolding ◌+ℤ◌
+ℤ_parts a b = ground arith

pub -ℤ_parts :
    (a b : ℤ)
    → pos_part (a -ℤ b) + neg_part a + pos_part b ≡ neg_part (a -ℤ b) + pos_part a + neg_part b
unfolding ◌-ℤ◌
-ℤ_parts a b = ground arith

pub eq_of_parts : (a b : ℤ) → pos_part a + neg_part b ≡ pos_part b + neg_part a → a ≡ b
eq_of_parts a b h = ground arith

pub ruleset int_laws = (arith, +ℤ_parts, -ℤ_parts, eq_of_parts)

/-le : (a b n d : ℕ) → a ≤ b → a * n / d ≤ b * n / d
/-le a b n zero l = rw (div-zero (a * n), div-zero (b * n)) (omega arith)
/-le a b n (suc d) l =
    let q = a * n / suc d in
    let positive : zero < suc d = omega arith in
    let fits : q * suc d ≤ b * n =
      omega (arith, div-mul-le_self (a * n) (suc d), mul-le-mul_right n l) in
    (le-div_iff_mul-le positive).1 fits

parts-le : (a b : ℤ) → a ≤ℤ b → (pos_part a ≤ pos_part b) × (neg_part b ≤ neg_part a)
parts-le (pos a) (pos b) l = (omega (arith, l), omega arith)
parts-le (pos a) (negsuc b) l = absurd (omega (arith, l))
parts-le (negsuc a) (pos b) l = (omega arith, omega arith)
parts-le (negsuc a) (negsuc b) l = (omega arith, omega (arith, l))

pub scale_ℤ-le : (a b : ℤ) (n d : ℕ) → a ≤ℤ b → scale_ℤ a n d ≤ℤ scale_ℤ b n d
unfolding scale_ℤ
scale_ℤ-le a b n d l =
    let (up, down) = parts-le a b l in
    let p = /-le (pos_part a) (pos_part b) n d up in
    let q = /-le (neg_part b) (neg_part a) n d down in ground arith
