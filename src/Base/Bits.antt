-- ===== src/Base/Bits.antt =====
-- Bit operations on bytes, by evaluation over all of their values.
use Prim.Native.Nat.{ℕ, zero, suc, ◌+◌, ◌*◌, ◌%◌, ◌<◌, bit_and, bit_or}
use mathlib.Core.Path.{◌≡◌, refl}
use mathlib.Core.Bool.{Bool, true, ◌&&◌}
use native.Mathlib.Omega.{arith}
use live_streaming.Base.Tests.{◌==◌, ==_iff}

-- The test holds of the first n numbers.
every : (ℕ → Bool) → ℕ → Bool
every test (suc n) = every test n && test n
every test zero = true

every-at : (test : ℕ → Bool) (n i : ℕ) → i < n → every test n ≡ true → test i ≡ true
unfolding every
every-at test (suc n) i l e = ground (arith, every-at test n i)
every-at test zero i l e = absurd (omega (arith, l))

low_six_table : every (λ x. bit_and x 0x3F == x % 64) 256 ≡ true
unfolding every
low_six_table = refl

pub bit_and-low_six : (x : ℕ) → x < 256 → bit_and x 0x3F ≡ x % 64
bit_and-low_six x h = (==_iff _ _).0 (every-at _ 256 x h low_six_table)

high_two_table : every (λ f. bit_and (f * 64 % 256) 0xC0 == f * 64) 4 ≡ true
unfolding every
high_two_table = refl

pub bit_and-high_two : (f : ℕ) → f < 4 → bit_and (f * 64 % 256) 0xC0 ≡ f * 64
bit_and-high_two f h = (==_iff _ _).0 (every-at _ 4 f h high_two_table)

or_table : every (λ f. every (λ c. bit_or (f * 64 % 256) (c % 256) == f * 64 + c) 64) 4 ≡ true
unfolding every
or_table = refl

pub bit_or-fields : (f c : ℕ) → f < 4 → c < 64 → bit_or (f * 64 % 256) (c % 256) ≡ f * 64 + c
bit_or-fields f c h k = (==_iff _ _).0 (every-at _ 64 c k (every-at _ 4 f h or_table))

or_one_table : every (λ f. bit_or (f * 64) 1 == f * 64 + 1) 4 ≡ true
unfolding every
or_one_table = refl

pub bit_or-one : (f : ℕ) → f < 4 → bit_or (f * 64) 1 ≡ f * 64 + 1
bit_or-one f h = (==_iff _ _).0 (every-at _ 4 f h or_one_table)
