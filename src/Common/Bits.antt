-- ===== src/Common/Bits.antt =====
-- Bit masks and shifts as arithmetic.
use Prim.Native.Nat.{ℕ, zero, suc, ◌+◌, ◌*◌, ◌/◌, ◌%◌, ◌^◌, ◌≤◌, ◌<◌, max}
use Prim.Native.Nat.{bit_and, bit_or, digits, bit_or-bitwise}
use mathlib.Core.Path.{◌≡◌, refl, ap, ◌∙◌}
use native.Mathlib.Omega.{arith}
use native.Mathlib.Nat.{
  pow-suc, add-zero, mod-lt, mod-eq_of_lt, div-add-mod, add-mul-mod_self_right,
}
use fizzy.Common.Tests.{◌==◌, ==_iff, holds_below, holds_below-at}

pub low_seven : (b : ℕ) → b < 256 → bit_and b 0x7f ≡ b % 128
unfolding holds_below
low_seven b h = (==_iff _ _).0 (holds_below-at (λ x. bit_and x 0x7f == x % 128) 256 b h refl)

pub bit_seven : (b : ℕ) → b < 256 → bit_and b 0x80 ≡ b / 128 * 128
unfolding holds_below
bit_seven b h = (==_iff _ _).0 (holds_below-at (λ x. bit_and x 0x80 == x / 128 * 128) 256 b h refl)

pub bit_six : (b : ℕ) → b < 256 → bit_and b 0x40 ≡ b / 64 % 2 * 64
unfolding holds_below
bit_six b h = (==_iff _ _).0 (holds_below-at (λ x. bit_and x 0x40 == x / 64 % 2 * 64) 256 b h refl)

pub or_top_bit : (b : ℕ) → b < 128 → bit_or b 0x80 ≡ b + 128
unfolding holds_below
or_top_bit b h = (==_iff _ _).0 (holds_below-at (λ x. bit_or x 0x80 == x + 128) 128 b h refl)

-- Two bounds on the number of binary digits of `a` give the same digit-wise disjunction.
digits_enough :
    (a b n m : ℕ)
    → a ≤ n
    → a ≤ m
    → digits (λ rest. rest) max n a b ≡ digits (λ rest. rest) max m a b
digits_enough zero b (suc n) (suc m) p q = refl
digits_enough (suc k) b (suc n) (suc m) p q = ground (arith, digits_enough (suc k / 2) (b / 2) n m)
digits_enough zero b zero zero p q = refl
digits_enough zero b zero (suc m) p q = refl
digits_enough zero b (suc n) zero p q = refl
digits_enough (suc k) b zero m p q = absurd (omega arith)
digits_enough (suc k) b (suc n) zero p q = absurd (omega arith)

pub zero-bit_or : (b : ℕ) → bit_or 0 b ≡ b
zero-bit_or b = bit_or-bitwise 0 b

-- The lowest digit and the others.
pub bit_or_step : (a b : ℕ) → bit_or a b ≡ bit_or (a / 2) (b / 2) * 2 + max (a % 2) (b % 2)
bit_or_step zero b = omega (arith, zero-bit_or b, zero-bit_or (b / 2))
bit_or_step (suc k) b =
    let half = suc k / 2 in
    let enough = digits_enough half (b / 2) half k (omega arith) (omega arith) in
    omega (arith, enough, bit_or-bitwise half (b / 2), bit_or-bitwise (suc k) b)

-- Numbers with no binary digit in common are joined by addition.
pub bit_or_shifted : (s a k : ℕ) → a < 2 ^ s → bit_or a (k * 2 ^ s) ≡ a + k * 2 ^ s
bit_or_shifted zero zero k h = omega (arith, zero-bit_or (k * 2 ^ 0))
bit_or_shifted zero (suc a) k h = absurd (omega arith)
bit_or_shifted (suc s) a k h =
    let p : 2 ^ suc s ≡ 2 ^ s * 2 = pow-suc 2 s in
    let q : k * 2 ^ suc s ≡ k * 2 ^ s * 2 = omega (arith, ap (λ (t : ℕ). k * t) p) in
    let half : k * 2 ^ suc s / 2 ≡ k * 2 ^ s = omega (arith, q) in
    let ih : bit_or (a / 2) (k * 2 ^ suc s / 2) ≡ a / 2 + k * 2 ^ s =
      rw half (bit_or_shifted s (a / 2) k (omega (arith, p, h))) in
    omega (arith, bit_or_step a (k * 2 ^ suc s), q, half, ih)

pub two-pow-add : (s n : ℕ) → 2 ^ (s + n) ≡ 2 ^ s * 2 ^ n
two-pow-add s zero = rw add-zero (omega arith)
two-pow-add s (suc n) =
    let e : s + suc n ≡ suc (s + n) = omega arith in
    rw e (
      omega (
        arith,
        pow-suc 2 (s + n),
        two-pow-add s n,
        pow-suc 2 n,
        ap (λ (t : ℕ). 2 ^ s * t) (pow-suc 2 n),
      ))

pub two-pow-pos : (n : ℕ) → 0 < 2 ^ n
two-pow-pos zero = omega arith
two-pow-pos (suc n) = omega (arith, pow-suc 2 n, two-pow-pos n)

-- A left shift that drops what passes the top: `b << s` in a word of `s + n` bits.
pub shift_left_mod : (b s n : ℕ) → b * 2 ^ s % 2 ^ (s + n) ≡ b % 2 ^ n * 2 ^ s
shift_left_mod b s n =
    let low : b % 2 ^ n < 2 ^ n = mod-lt b (two-pow-pos n) in
    let fits : b % 2 ^ n * 2 ^ s < 2 ^ s * 2 ^ n = grind (arith, two-pow-pos s) in
    let split : b * 2 ^ s ≡ b % 2 ^ n * 2 ^ s + b / 2 ^ n * (2 ^ s * 2 ^ n) =
      omega (arith, ap (λ (t : ℕ). t * 2 ^ s) (div-add-mod b (2 ^ n))) in
    rw (two-pow-add s n, split)
      (add-mul-mod_self_right (b % 2 ^ n * 2 ^ s) (b / 2 ^ n) (2 ^ s * 2 ^ n) ∙ mod-eq_of_lt fits)
