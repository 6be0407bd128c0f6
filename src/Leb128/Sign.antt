-- ===== src/Leb128/Sign.antt =====
-- The last group of a signed number as arithmetic: its sign, the shift that checks it, the ones that
-- fill the word above it (lib/fizzy/leb128.hpp).
use fizzy.Common.{
  ℕ, zero, suc, ◌+◌, ◌-◌, ◌*◌, ◌%◌, ◌^◌, ◌≤◌, ◌<◌, ◌≡◌, refl, ap, ◌∙◌, arith, inl, inr,
}
use fizzy.Common.{Option, none, some, Bool, true, false, ltb, leb, ◌==◌, if◌then◌else◌}
use fizzy.Common.{Bool-cases, bit_and, bit_or, ltb→lt, ltb→le, lt→ltb, le→ltb, ◌&&◌}
use fizzy.Common.{holds_below, holds_below-at}
use fizzy.Common.Bits.{low_seven, bit_or_shifted, two-pow-add, two-pow-pos, shift_left_mod}
use fizzy.Leb128.{shift_right_signed}
use fizzy.Leb128.Group.{top_group}
use native.Mathlib.Nat.{
  pow-le-pow_right, mul-le-mul_right, mod-lt, mod-eq_of_lt, add-mul-mod_self_right,
}

-- The value of a last byte, when there are `n` bits left, if it is one.
abbrev pub last_value : ℕ → ℕ → Option ℕ
last_value n b =
    if ltb b 64
    then (if ltb b (2 ^ (n - 1)) then some b else none)
    else (if leb 128 (b + 2 ^ (n - 1)) then some (b + 2 ^ n - 128) else none)

-- The seven low bits of the sign-extended last group `k` of `n` bits.
abbrev pub extended : ℕ → ℕ → ℕ
extended n k = if ltb k (2 ^ (n - 1)) then k else k + 128 - 2 ^ n

abbrev agree : Option ℕ → ℕ → Bool → Bool
agree none k test = if test then false else true
agree (some v) k test = test && (v == k)

abbrev last_agrees : ℕ → ℕ → Bool
last_agrees n b = agree (last_value n b) (b % 2 ^ n) (b == extended n (b % 2 ^ n))

agree_split :
    (o : Option ℕ) (k : ℕ) (test : Bool)
    → agree o k test ≡ true
    → (if test then some k else none) ≡ o
agree_split none k test e = ground arith
agree_split (some v) k test e = ground arith

last_table : holds_below (λ n. holds_below (last_agrees (suc n)) 128) 7 ≡ true
unfolding holds_below
last_table = refl

pub last_value-extended :
    (n b : ℕ)
    → 0 < n
    → n ≤ 7
    → b < 128
    → (if b == extended n (b % 2 ^ n) then some (b % 2 ^ n) else none) ≡ last_value n b
last_value-extended zero b h hn hb = absurd (omega arith)
last_value-extended (suc n) b h hn hb =
    let row : holds_below (last_agrees (suc n)) 128 ≡ true =
      holds_below-at (λ n. holds_below (last_agrees (suc n)) 128) 7 n (omega arith) last_table in
    let e : last_agrees (suc n) b ≡ true = holds_below-at (last_agrees (suc n)) 128 b hb row in
    agree_split (last_value (suc n) b) (b % 2 ^ suc n) (b == extended (suc n) (b % 2 ^ suc n)) e

-- Above `acc`, the sign bit of the word is the sign bit of the last group.
sign_of_group :
    (s n acc k : ℕ)
    → 0 < n
    → acc < 2 ^ s
    → ltb (acc + k * 2 ^ s) (2 ^ (s + n - 1)) ≡ ltb k (2 ^ (n - 1))
sign_of_group s n acc k hn h =
    let e : s + n - 1 ≡ s + (n - 1) = omega arith in
    rw (e, two-pow-add s (n - 1))
      (elim (Bool-cases (ltb k (2 ^ (n - 1)))) [
        | inl low ↦ rw low (
            lt→ltb _ _ (
              omega
                (arith, mul-le-mul_right {m = suc k} {n = 2 ^ (n - 1)} (2 ^ s) (ltb→lt _ _ low))))
        | inr high ↦ rw high (
            le→ltb _ _
              (omega (arith, mul-le-mul_right {m = 2 ^ (n - 1)} {n = k} (2 ^ s) (ltb→le _ _ high))))
      ])

-- The arithmetic shift brings the last group down, extended by its sign.
pub shifted_group :
    (s n acc k : ℕ)
    → 0 < n
    → n ≤ 7
    → 7 ≤ s + n
    → acc < 2 ^ s
    → k < 2 ^ n
    → bit_and (shift_right_signed (s + n) (acc + k * 2 ^ s) s % 2 ^ 8) 0x7f ≡ extended n k
unfolding shift_right_signed
shifted_group s n acc k hn hn7 hw h hk =
    let word : s + n ≡ 7 + (s + n - 7) = omega arith in
    let width : 2 ^ (s + n) ≡ 128 * 2 ^ (s + n - 7) =
      ap (λ (t : ℕ). 2 ^ t) word ∙ two-pow-add 7 (s + n - 7) in
    let last : s + n - s ≡ n = omega arith in
    let narrow : 2 ^ n ≤ 128 = pow-le-pow_right {n = 2} (omega arith) {i = n} {j = 7} hn7 in
    let wide : 2 ^ n ≤ 2 ^ (s + n) =
      pow-le-pow_right {n = 2} (omega arith) {i = n} {j = s + n} (omega arith) in
    rw
      (
        sign_of_group s n acc k hn h,
        top_group s acc k h,
        last,
        low_seven _ (
            mod-lt (if ltb k (2 ^ (n - 1)) then k else k + (2 ^ (s + n) - 2 ^ n)) {m = 256}
              (omega arith)),
      )
      (elim (Bool-cases (ltb k (2 ^ (n - 1)))) [
        | inl low ↦ rw low (omega arith)
        | inr high ↦ rw high (omega arith)
      ])

one_le_mul : (p q : ℕ) → 0 < p → 0 < q → 1 ≤ q * p
one_le_mul p q hp hq = grind arith

all_ones_mod : (p q : ℕ) {r : ℕ} → 0 < p → 0 < q → r ≡ q * p → (r - 1) % p ≡ p - 1
all_ones_mod p q hp hq e =
    let split : q * p - 1 ≡ p - 1 + (q - 1) * p = omega (
      arith,
      ap (λ (t : ℕ). t * p) (let e : q ≡ q - 1 + 1 = omega arith in e),
      one_le_mul p q hp hq,
    ) in
    rw (e, split) (add-mul-mod_self_right (p - 1) (q - 1) p ∙ mod-eq_of_lt (omega arith))

-- With more bits to come, a negative last group fills them with ones.
pub sign_fill :
    (s n acc b : ℕ)
    → 7 < n
    → acc < 2 ^ s
    → 64 ≤ b
    → b < 128
    → bit_or (acc + b * 2 ^ s) ((2 ^ (s + n) - 1) * 2 ^ (s + 7) % 2 ^ (s + n))
      ≡ acc + (b + 2 ^ n - 128) * 2 ^ s
sign_fill s n acc b hn h lo hb =
    let word : s + n ≡ s + 7 + (n - 7) = omega arith in
    let wordP : 2 ^ (s + n) ≡ 2 ^ (s + 7) * 2 ^ (n - 7) =
      ap (λ (t : ℕ). 2 ^ t) word ∙ two-pow-add (s + 7) (n - 7) in
    let seven : 2 ^ (s + 7) ≡ 2 ^ s * 128 = two-pow-add s 7 in
    let ones : (2 ^ (s + n) - 1) % 2 ^ (n - 7) ≡ 2 ^ (n - 7) - 1 =
      all_ones_mod (2 ^ (n - 7)) (2 ^ (s + 7)) (two-pow-pos (n - 7)) (two-pow-pos (s + 7)) wordP in
    let mask : (2 ^ (s + n) - 1) * 2 ^ (s + 7) % 2 ^ (s + n) ≡ (2 ^ (n - 7) - 1) * 2 ^ (s + 7) =
      (rw (← word) at (shift_left_mod (2 ^ (s + n) - 1) (s + 7) (n - 7)))
      ∙ ap (λ (t : ℕ). t * 2 ^ (s + 7)) ones in
    let fits : acc + b * 2 ^ s < 2 ^ (s + 7) =
      omega (arith, seven, mul-le-mul_right {m = b} {n = 127} (2 ^ s) (omega arith)) in
    rw mask (bit_or_shifted (s + 7) (acc + b * 2 ^ s) (2 ^ (n - 7) - 1) fits ∙ filled)
  where
    filled : acc + b * 2 ^ s + (2 ^ (n - 7) - 1) * 2 ^ (s + 7) ≡ acc + (b + 2 ^ n - 128) * 2 ^ s
    filled =
        let split : n ≡ 7 + (n - 7) = omega arith in
        let top : 2 ^ n ≡ 128 * 2 ^ (n - 7) = ap (λ (t : ℕ). 2 ^ t) split ∙ two-pow-add 7 (n - 7) in
        let value : b + 2 ^ n - 128 ≡ b + 128 * (2 ^ (n - 7) - 1) =
          omega (arith, top, two-pow-pos (n - 7)) in
        rw (two-pow-add s 7, value) (omega arith)
