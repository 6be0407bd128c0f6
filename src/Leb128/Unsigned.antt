-- ===== src/Leb128/Unsigned.antt =====
-- What the unsigned decoder of lib/fizzy/leb128.hpp reads: the grammar of the binary format.
use fizzy.Common.{ℕ, ◌+◌, ◌-◌, ◌*◌, ◌/◌, ◌%◌, ◌^◌, ◌≤◌, ◌<◌, ◌≡◌, ◌∙◌, arith, inl, inr}
use fizzy.Common.{List, [], ◌∷◌, none, ltb, ◌==◌}
use fizzy.Common.{All, Bool-cases, to_option, ltb→lt, ltb→le}
use fizzy.Common.Bits.{bit_seven, two-pow-add, two-pow-pos}
use fizzy.Leb128.{add_group, leb128u_loop, leb128u_decode}
use fizzy.Leb128.Spec.{prepend, read_unsigned}
use fizzy.Leb128.Group.{
  IsByte, place, add_group_lem, top_group, place-prepend, group_fits, place_zero,
}
use native.Mathlib.Nat.{pow-le-pow_right, mod-lt, mod-eq_of_lt}
use mathlib.Core.Option

-- The group `b % 2 ^ n` is the whole of `b` exactly when `b` fits `n` bits.
mod-eq_iff_lt : (b n : ℕ) → (b == b % 2 ^ n) ≡ ltb b (2 ^ n)
mod-eq_iff_lt b n = elim (Bool-cases (ltb b (2 ^ n))) [
  | inl fits ↦ ground (arith, mod-eq_of_lt (ltb→lt b (2 ^ n) fits))
  | inr wide ↦ ground (arith, mod-lt b (two-pow-pos n))
]

last_byte :
    (s n acc b : ℕ) (bs : List ℕ)
    → 0 < n
    → acc < 2 ^ s
    → b < 128
    → to_option (leb128u_loop (s + n) (b ∷ bs) acc s)
      ≡ Option.map (place acc s) (read_unsigned n (b ∷ bs))
unfolding leb128u_loop read_unsigned
last_byte s n acc b bs hn h hb =
    let low : b % 128 ≡ b = omega arith in
    let sum : add_group (s + n) acc b s ≡ acc + b % 2 ^ n * 2 ^ s =
      rw (add_group_lem s n acc b h (omega arith), low) in
    let top : add_group (s + n) acc b s / 2 ^ s ≡ b % 2 ^ n = rw sum (top_group s acc _ h) in
    ground (
      arith,
      sum,
      top,
      bit_seven b (omega arith),
      mod-eq_iff_lt b n,
      λ (p : b < 2 ^ n). mod-eq_of_lt p,
    )

inner_byte :
    (s n acc b : ℕ) (bs : List ℕ)
    → 7 < n
    → acc < 2 ^ s
    → 128 ≤ b
    → b < 256
    → leb128u_loop (s + n) (b ∷ bs) acc s
      ≡ leb128u_loop (s + n) bs (acc + (b - 128) * 2 ^ s) (s + 7)
unfolding leb128u_loop
inner_byte s n acc b bs hn h lo hi =
    let wide : 128 ≤ 2 ^ n = pow-le-pow_right {n = 2} (omega arith) {i = 7} {j = n} (omega arith) in
    let low : b % 128 % 2 ^ n ≡ b - 128 =
      mod-eq_of_lt {n = b % 128} {m = 2 ^ n} (omega arith) ∙ omega arith in
    let sum : add_group (s + n) acc b s ≡ acc + (b - 128) * 2 ^ s =
      rw (add_group_lem s n acc b h hi, low) in
    ground (arith, sum, bit_seven b hi)

loop_past_end :
    (w : ℕ) (bs : List ℕ) (acc s : ℕ) → w ≤ s → to_option (leb128u_loop w bs acc s) ≡ none
unfolding leb128u_loop
loop_past_end w [] acc s h = ground arith
loop_past_end w (b ∷ bs) acc s h = ground arith

inner_past_end :
    (w s acc b : ℕ) (bs : List ℕ)
    → w ≤ s + 7
    → 128 ≤ b
    → b < 256
    → to_option (leb128u_loop w (b ∷ bs) acc s) ≡ none
unfolding leb128u_loop
inner_past_end w s acc b bs h lo hi =
    ground (arith, bit_seven b hi, loop_past_end w bs (add_group w acc b s) (s + 7) h)

pub read_unsigned_inner :
    (n b : ℕ) (bs : List ℕ)
    → 7 < n
    → 128 ≤ b
    → read_unsigned n (b ∷ bs) ≡ Option.map (prepend b) (read_unsigned (n - 7) bs)
unfolding read_unsigned
read_unsigned_inner n b bs hn hb = ground arith

pub read_unsigned_past_end :
    (n b : ℕ) (bs : List ℕ) → n ≤ 7 → 128 ≤ b → read_unsigned n (b ∷ bs) ≡ none
unfolding read_unsigned
read_unsigned_past_end n b bs hn hb = ground arith

-- The loop over the bytes that are left, and the grammar over the bits that are left.
pub loop-read_unsigned :
    (bs : List ℕ) (s n acc : ℕ)
    → 0 < n
    → acc < 2 ^ s
    → All IsByte bs
    → to_option (leb128u_loop (s + n) bs acc s) ≡ Option.map (place acc s) (read_unsigned n bs)
loop-read_unsigned [] s n acc hn h hbs = unfold leb128u_loop read_unsigned in ground arith
loop-read_unsigned (b ∷ bs) s n acc hn h hbs = elim (Bool-cases (ltb b 128)) [
  | inl last ↦ last_byte s n acc b bs hn h (ltb→lt b 128 last)
  | inr inner ↦ elim (Bool-cases (ltb 7 n)) [
    | inl more ↦
        let lo : 128 ≤ b = ltb→le b 128 inner in
        let e : s + n ≡ s + 7 + (n - 7) = omega (arith, ltb→lt 7 n more) in
        let acc_fits : acc + (b - 128) * 2 ^ s < 2 ^ (s + 7) =
          omega (arith, two-pow-add s 7, group_fits s b (omega (arith, hbs.0))) in
        rw
          (
            inner_byte s n acc b bs (ltb→lt 7 n more) h lo hbs.0,
            read_unsigned_inner n b bs (ltb→lt 7 n more) lo,
            place-prepend,
            e,
          )
          (loop-read_unsigned bs (s + 7) (n - 7) (acc + (b - 128) * 2 ^ s)
            (omega (arith, ltb→lt 7 n more)) acc_fits hbs.1)
    | inr full ↦ rw (
      inner_past_end (s + n) s acc b bs (omega (arith, ltb→le 7 n full)) (ltb→le b 128 inner) hbs.0,
      read_unsigned_past_end n b bs (ltb→le 7 n full) (ltb→le b 128 inner),
    )
  ]
]

-- On every sequence of bytes the unsigned LEB128 decoder of a positive width gives the value and
-- the rest that the grammar of uN of the binary format gives, and fails where the grammar has no
-- derivation.
pub leb128u_decode-read_unsigned :
    (w : ℕ) (bs : List ℕ)
    → 0 < w
    → All IsByte bs
    → to_option (leb128u_decode w bs) ≡ read_unsigned w bs
unfolding leb128u_decode
leb128u_decode-read_unsigned w bs hw hbs =
    let e : 0 + w ≡ w = omega arith in
    (rw e at (loop-read_unsigned bs 0 w 0 hw (omega arith) hbs)) ∙ place_zero (read_unsigned w bs)
