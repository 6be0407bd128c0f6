-- ===== src/Leb128/Signed.antt =====
-- What the signed decoder of lib/fizzy/leb128.hpp reads: the grammar of the binary format.
use fizzy.Common.{ℕ, ◌+◌, ◌-◌, ◌*◌, ◌%◌, ◌^◌, ◌≤◌, ◌<◌, ◌≡◌, ap, ◌∙◌, arith, inl, inr}
use fizzy.Common.{List, [], ◌∷◌, none, ltb}
use fizzy.Common.{All, Bool-cases, to_option, bit_and, ltb→lt, ltb→le}
use fizzy.Common.Bits.{bit_seven, bit_six, two-pow-add, two-pow-pos}
use fizzy.Leb128.{add_group, shift_right_signed, leb128s_loop, leb128s_decode}
use fizzy.Leb128.Spec.{prepend, read_signed}
use fizzy.Leb128.Group.{IsByte, place, add_group_lem, place-prepend, group_fits, place_zero}
use native.Mathlib.Nat.{pow-le-pow_right, mod-lt, mod-eq_of_lt}
use mathlib.Core.Option
use fizzy.Leb128.Sign.{extended, last_value-extended, sign_fill, shifted_group}

last_byte :
    (s n acc b : ℕ) (bs : List ℕ)
    → 7 < n
    → acc < 2 ^ s
    → b < 128
    → to_option (leb128s_loop (s + n) (b ∷ bs) acc s)
      ≡ Option.map (place acc s) (read_signed n (b ∷ bs))
unfolding leb128s_loop read_signed
last_byte s n acc b bs hn h hb =
    let wide : 128 ≤ 2 ^ (n - 1) =
      pow-le-pow_right {n = 2} (omega arith) {i = 7} {j = n - 1} (omega arith) in
    let wide' : 128 ≤ 2 ^ n =
      pow-le-pow_right {n = 2} (omega arith) {i = 7} {j = n} (omega arith) in
    let low : b % 128 % 2 ^ n ≡ b =
      mod-eq_of_lt {n = b % 128} {m = 2 ^ n} (omega arith) ∙ omega arith in
    let sum : add_group (s + n) acc b s ≡ acc + b * 2 ^ s =
      rw (add_group_lem s n acc b h (omega arith), low) in
    ground (
      arith,
      sum,
      bit_seven b (omega arith),
      bit_six b (omega arith),
      λ (lo : 64 ≤ b). sign_fill s n acc b hn h lo hb,
    )

-- The last byte that a word has bits for: its bits past the word must repeat the sign.
terminal_byte :
    (s n acc b : ℕ) (bs : List ℕ)
    → 0 < n
    → n ≤ 7
    → 7 ≤ s + n
    → acc < 2 ^ s
    → b < 128
    → to_option (leb128s_loop (s + n) (b ∷ bs) acc s)
      ≡ Option.map (place acc s) (read_signed n (b ∷ bs))
unfolding leb128s_loop read_signed
terminal_byte s n acc b bs hn h7 hw h hb =
    let low : b % 128 ≡ b = omega arith in
    let sum : add_group (s + n) acc b s ≡ acc + b % 2 ^ n * 2 ^ s =
      add_group_lem s n acc b h (omega arith) ∙ ap (λ (t : ℕ). acc + t % 2 ^ n * 2 ^ s) low in
    let checked : bit_and (shift_right_signed (s + n) (add_group (s + n) acc b s) s % 2 ^ 8) 0x7f
        ≡ extended n (b % 2 ^ n) =
      rw sum (shifted_group s n acc (b % 2 ^ n) hn h7 hw h (mod-lt b (two-pow-pos n))) in
    ground (arith, sum, checked, bit_seven b (omega arith), last_value-extended n b hn h7 hb)

loop_past_end :
    (w : ℕ) (bs : List ℕ) (acc s : ℕ) → w ≤ s → to_option (leb128s_loop w bs acc s) ≡ none
unfolding leb128s_loop
loop_past_end w [] acc s h = ground arith
loop_past_end w (b ∷ bs) acc s h = ground arith

inner_past_end :
    (w s acc b : ℕ) (bs : List ℕ)
    → w ≤ s + 7
    → 128 ≤ b
    → b < 256
    → to_option (leb128s_loop w (b ∷ bs) acc s) ≡ none
unfolding leb128s_loop
inner_past_end w s acc b bs h lo hi =
    ground (arith, bit_seven b hi, loop_past_end w bs (add_group w acc b s) (s + 7) h)

inner_byte :
    (s n acc b : ℕ) (bs : List ℕ)
    → 7 < n
    → acc < 2 ^ s
    → 128 ≤ b
    → b < 256
    → leb128s_loop (s + n) (b ∷ bs) acc s
      ≡ leb128s_loop (s + n) bs (acc + (b - 128) * 2 ^ s) (s + 7)
unfolding leb128s_loop
inner_byte s n acc b bs hn h lo hi =
    let wide : 128 ≤ 2 ^ n = pow-le-pow_right {n = 2} (omega arith) {i = 7} {j = n} (omega arith) in
    let low : b % 128 % 2 ^ n ≡ b - 128 =
      mod-eq_of_lt {n = b % 128} {m = 2 ^ n} (omega arith) ∙ omega arith in
    let sum : add_group (s + n) acc b s ≡ acc + (b - 128) * 2 ^ s =
      rw (add_group_lem s n acc b h hi, low) in
    ground (arith, sum, bit_seven b hi)

read_signed_inner :
    (n b : ℕ) (bs : List ℕ)
    → 7 < n
    → 128 ≤ b
    → read_signed n (b ∷ bs) ≡ Option.map (prepend b) (read_signed (n - 7) bs)
unfolding read_signed
read_signed_inner n b bs hn hb = ground arith

read_signed_past_end : (n b : ℕ) (bs : List ℕ) → n ≤ 7 → 128 ≤ b → read_signed n (b ∷ bs) ≡ none
unfolding read_signed
read_signed_past_end n b bs hn hb = ground arith

-- The loop over the bytes that are left, and the grammar over the bits that are left.
pub loop-read_signed :
    (bs : List ℕ) (s n acc : ℕ)
    → 0 < n
    → 7 ≤ s + n
    → acc < 2 ^ s
    → All IsByte bs
    → to_option (leb128s_loop (s + n) bs acc s) ≡ Option.map (place acc s) (read_signed n bs)
loop-read_signed [] s n acc hn hw h hbs = unfold leb128s_loop read_signed in ground arith
loop-read_signed (b ∷ bs) s n acc hn hw h hbs = elim (Bool-cases (ltb b 128)) [
  | inl last ↦ elim (Bool-cases (ltb 7 n)) [
    | inl more ↦ last_byte s n acc b bs (ltb→lt 7 n more) h (ltb→lt b 128 last)
    | inr full ↦ terminal_byte s n acc b bs hn (ltb→le 7 n full) hw h (ltb→lt b 128 last)
  ]
  | inr inner ↦ elim (Bool-cases (ltb 7 n)) [
    | inl more ↦
        let lo : 128 ≤ b = ltb→le b 128 inner in
        let e : s + n ≡ s + 7 + (n - 7) = omega (arith, ltb→lt 7 n more) in
        let acc_fits : acc + (b - 128) * 2 ^ s < 2 ^ (s + 7) =
          omega (arith, two-pow-add s 7, group_fits s b (omega (arith, hbs.0))) in
        rw
          (
            inner_byte s n acc b bs (ltb→lt 7 n more) h lo hbs.0,
            read_signed_inner n b bs (ltb→lt 7 n more) lo,
            place-prepend,
            e,
          )
          (loop-read_signed bs (s + 7) (n - 7) (acc + (b - 128) * 2 ^ s)
            (omega (arith, ltb→lt 7 n more)) (omega arith) acc_fits hbs.1)
    | inr full ↦ rw (
      inner_past_end (s + n) s acc b bs (omega (arith, ltb→le 7 n full)) (ltb→le b 128 inner) hbs.0,
      read_signed_past_end n b bs (ltb→le 7 n full) (ltb→le b 128 inner),
    )
  ]
]

-- On every sequence of bytes the signed LEB128 decoder of a width of 7 or more gives the value,
-- as a bit pattern, and the rest that the grammar of sN gives, and fails where the grammar has no
-- derivation.
pub leb128s_decode-read_signed :
    (w : ℕ) (bs : List ℕ)
    → 7 ≤ w
    → All IsByte bs
    → to_option (leb128s_decode w bs) ≡ read_signed w bs
unfolding leb128s_decode
leb128s_decode-read_signed w bs hw hbs =
    let e : 0 + w ≡ w = omega arith in
    (rw e at (loop-read_signed bs 0 w 0 (omega arith) (omega arith) (omega arith) hbs))
    ∙ place_zero (read_signed w bs)
