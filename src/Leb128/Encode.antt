-- ===== src/Leb128/Encode.antt =====
-- test/utils/leb128_encode.cpp, the encoder that the repository's tests use, and the bounds and the
-- round trip of the unsigned decoder of lib/fizzy/leb128.hpp.
use fizzy.Common.{ℕ, zero, suc, ◌+◌, ◌-◌, ◌*◌, ◌/◌, ◌%◌, ◌^◌, ◌≤◌, ◌<◌, ◌≡◌, sym, ap, ◌∙◌, arith}
use fizzy.Common.{List, [], ◌∷◌, ◌++◌, some, Result, ok, err, ltb, ◌==◌, if◌then◌else◌}
use fizzy.Common.{
  All, All-append, to_option, bit_and, bit_or, length, ltb→lt, ltb→le, Bool-cases, Option-cases,
  inl, inr,
}
use fizzy.Common.Bits.{low_seven, or_top_bit, two-pow-add}
use fizzy.Leb128.{leb128u_decode}
use fizzy.Leb128.Spec.{prepend, read_unsigned}
use fizzy.Leb128.Group.{IsByte}
use fizzy.Leb128.Unsigned.{
  leb128u_decode-read_unsigned, read_unsigned_inner, read_unsigned_past_end,
}
use native.Mathlib.Nat.{pow-suc, pow-le-pow_right}
use mathlib.Core.Option

-- The `do … while (value != 0)` loop. Each round drops seven of the 64 bits, so ten are enough.
encode_loop : ℕ → ℕ → List ℕ
encode_loop zero value = []
encode_loop (suc fuel) value =
    let byte = bit_and (value % 256) 0x7f in
    let value' = value / 2 ^ 7 in
    let more = encode_loop fuel value' in if value' == 0 then byte ∷ [] else bit_or byte 0x80 ∷ more

unfoldable pub leb128u_encode : ℕ → List ℕ
unfolding encode_loop
leb128u_encode value = encode_loop 10 value

byte_group : (v : ℕ) → bit_and (v % 256) 0x7f ≡ v % 128
byte_group v = low_seven (v % 256) (omega arith) ∙ omega arith

encode_loop_last : (fuel v : ℕ) → v < 128 → encode_loop (suc fuel) v ≡ v ∷ []
unfolding encode_loop
encode_loop_last fuel v h = ground (arith, byte_group v)

encode_loop_inner :
    (fuel v : ℕ) → 128 ≤ v → encode_loop (suc fuel) v ≡ (v % 128 + 128) ∷ encode_loop fuel (v / 128)
unfolding encode_loop
encode_loop_inner fuel v h =
    let top : bit_or (bit_and (v % 256) 0x7f) 0x80 ≡ v % 128 + 128 =
      rw (byte_group v) (or_top_bit (v % 128) (omega arith)) in
    ground (arith, top)

narrow : (n v : ℕ) → 128 ≤ v → v < 2 ^ n → 7 < n
narrow n v h hv = elim (Bool-cases (ltb 7 n)) [
  | inl yes' ↦ ltb→lt 7 n yes'
  | inr no' ↦ absurd (
      omega (
        arith,
        ltb→le 7 n no',
        pow-le-pow_right {n = 2} (omega arith) {i = n} {j = 7} (ltb→le 7 n no'),
      ))
]

-- Code that runs `suc k` rounds at most, for the values that need no more.
read-encode_last :
    (k n v : ℕ) (rest : List ℕ)
    → v < 128
    → v < 2 ^ n
    → read_unsigned n (encode_loop (suc k) v ++ rest) ≡ some (v, rest)
read-encode_last k n v rest h hn =
    rw (encode_loop_last k v h) (unfold read_unsigned in ground arith)

read-encode_loop :
    (k n v : ℕ) (rest : List ℕ)
    → v < 128 ^ suc k
    → v < 2 ^ n
    → read_unsigned n (encode_loop (suc k) v ++ rest) ≡ some (v, rest)
read-encode_loop zero n v rest hv hn = read-encode_last zero n v rest (omega arith) hn
read-encode_loop (suc k) n v rest hv hn = elim (Bool-cases (ltb v 128)) [
  | inl last ↦ read-encode_last (suc k) n v rest (ltb→lt v 128 last) hn
  | inr inner ↦
      let lo : 128 ≤ v = ltb→le v 128 inner in
      let room : 7 < n = narrow n v lo hn in
      let n_split : n ≡ 7 + (n - 7) = omega arith in
      let top : 2 ^ n ≡ 128 * 2 ^ (n - 7) = ap (λ (t : ℕ). 2 ^ t) n_split ∙ two-pow-add 7 (n - 7) in
      let fuel_left : v / 128 < 128 ^ suc k = omega (arith, pow-suc 128 (suc k)) in
      let ih : read_unsigned (n - 7) (encode_loop (suc k) (v / 128) ++ rest)
          ≡ some (v / 128, rest) =
        read-encode_loop k (n - 7) (v / 128) rest fuel_left (omega (arith, top)) in
      let value : 128 * (v / 128) + (v % 128 + 128 - 128) ≡ v = omega arith in
      rw
        (
          encode_loop_inner (suc k) v lo,
          read_unsigned_inner n (v % 128 + 128) _ room (omega arith),
          ih,
        )
        (ap (λ t. some (t, rest)) value)
]

encode_loop-IsByte : (k v : ℕ) → All IsByte (encode_loop k v)
encode_loop-IsByte zero v = unfold encode_loop in tt
encode_loop-IsByte (suc k) v = elim (Bool-cases (ltb v 128)) [
  | inl last ↦ rw (encode_loop_last k v (ltb→lt v 128 last)) (omega (arith, ltb→lt v 128 last), tt)
  | inr inner ↦
      rw (encode_loop_inner k v (ltb→le v 128 inner)) (omega arith, encode_loop-IsByte k (v / 128))
]

eq-ok_of_to_option {ℓ} : {A : Type ℓ} (r : Result A) {a : A} → to_option r ≡ some a → r ≡ ok a
eq-ok_of_to_option (ok x) e = cc
eq-ok_of_to_option (err x) e = cc

-- A decoder of a positive width reads back what the encoder wrote of any 64-bit value that fits
-- the width, and leaves the bytes behind it.
pub leb128u_decode-encode :
    (w v : ℕ) (rest : List ℕ)
    → 0 < w
    → v < 2 ^ w
    → v < 2 ^ 64
    → All IsByte rest
    → leb128u_decode w (leb128u_encode v ++ rest) ≡ ok (v, rest)
unfolding leb128u_encode
leb128u_decode-encode w v rest hw hv h64 hr = eq-ok_of_to_option _ (
    leb128u_decode-read_unsigned w _ hw (All-append IsByte _ _ (encode_loop-IsByte 10 v) hr)
    ∙ read-encode_loop 9 w v rest (omega arith) hv)

-- What the grammar reads: the last byte, and a byte before it.
read_unsigned_last :
    (n b : ℕ) (bs : List ℕ) (v : ℕ) (rest : List ℕ)
    → b < 128
    → read_unsigned n (b ∷ bs) ≡ some (v, rest)
    → (v < 2 ^ n) × (length rest ≡ length bs)
unfolding read_unsigned
read_unsigned_last n b bs v rest hb e = ground arith

-- `bs` and the bytes after it: the value fits `n` bits, and takes one byte for each seven at most.
abbrev Fits : ℕ → List ℕ → ℕ → List ℕ → Type 0
Fits n bs v rest =
    (v < 2 ^ n) × (length rest < length bs) × (7 * length bs < n + 7 * length rest + 7)

Fits-prepend :
    (n b m : ℕ) (bs r : List ℕ) {v : ℕ} {rest : List ℕ}
    → 7 < n
    → b < 256
    → Fits (n - 7) bs m r
    → Option.map (prepend b) (some (m, r)) ≡ some (v, rest)
    → Fits n (b ∷ bs) v rest
Fits-prepend n b m bs r hn hb f e =
    let n_split : n ≡ 7 + (n - 7) = omega arith in
    let top : 2 ^ n ≡ 128 * 2 ^ (n - 7) = ap (λ (t : ℕ). 2 ^ t) n_split ∙ two-pow-add 7 (n - 7) in
    ground (arith, top)

read_unsigned-Fits :
    (n : ℕ) (bs : List ℕ) (v : ℕ) (rest : List ℕ)
    → 0 < n
    → All IsByte bs
    → read_unsigned n bs ≡ some (v, rest)
    → Fits n bs v rest
read_unsigned-Fits n [] v rest hn hbs e = unfold read_unsigned in cc
read_unsigned-Fits n (b ∷ bs) v rest hn hbs e = elim (Bool-cases (ltb b 128)) [
  | inl last ↦ omega (arith, read_unsigned_last n b bs v rest (ltb→lt b 128 last) e)
  | inr inner ↦ elim (Bool-cases (ltb 7 n)) [
    | inr full ↦ cc (read_unsigned_past_end n b bs (ltb→le 7 n full) (ltb→le b 128 inner))
    | inl more ↦ elim (Option-cases (read_unsigned (n - 7) bs)) [
      | inl dead ↦ cc (dead, read_unsigned_inner n b bs (ltb→lt 7 n more) (ltb→le b 128 inner))
      | inr ((m, r), live) ↦
          Fits-prepend n b m bs r (ltb→lt 7 n more) hbs.0
            (read_unsigned-Fits (n - 7) bs m r (omega (arith, ltb→lt 7 n more)) hbs.1 live)
            (rw (read_unsigned_inner n b bs (ltb→lt 7 n more) (ltb→le b 128 inner), live) at e)
    ]
  ]
]

-- A value that the unsigned decoder returns fits the width, and takes one byte at least and one
-- for each seven bits, rounded up, at most.
pub leb128u_decode_bounds :
    (w : ℕ) (bs : List ℕ) {v : ℕ} {rest : List ℕ}
    → 0 < w
    → All IsByte bs
    → leb128u_decode w bs ≡ ok (v, rest)
    → (v < 2 ^ w) × (length rest < length bs) × (7 * length bs < w + 7 * length rest + 7)
leb128u_decode_bounds w bs {v} {rest} hw hbs e =
    read_unsigned-Fits w bs v rest hw hbs
      (sym (leb128u_decode-read_unsigned w bs hw hbs) ∙ ap to_option e)
