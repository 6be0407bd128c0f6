-- ===== src/Utf8/Sound.antt =====
-- lib/fizzy/utf8.cpp accepts nothing but UTF-8 text.
use fizzy.Common.{ℕ, zero, suc, ◌+◌, ◌-◌, ◌*◌, ◌<◌, ◌≤◌, ◌≡◌, refl, ◌∙◌, arith, List, [], ◌∷◌, ◌++◌}
use fizzy.Common.{
  some, true, leb, All, length, Bool-cases, Option-cases, inl, inr, leb→le, leb→lt, ap, sym, ◌↔◌,
}
use fizzy.Utf8.{utf8_round, utf8_loop, utf8_validate}
use fizzy.Utf8.Complete.{utf8_validate-encode_all}
use fizzy.Utf8.Spec.{IsScalar, encode, encode_all}

-- One accepted round has read the encoding of one scalar value.
abbrev Reads : List ℕ → List ℕ → Type 0
Reads bs rest = (c : ℕ) × IsScalar c × (bs ≡ encode c ++ rest)

encode_two :
    (b1 b2 : ℕ)
    → 0xC2 ≤ b1
    → b1 ≤ 0xDF
    → 0x80 ≤ b2
    → b2 ≤ 0xBF
    → encode ((b1 - 0xC0) * 64 + (b2 - 0x80)) ≡ b1 ∷ b2 ∷ []
unfolding encode
encode_two b1 b2 h1 h2 h3 h4 = ground arith

encode_three :
    (b1 b2 b3 : ℕ)
    → 0xE0 ≤ b1
    → b1 ≤ 0xEF
    → 0x80 ≤ b2
    → b2 ≤ 0xBF
    → 0x80 ≤ b3
    → b3 ≤ 0xBF
    → 0x800 ≤ (b1 - 0xE0) * 4096 + (b2 - 0x80) * 64
    → encode ((b1 - 0xE0) * 4096 + (b2 - 0x80) * 64 + (b3 - 0x80)) ≡ b1 ∷ b2 ∷ b3 ∷ []
unfolding encode
encode_three b1 b2 b3 h1 h2 h3 h4 h5 h6 h7 = ground arith

encode_four :
    (b1 b2 b3 b4 : ℕ)
    → 0xF0 ≤ b1
    → b1 ≤ 0xF4
    → 0x80 ≤ b2
    → b2 ≤ 0xBF
    → 0x80 ≤ b3
    → b3 ≤ 0xBF
    → 0x80 ≤ b4
    → b4 ≤ 0xBF
    → 0x10000 ≤ (b1 - 0xF0) * 262144 + (b2 - 0x80) * 4096
    → encode ((b1 - 0xF0) * 262144 + (b2 - 0x80) * 4096 + (b3 - 0x80) * 64 + (b4 - 0x80))
      ≡ b1 ∷ b2 ∷ b3 ∷ b4 ∷ []
unfolding encode
encode_four b1 b2 b3 b4 h1 h2 h3 h4 h5 h6 h7 h8 h9 = ground arith

Reads-one :
    (b : ℕ) (bs rest : List ℕ) → b ≤ 0x7F → utf8_round b bs ≡ some rest → Reads (b ∷ bs) rest
unfolding utf8_round encode
Reads-one b bs rest h e = (b, ground arith, ground arith)

-- What the tests of one accepted round say of its bytes.
tests_two :
    (b1 : ℕ) (bs rest : List ℕ)
    → 0x7F < b1
    → b1 ≤ 0xDF
    → utf8_round b1 bs ≡ some rest
    → (b2 : ℕ) × (bs ≡ b2 ∷ rest) × (0xC2 ≤ b1) × (0x80 ≤ b2) × (b2 ≤ 0xBF)
unfolding utf8_round
tests_two b1 [] rest h1 h2 e = ground arith
tests_two b1 (b2 ∷ bs) rest h1 h2 e = (b2, ground arith, ground arith, ground arith, ground arith)

tests_three :
    (b1 : ℕ) (bs rest : List ℕ)
    → 0xDF < b1
    → b1 ≤ 0xEF
    → utf8_round b1 bs ≡ some rest
    → (b2 : ℕ) × (b3 : ℕ) × (bs ≡ b2 ∷ b3 ∷ rest)
      × (0x80 ≤ b2)
      × (b2 ≤ 0xBF)
      × (0x80 ≤ b3)
      × (b3 ≤ 0xBF)
      × (0x800 ≤ (b1 - 0xE0) * 4096 + (b2 - 0x80) * 64)
      × IsScalar ((b1 - 0xE0) * 4096 + (b2 - 0x80) * 64 + (b3 - 0x80))
unfolding utf8_round
tests_three b1 [] rest h1 h2 e = ground arith
tests_three b1 (b2 ∷ []) rest h1 h2 e = ground arith
tests_three b1 (b2 ∷ b3 ∷ bs) rest h1 h2 e = (
  b2,
  b3,
  ground arith,
  ground arith,
  ground arith,
  ground arith,
  ground arith,
  ground arith,
  ground arith,
)

tests_four :
    (b1 : ℕ) (bs rest : List ℕ)
    → 0xEF < b1
    → utf8_round b1 bs ≡ some rest
    → (b2 : ℕ) × (b3 : ℕ) × (b4 : ℕ) × (bs ≡ b2 ∷ b3 ∷ b4 ∷ rest)
      × (b1 ≤ 0xF4)
      × (0x80 ≤ b2)
      × (b2 ≤ 0xBF)
      × (0x80 ≤ b3)
      × (b3 ≤ 0xBF)
      × (0x80 ≤ b4)
      × (b4 ≤ 0xBF)
      × (0x10000 ≤ (b1 - 0xF0) * 262144 + (b2 - 0x80) * 4096)
      × ((b1 - 0xF0) * 262144 + (b2 - 0x80) * 4096 + (b3 - 0x80) * 64 + (b4 - 0x80) < 0x110000)
unfolding utf8_round
tests_four b1 [] rest h e = ground arith
tests_four b1 (b2 ∷ []) rest h e = ground arith
tests_four b1 (b2 ∷ b3 ∷ []) rest h e = ground arith
tests_four b1 (b2 ∷ b3 ∷ b4 ∷ bs) rest h e = (
  b2,
  b3,
  b4,
  ground arith,
  ground arith,
  ground arith,
  ground arith,
  ground arith,
  ground arith,
  ground arith,
  ground arith,
  ground arith,
  ground arith,
)

from_parts :
    (tail rest : List ℕ) {b : ℕ} {bs es : List ℕ}
    → bs ≡ tail ++ rest
    → es ≡ b ∷ tail
    → b ∷ bs ≡ es ++ rest
from_parts tail rest {b} shape e = ap (λ t. b ∷ t) shape ∙ ap (λ t. t ++ rest) (sym e)

round-Reads : (b : ℕ) (bs rest : List ℕ) → utf8_round b bs ≡ some rest → Reads (b ∷ bs) rest
round-Reads b bs rest e = elim (Bool-cases (leb b 0x7F)) [
  | inl one ↦ Reads-one b bs rest (leb→le _ _ one) e
  | inr wide ↦ elim (Bool-cases (leb b 0xDF)) [
    | inl two ↦
        let (b2, shape, lo, b2lo, b2hi) =
          tests_two b bs rest (leb→lt _ _ wide) (leb→le _ _ two) e in
        (
          (b - 0xC0) * 64 + (b2 - 0x80),
          omega (arith, leb→le _ _ two),
          from_parts (b2 ∷ []) rest shape (encode_two b b2 lo (leb→le _ _ two) b2lo b2hi),
        )
    | inr wider ↦ elim (Bool-cases (leb b 0xEF)) [
      | inl three ↦
          let (b2, b3, shape, b2lo, b2hi, b3lo, b3hi, big, scalar) =
            tests_three b bs rest (leb→lt _ _ wider) (leb→le _ _ three) e in
          (
            (b - 0xE0) * 4096 + (b2 - 0x80) * 64 + (b3 - 0x80),
            scalar,
            from_parts (b2 ∷ b3 ∷ []) rest shape (
                encode_three b b2 b3 (leb→lt _ _ wider) (leb→le _ _ three) b2lo b2hi b3lo b3hi big),
          )
      | inr four ↦
          let (b2, b3, b4, shape, hi, b2lo, b2hi, b3lo, b3hi, b4lo, b4hi, big, small) =
            tests_four b bs rest (leb→lt _ _ four) e in
          (
            (b - 0xF0) * 262144 + (b2 - 0x80) * 4096 + (b3 - 0x80) * 64 + (b4 - 0x80),
            inr (omega arith, small),
            from_parts (b2 ∷ b3 ∷ b4 ∷ []) rest shape
                (encode_four b b2 b3 b4 (leb→lt _ _ four) hi b2lo b2hi b3lo b3hi b4lo b4hi big),
          )
    ]
  ]
]

loop-Reads :
    (fuel : ℕ) (bs : List ℕ)
    → utf8_loop fuel bs ≡ true
    → (cs : List ℕ) × All IsScalar cs × (bs ≡ encode_all cs)
unfolding utf8_loop
loop-Reads fuel [] e = ([], tt, refl)
loop-Reads zero (b ∷ bs) e = cc
loop-Reads (suc fuel) (b ∷ bs) e = elim (Option-cases (utf8_round b bs)) [
  | inl bad ↦ cc (rw (bad, utf8_loop) at e)
  | inr (rest, good) ↦
      read_on (round-Reads b bs rest good) (loop-Reads fuel rest (rw (good, utf8_loop) at e))
]
  where
    read_on :
        {rest : List ℕ}
        → Reads (b ∷ bs) rest
        → ((cs : List ℕ) × All IsScalar cs × (rest ≡ encode_all cs))
        → (cs : List ℕ) × All IsScalar cs × (b ∷ bs ≡ encode_all cs)
    read_on (c, s, e) (cs, ss, es) = (c ∷ cs, (s, ss), e ∙ ap (λ t. encode c ++ t) es)

-- The UTF-8 validation accepts a sequence of bytes exactly when it is the encodings of some
-- Unicode scalar values, one after another.
pub utf8_validate_iff :
    (bs : List ℕ)
    → (utf8_validate bs ≡ true) ↔ ((cs : List ℕ) × All IsScalar cs × (bs ≡ encode_all cs))
utf8_validate_iff bs = (
  unfold utf8_validate in loop-Reads (length bs) bs,
  λ text. rw text.2 (utf8_validate-encode_all text.0 text.1),
)
