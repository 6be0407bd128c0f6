-- ===== src/Utf8/Complete.antt =====
-- lib/fizzy/utf8.cpp accepts all UTF-8 text.
use fizzy.Common.{ℕ, zero, suc, ◌+◌, ◌/◌, ◌%◌, ◌<◌, ◌≤◌, ◌≡◌, refl, ◌∙◌, arith, List, [], ◌∷◌, ◌++◌}
use fizzy.Common.{some, true, ltb, All, length, length-append, Bool-cases, inl, inr, ltb→lt, ltb→le}
use fizzy.Utf8.{utf8_round, utf8_loop, utf8_validate}
use fizzy.Utf8.Spec.{IsScalar, encode, encode_all}

-- One round reads one code point.
round_one : (c : ℕ) (rest : List ℕ) → c < 0x80 → utf8_round c rest ≡ some rest
unfolding utf8_round
round_one c rest h = ground arith

round_two :
    (c : ℕ) (rest : List ℕ)
    → 0x80 ≤ c
    → c < 0x800
    → utf8_round (0xC0 + c / 64) ((0x80 + c % 64) ∷ rest) ≡ some rest
unfolding utf8_round
round_two c rest lo hi = ground arith

round_three :
    (c : ℕ) (rest : List ℕ)
    → IsScalar c
    → 0x800 ≤ c
    → c < 0x10000
    → utf8_round (0xE0 + c / 4096) ((0x80 + c / 64 % 64) ∷ (0x80 + c % 64) ∷ rest) ≡ some rest
unfolding utf8_round
round_three c rest s lo hi = ground arith

round_four :
    (c : ℕ) (rest : List ℕ)
    → 0x10000 ≤ c
    → c < 0x110000
    → utf8_round
        (0xF0 + c / 262144)
        ((0x80 + c / 4096 % 64) ∷ (0x80 + c / 64 % 64) ∷ (0x80 + c % 64) ∷ rest)
      ≡ some rest
unfolding utf8_round
round_four c rest lo hi = ground arith

abbrev HeadRound : List ℕ → List ℕ → Type 0
HeadRound [] rest = ⊥
HeadRound (b ∷ bs) rest = utf8_round b (bs ++ rest) ≡ some rest

encode_round : (c : ℕ) (rest : List ℕ) → IsScalar c → HeadRound (encode c) rest
unfolding encode
encode_round c rest s = elim (Bool-cases (ltb c 0x80)) [
  | inl one ↦ rw one (round_one c rest (ltb→lt _ _ one))
  | inr wide ↦ elim (Bool-cases (ltb c 0x800)) [
    | inl two ↦ rw (wide, two) (round_two c rest (ltb→le _ _ wide) (ltb→lt _ _ two))
    | inr wider ↦ elim (Bool-cases (ltb c 0x10000)) [
      | inl three ↦
          rw (wide, wider, three) (round_three c rest s (ltb→le _ _ wider) (ltb→lt _ _ three))
      | inr four ↦
          rw (wide, wider, four)
            (round_four c rest (ltb→le _ _ four) (omega (arith, ltb→le _ _ four)))
    ]
  ]
]

loop-HeadRound :
    (fuel : ℕ) (bs rest : List ℕ)
    → HeadRound bs rest
    → utf8_loop (suc fuel) (bs ++ rest) ≡ utf8_loop fuel rest
unfolding utf8_loop
loop-HeadRound fuel [] rest h = absurd h
loop-HeadRound fuel (b ∷ bs) rest h = rw (h, utf8_loop)

HeadRound-length : (bs rest : List ℕ) → HeadRound bs rest → 0 < length bs
HeadRound-length [] rest h = absurd h
HeadRound-length (b ∷ bs) rest h = omega arith

loop-encode_all :
    (fuel : ℕ) (cs : List ℕ)
    → length (encode_all cs) ≤ fuel
    → All IsScalar cs
    → utf8_loop fuel (encode_all cs) ≡ true
loop-encode_all fuel [] h s = unfold utf8_loop in refl
loop-encode_all zero (c ∷ cs) h s = absurd (
    omega (
      arith,
      length-append (encode c) (encode_all cs),
      HeadRound-length (encode c) (encode_all cs) (encode_round c (encode_all cs) s.0),
    ))
loop-encode_all (suc fuel) (c ∷ cs) h s =
    let head = encode_round c (encode_all cs) s.0 in
    loop-HeadRound fuel (encode c) (encode_all cs) head
    ∙ loop-encode_all fuel cs
        (omega (
          arith,
          length-append (encode c) (encode_all cs),
          HeadRound-length (encode c) (encode_all cs) head,
        ))
        s.1

-- The encodings of any Unicode scalar values, one after another, are valid.
pub utf8_validate-encode_all :
    (cs : List ℕ) → All IsScalar cs → utf8_validate (encode_all cs) ≡ true
unfolding utf8_validate
utf8_validate-encode_all cs s = loop-encode_all _ cs (omega arith) s
