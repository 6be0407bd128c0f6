-- ===== src/Utf8/Spec.antt =====
-- What UTF-8 text is, apart from lib/fizzy/utf8.cpp: the encodings of Unicode scalar values, one
-- after another (The Unicode Standard, D76 and D92).
use fizzy.Common.{ℕ, ◌+◌, ◌/◌, ◌%◌, ◌<◌, ◌≤◌, ◌⊎◌, List, [], ◌∷◌, ◌++◌, ltb, if◌then◌else◌}

-- A code point that is no surrogate.
abbrev pub IsScalar : ℕ → Type 0
IsScalar c = (c < 0xD800) ⊎ ((0xE000 ≤ c) × (c < 0x110000))

unfoldable pub encode : ℕ → List ℕ
encode c =
    if ltb c 0x80
    then c ∷ []
    else (if ltb c 0x800
        then (0xC0 + c / 64) ∷ (0x80 + c % 64) ∷ []
        else (if ltb c 0x10000
            then (0xE0 + c / 4096) ∷ (0x80 + c / 64 % 64) ∷ (0x80 + c % 64) ∷ []
            else (0xF0 + c / 262144)
              ∷ (0x80 + c / 4096 % 64)
              ∷ (0x80 + c / 64 % 64)
              ∷ (0x80 + c % 64)
              ∷ []))

abbrev pub encode_all : List ℕ → List ℕ
encode_all [] = []
encode_all (c ∷ cs) = encode c ++ encode_all cs
