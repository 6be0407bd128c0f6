-- ===== src/Utf8.antt =====
-- lib/fizzy/utf8.cpp: the validation of UTF-8 text. The bytes from `pos` to `end` are a list.
pub mod Spec
pub mod Sound
pub mod Complete
mod Tests
use fizzy.Common.{ℕ, zero, suc, ◌-◌, List, [], ◌∷◌, Option, none, some, Bool, true, false, ◌||◌}
use fizzy.Common.{ltb, leb, ◌==◌, if◌then◌else◌, length}

-- Ranges for the second byte.
pub data Rule : Type 0 where
  range80_bf range_a0_bf range80_9f range90_bf range80_8f : Rule

-- What the first byte requires: the number of bytes and the rule for the second one. `none` is the
-- `return false` of a first byte that starts no sequence.
pub requirements : ℕ → Option (ℕ × Rule)
requirements byte1 =
    if ltb byte1 0xC2
    then none
    else (if leb byte1 0xDF
        then some (2, range80_bf)
        else (if byte1 == 0xE0
            then some (3, range_a0_bf)
            else (if leb byte1 0xEC
                then some (3, range80_bf)
                else (if byte1 == 0xED
                    then some (3, range80_9f)
                    else (if leb byte1 0xEF
                        then some (3, range80_bf)
                        else (if byte1 == 0xF0
                            then some (4, range90_bf)
                            else (if leb byte1 0xF3
                                then some (4, range80_bf)
                                else (if byte1 == 0xF4 then some (4, range80_8f) else none))))))))

-- The two ends of the range that a rule names.
pub breaks_rule : Rule → ℕ → Bool
breaks_rule range80_bf byte2 = ltb byte2 0x80 || ltb 0xBF byte2
breaks_rule range_a0_bf byte2 = ltb byte2 0xA0 || ltb 0xBF byte2
breaks_rule range80_9f byte2 = ltb byte2 0x80 || ltb 0x9F byte2
breaks_rule range90_bf byte2 = ltb byte2 0x90 || ltb 0xBF byte2
breaks_rule range80_8f byte2 = ltb byte2 0x80 || ltb 0x8F byte2

-- The third and the fourth byte: `more` of them are required, and the bytes are there.
pub skip_regular : ℕ → List ℕ → Option (List ℕ)
skip_regular zero pos = some pos
skip_regular (suc more) [] = none
skip_regular (suc more) (byte ∷ pos) =
    if ltb byte 0x80 || ltb 0xBF byte then none else skip_regular more pos

-- The bytes behind a first byte that is no ASCII: `end - pos < required - 1`, the second byte by
-- its rule, and the others.
pub skip_rest : ℕ → Rule → List ℕ → Option (List ℕ)
unfolding breaks_rule skip_regular
skip_rest required rule [] = none
skip_rest required rule (byte2 ∷ pos) =
    if ltb (suc (length pos)) (required - 1)
    then none
    else (if breaks_rule rule byte2 then none else skip_regular (required - 2) pos)

-- One round of the loop: the position after it, or `return false`.
pub utf8_round : ℕ → List ℕ → Option (List ℕ)
unfolding requirements skip_rest
utf8_round byte1 pos = if leb byte1 0x7F then some pos else elim (requirements byte1) [
  | none ↦ none
  | some (required, rule) ↦ skip_rest required rule pos
]

-- The loop takes a byte or more in each round, so the length of the text is fuel enough.
pub utf8_loop : ℕ → List ℕ → Bool
unfolding utf8_round
utf8_loop fuel [] = true
utf8_loop zero (byte1 ∷ pos) = false
utf8_loop (suc fuel) (byte1 ∷ pos) = elim (utf8_round byte1 pos) [
  | none ↦ false
  | some pos' ↦ utf8_loop fuel pos'
]

unfoldable pub utf8_validate : List ℕ → Bool
unfolding utf8_loop
utf8_validate bs = utf8_loop (length bs) bs
