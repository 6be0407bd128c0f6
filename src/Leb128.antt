-- ===== src/Leb128.antt =====
-- lib/fizzy/leb128.hpp: the decoders of variable-length integers. The positions `pos` and `end` are
-- the list of the bytes between them, and a result carries the bytes from the new position on.
-- A type `T` is its width `w` in bits (32 and 64 in the library), and a signed `T` is its bit
-- pattern. Both loops end because `result_shift` counts one byte of the list at a time.
pub mod Spec
pub mod Group
pub mod Unsigned
mod Sign
pub mod Signed
pub mod Encode
mod Tests
use fizzy.Common.{ℕ, zero, suc, ◌+◌, ◌-◌, ◌*◌, ◌/◌, ◌%◌, ◌^◌, ◌<◌, bit_and, bit_or, List, [], ◌∷◌}
use fizzy.Common.{Bool, true, false, ltb, ◌==◌, if◌then◌else◌, Result, ok, err, parser_error}
use fizzy.Common.{unexpected_eof, leb_unused_bits_set, leb_unused_bits_not_sign, leb_too_many_bytes}

-- `result | T((T(byte) & 0x7f) << shift)`
abbrev pub add_group : ℕ → ℕ → ℕ → ℕ → ℕ
add_group w result b shift = bit_or result (bit_and b 0x7f * 2 ^ shift % 2 ^ w)

unfoldable pub leb128u_loop : ℕ → List ℕ → ℕ → ℕ → Result (ℕ × List ℕ)
leb128u_loop w [] result shift =
    if ltb shift w then err (parser_error unexpected_eof) else err (parser_error leb_too_many_bytes)
leb128u_loop w (b ∷ rest) result shift =
    let result' = add_group w result b shift in
    let more = leb128u_loop w rest result' (shift + 7) in
    if ltb shift w
    then (if bit_and b 0x80 == 0
        then (if b == result' / 2 ^ shift
            then ok (result', rest)
            else err (parser_error leb_unused_bits_set))
        else more)
    else err (parser_error leb_too_many_bytes)

unfoldable pub leb128u_decode : ℕ → List ℕ → Result (ℕ × List ℕ)
unfolding leb128u_loop
leb128u_decode w bs = leb128u_loop w bs 0 0

-- `T(result) >> shift` on the pattern: the sign bit comes in from the left.
unfoldable pub shift_right_signed : ℕ → ℕ → ℕ → ℕ
shift_right_signed w r shift =
    if ltb r (2 ^ (w - 1)) then r / 2 ^ shift else r / 2 ^ shift + (2 ^ w - 2 ^ (w - shift))

-- The last byte `b` has been added to `result`: fill in the sign, or check the bits not used.
unfoldable pub finish_signed : ℕ → ℕ → ℕ → ℕ → List ℕ → Result (ℕ × List ℕ)
unfolding shift_right_signed
finish_signed w b result shift rest =
    if ltb (shift + 7) w
    then (if bit_and b 0x40 == 0
        then ok (result, rest)
        else ok (bit_or result ((2 ^ w - 1) * 2 ^ (shift + 7) % 2 ^ w), rest))
    else (if b == bit_and (shift_right_signed w result shift % 2 ^ 8) 0x7f
        then ok (result, rest)
        else err (parser_error leb_unused_bits_not_sign))

unfoldable pub leb128s_loop : ℕ → List ℕ → ℕ → ℕ → Result (ℕ × List ℕ)
unfolding finish_signed
leb128s_loop w [] result shift =
    if ltb shift w then err (parser_error unexpected_eof) else err (parser_error leb_too_many_bytes)
leb128s_loop w (b ∷ rest) result shift =
    let result' = add_group w result b shift in
    let more = leb128s_loop w rest result' (shift + 7) in
    if ltb shift w
    then (if bit_and b 0x80 == 0 then finish_signed w b result' shift rest else more)
    else err (parser_error leb_too_many_bytes)

unfoldable pub leb128s_decode : ℕ → List ℕ → Result (ℕ × List ℕ)
unfolding leb128s_loop
leb128s_decode w bs = leb128s_loop w bs 0 0
