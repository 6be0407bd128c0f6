-- ===== src/Leb128/Tests.antt =====
-- Runs of the decoders of lib/fizzy/leb128.hpp, and the theorems at concrete inputs.
use fizzy.Common.{ℕ, ◌+◌, ◌*◌, ◌^◌, ◌<◌, ◌≡◌, refl, arith, [], ◌∷◌, ◌++◌, length, ◌-◌}
use fizzy.Common.{
  ok, err, parser_error, leb_unused_bits_set, leb_too_many_bytes, unexpected_eof, to_option,
}
use fizzy.Leb128.{leb128u_decode, leb128s_decode}
use fizzy.Leb128.Spec.{read_unsigned, read_signed}
use fizzy.Leb128.Unsigned.{leb128u_decode-read_unsigned}
use fizzy.Leb128.Signed.{leb128s_decode-read_signed}
use fizzy.Leb128.Encode.{leb128u_encode, leb128u_decode-encode, leb128u_decode_bounds}

decode_624485 : leb128u_decode 32 (0xe5 ∷ 0x8e ∷ 0x26 ∷ 7 ∷ []) ≡ ok (624485, 7 ∷ [])
unfolding leb128u_decode
decode_624485 = refl

decode_unused_bits :
    leb128u_decode 32 (0x80 ∷ 0x80 ∷ 0x80 ∷ 0x80 ∷ 0x10 ∷ [])
    ≡ err (parser_error leb_unused_bits_set)
unfolding leb128u_decode
decode_unused_bits = refl

decode_too_long :
    leb128u_decode 32 (0x80 ∷ 0x80 ∷ 0x80 ∷ 0x80 ∷ 0x80 ∷ 0 ∷ [])
    ≡ err (parser_error leb_too_many_bytes)
unfolding leb128u_decode
decode_too_long = refl

decode_minus_one : leb128s_decode 32 (0x7f ∷ []) ≡ ok (2 ^ 32 - 1, [])
unfolding leb128s_decode
decode_minus_one = refl

decode_int_min : leb128s_decode 32 (0x80 ∷ 0x80 ∷ 0x80 ∷ 0x80 ∷ 0x78 ∷ []) ≡ ok (2 ^ 31, [])
unfolding leb128s_decode
decode_int_min = refl

decode_cut : leb128s_decode 64 (0x80 ∷ []) ≡ err (parser_error unexpected_eof)
unfolding leb128s_decode
decode_cut = refl

leb128u_decode-read_unsigned_example :
    to_option (leb128u_decode 32 (0xe5 ∷ 0x8e ∷ 0x26 ∷ []))
    ≡ read_unsigned 32 (0xe5 ∷ 0x8e ∷ 0x26 ∷ [])
leb128u_decode-read_unsigned_example =
    leb128u_decode-read_unsigned 32 (0xe5 ∷ 0x8e ∷ 0x26 ∷ []) (omega arith) (omega arith)

leb128s_decode-read_signed_example :
    to_option (leb128s_decode 32 (0xc0 ∷ 0xbb ∷ 0x78 ∷ []))
    ≡ read_signed 32 (0xc0 ∷ 0xbb ∷ 0x78 ∷ [])
leb128s_decode-read_signed_example =
    leb128s_decode-read_signed 32 (0xc0 ∷ 0xbb ∷ 0x78 ∷ []) (omega arith) (omega arith)

leb128u_decode-encode_example :
    leb128u_decode 32 (leb128u_encode 624485 ++ (9 ∷ [])) ≡ ok (624485, 9 ∷ [])
leb128u_decode-encode_example =
    leb128u_decode-encode 32 624485 (9 ∷ []) (omega arith) (omega arith) (omega arith) (omega arith)

leb128u_decode_bounds_example :
    (624485 < 2 ^ 32)
    × (length {A = ℕ} (7 ∷ []) < length {A = ℕ} (0xe5 ∷ 0x8e ∷ 0x26 ∷ 7 ∷ []))
    × (7 * length {A = ℕ} (0xe5 ∷ 0x8e ∷ 0x26 ∷ 7 ∷ []) < 32 + 7 * length {A = ℕ} (7 ∷ []) + 7)
leb128u_decode_bounds_example =
    leb128u_decode_bounds 32 (0xe5 ∷ 0x8e ∷ 0x26 ∷ 7 ∷ []) (omega arith) (omega arith) decode_624485
