-- ===== src/Parser/Basic.antt =====
-- The primitives of lib/fizzy/parser.hpp and lib/fizzy/parser.cpp: bytes, words, vectors, value
-- types, strings.
use fizzy.Common.{
  ℕ, zero, suc, ◌+◌, ◌*◌, List, [], ◌∷◌, Result, ok, err, parser_error, unexpected_eof,
}
use fizzy.Common.{invalid_valtype, invalid_utf8, ltb, ◌==◌, if◌then◌else◌, length, take, drop}
use fizzy.Leb128.{leb128u_decode}
use fizzy.Utf8.{utf8_validate}
use fizzy.Types.{ValType}
use fizzy.Parser.Monad.{Parser, ◌>>=◌, ◌>>◌, return, ensure, lift}

unfoldable pub parse_byte : Parser ℕ
parse_byte [] = err (parser_error unexpected_eof)
parse_byte (b ∷ bs) = ok (b, bs)

-- The number that `memcpy` reads: the target is little-endian.
unfoldable pub little_endian : List ℕ → ℕ
little_endian [] = 0
little_endian (b ∷ bs) = b + 256 * little_endian bs

-- A value of `size` bytes.
unfoldable pub parse_value : ℕ → Parser ℕ
unfolding little_endian
parse_value size bs =
    if ltb (length bs) size
    then err (parser_error unexpected_eof)
    else ok (little_endian (take size bs), drop size bs)

unfoldable pub parse_u32 : Parser ℕ
parse_u32 = leb128u_decode 32

-- The loop of `parse_vec`: `size` items are still to be read.
unfoldable pub parse_items {ℓ} : {A : Type ℓ} → Parser A → ℕ → Parser (List A)
parse_items p zero = return []
parse_items p (suc size) = do item ← p; items ← parse_items p size; return (item ∷ items)

unfoldable pub parse_vec {ℓ} : {A : Type ℓ} → Parser A → Parser (List A)
unfolding parse_items parse_u32
parse_vec p = do size ← parse_u32; parse_items p size

unfoldable pub validate_valtype : ℕ → Result ValType
validate_valtype byte =
    if byte == 0x7F
    then ok ValType.i32
    else (if byte == 0x7E
        then ok ValType.i64
        else (if byte == 0x7D
            then ok ValType.f32
            else (if byte == 0x7C
                then ok ValType.f64
                else err (parser_error (invalid_valtype byte)))))

unfoldable pub parse_valtype : Parser ValType
unfolding parse_byte validate_valtype
parse_valtype = do byte ← parse_byte; lift (validate_valtype byte)

-- The next `size` bytes, which the source takes with one test of the distance to `end`.
unfoldable pub take_bytes : ℕ → Parser (List ℕ)
take_bytes size bs =
    if ltb (length bs) size
    then err (parser_error unexpected_eof)
    else ok (take size bs, drop size bs)

unfoldable pub parse_string : Parser (List ℕ)
unfolding parse_u32 take_bytes
parse_string = do
  size ← parse_u32
  text ← take_bytes size
  ensure (utf8_validate text) (parser_error invalid_utf8)
  return text

-- This is used in `parse_expr`.
unfoldable pub parse_vec_i32 : Parser (List ℕ)
unfolding parse_vec
parse_vec_i32 = parse_vec parse_u32
