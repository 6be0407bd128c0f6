-- ===== src/Parser/Local/Basic.antt =====
-- The primitives of lib/fizzy/parser.cpp and the decoders of lib/fizzy/leb128.hpp are local.
use fizzy.Common.{
  ℕ, zero, suc, ◌+◌, ◌≤◌, ◌≡◌, sym, ap, ◌∙◌, arith, List, [], ◌∷◌, ◌++◌, ok, err, Error,
}
use fizzy.Common.{
  ◌-◌, ◌*◌, bit_or, parser_error, leb_too_many_bytes, leb_unused_bits_set, leb_unused_bits_not_sign,
}
use fizzy.Common.{
  bit_and, ◌/◌, ◌^◌, ◌%◌, ltb, ◌==◌, length, take, drop, take-append-drop, take-append_of_length,
  drop-append_of_length, length-append, length-take, Bool-cases, inl, inr,
}
use fizzy.Leb128.{
  add_group, leb128u_loop, leb128u_decode, shift_right_signed, leb128s_loop, leb128s_decode,
}
use mathlib.Core.Path.{ap₂}
use fizzy.Utf8.{utf8_validate}
use fizzy.Parser.Monad.{Parser, ◌>>=◌, return, ensure}
use fizzy.Parser.Basic.{
  parse_byte, parse_value, little_endian, parse_u32, parse_items, parse_vec, validate_valtype,
  parse_valtype, take_bytes, parse_string,
}
use fizzy.Parser.Local.{Reads, IsLocal, return-IsLocal, ensure-IsLocal, lift-IsLocal, >>=-IsLocal}

-- The first byte, and then what `r` reads.
step {ℓ} :
    {A : Type ℓ} {p q : Parser A} {b : ℕ} {bs : List ℕ} {a : A} {rest : List ℕ}
    → ((tail : List ℕ) → p (b ∷ tail) ≡ q tail)
    → Reads q bs a rest
    → Reads p (b ∷ bs) a rest
step {p} {q} {b} same r = record {
  front = b ∷ r.front;
  split = ap (λ t. b ∷ t) r.split;
  again = λ more. same (r.front ++ more) ∙ r.again more;
}

pub parse_byte-IsLocal : IsLocal parse_byte
unfolding parse_byte
parse_byte-IsLocal [] a rest e = cc
parse_byte-IsLocal (b ∷ bs) a rest e = record { front = b ∷ []; split = cc; again = λ more. cc }

-- What a byte makes of a loop that reads bytes: it ends it, it goes on, or it fails, whatever
-- bytes follow.
data Round (loop : Parser ℕ) (next : ℕ → Parser ℕ) (b : ℕ) : Type 0 where
  ends : (v : ℕ) → ((tail : List ℕ) → loop (b ∷ tail) ≡ ok (v, tail)) → Round loop next b
  goes_on : (r : ℕ) → ((tail : List ℕ) → loop (b ∷ tail) ≡ next r tail) → Round loop next b
  fails : (x : Error) → ((tail : List ℕ) → loop (b ∷ tail) ≡ err x) → Round loop next b

Round-Reads :
    {loop : Parser ℕ} {next : ℕ → Parser ℕ} {b : ℕ} (bs : List ℕ) {v : ℕ} {rest : List ℕ}
    → Round loop next b
    → ((r : ℕ) → next r bs ≡ ok (v, rest) → Reads (next r) bs v rest)
    → loop (b ∷ bs) ≡ ok (v, rest)
    → Reads loop (b ∷ bs) v rest
Round-Reads {b} bs (ends u same) ih e = record {
  front = b ∷ [];
  split = cc (same bs);
  again = λ more. same more ∙ cc (same bs);
}
Round-Reads bs (goes_on r same) ih e = step same (ih r (sym (same bs) ∙ e))
Round-Reads bs (fails x same) ih e = cc (same bs)

leb128u_decode-Round :
    (w b result shift : ℕ)
    → Round (λ bs. leb128u_loop w bs result shift) (λ r bs. leb128u_loop w bs r (shift + 7)) b
unfolding leb128u_loop
leb128u_decode-Round w b result shift =
    let result' = add_group w result b shift in
    elim (Bool-cases (ltb shift w)) [
      | inr stop ↦ fails (parser_error leb_too_many_bytes) (λ tail. rw stop)
      | inl go ↦ elim (Bool-cases (bit_and b 0x80 == 0)) [
        | inr more ↦ goes_on result' (λ tail. rw (go, more))
        | inl last ↦ elim (Bool-cases (b == result' / 2 ^ shift)) [
          | inl good ↦ ends result' (λ tail. rw (go, last, good))
          | inr bad ↦ fails (parser_error leb_unused_bits_set) (λ tail. rw (go, last, bad))
        ]
      ]
    ]

pub leb128u_loop-IsLocal :
    (bs : List ℕ) (w result shift v : ℕ) (rest : List ℕ)
    → leb128u_loop w bs result shift ≡ ok (v, rest)
    → Reads (λ bs. leb128u_loop w bs result shift) bs v rest
leb128u_loop-IsLocal [] w result shift v rest e = unfold leb128u_loop in ground arith
leb128u_loop-IsLocal (b ∷ bs) w result shift v rest e =
    Round-Reads bs (leb128u_decode-Round w b result shift)
      (λ r. leb128u_loop-IsLocal bs w r (shift + 7) v rest) e

pub leb128u_decode-IsLocal : (w : ℕ) → IsLocal (leb128u_decode w)
unfolding leb128u_decode
leb128u_decode-IsLocal w bs v rest e = leb128u_loop-IsLocal bs w 0 0 v rest e

leb128s_decode-Round :
    (w b result shift : ℕ)
    → Round (λ bs. leb128s_loop w bs result shift) (λ r bs. leb128s_loop w bs r (shift + 7)) b
unfolding leb128s_loop
leb128s_decode-Round w b result shift =
    let result' = add_group w result b shift in
    elim (Bool-cases (ltb shift w)) [
      | inr stop ↦ fails (parser_error leb_too_many_bytes) (λ tail. rw stop)
      | inl go ↦ elim (Bool-cases (bit_and b 0x80 == 0)) [
        | inr more ↦ goes_on result' (λ tail. rw (go, more))
        | inl last ↦ elim (Bool-cases (ltb (shift + 7) w)) [
          | inl inner ↦ elim (Bool-cases (bit_and b 0x40 == 0)) [
            | inl plus ↦ ends result' (λ tail. rw (go, last, inner, plus))
            | inr minus ↦
                ends (bit_or result' ((2 ^ w - 1) * 2 ^ (shift + 7) % 2 ^ w))
                  (λ tail. rw (go, last, inner, minus))
          ]
          | inr terminal ↦
              elim (Bool-cases (b == bit_and (shift_right_signed w result' shift % 2 ^ 8) 0x7f)) [
                | inl good ↦ ends result' (λ tail. rw (go, last, terminal, good))
                | inr bad ↦
                    fails (parser_error leb_unused_bits_not_sign)
                      (λ tail. rw (go, last, terminal, bad))
              ]
        ]
      ]
    ]

pub leb128s_loop-IsLocal :
    (bs : List ℕ) (w result shift v : ℕ) (rest : List ℕ)
    → leb128s_loop w bs result shift ≡ ok (v, rest)
    → Reads (λ bs. leb128s_loop w bs result shift) bs v rest
leb128s_loop-IsLocal [] w result shift v rest e = unfold leb128s_loop in ground arith
leb128s_loop-IsLocal (b ∷ bs) w result shift v rest e =
    Round-Reads bs (leb128s_decode-Round w b result shift)
      (λ r. leb128s_loop-IsLocal bs w r (shift + 7) v rest) e

pub leb128s_decode-IsLocal : (w : ℕ) → IsLocal (leb128s_decode w)
unfolding leb128s_decode
leb128s_decode-IsLocal w bs v rest e = leb128s_loop-IsLocal bs w 0 0 v rest e

pub parse_u32-IsLocal : IsLocal parse_u32
unfolding parse_u32
parse_u32-IsLocal = leb128u_decode-IsLocal 32

-- A fixed count of bytes, whatever is made of them.
counted-IsLocal :
    {A : Type 0} (p : Parser A) (size : ℕ) (f : List ℕ → A)
    → ((bs : List ℕ) → size ≤ length bs → p bs ≡ ok (f (take size bs), drop size bs))
    → ((bs : List ℕ) (a : A) (rest : List ℕ) → p bs ≡ ok (a, rest) → size ≤ length bs)
    → IsLocal p
counted-IsLocal p size f reads long bs a rest e =
    let room = long bs a rest e in
    let n : length (take size bs) ≡ size = length-take size bs room in
    record {
      front = take size bs;
      split = sym (take-append-drop size bs) ∙ ap (λ t. take size bs ++ t) (cc (reads bs room));
      again = λ more.
          let front = take size bs in
          let same_value : f (take size (front ++ more)) ≡ a =
            ap f (take-append_of_length front more n) ∙ cc (reads bs room) in
          reads (front ++ more) (omega (arith, length-append front more))
          ∙ ap₂ (λ x y. ok (x, y)) same_value (drop-append_of_length front more n);
    }

pub take_bytes-IsLocal : (size : ℕ) → IsLocal (take_bytes size)
unfolding take_bytes
take_bytes-IsLocal size =
    counted-IsLocal (take_bytes size) size (λ t. t) (λ bs h. ground arith)
      (λ bs a rest e. ground arith)

pub parse_value-IsLocal : (size : ℕ) → IsLocal (parse_value size)
unfolding parse_value
parse_value-IsLocal size =
    counted-IsLocal (parse_value size) size little_endian (λ bs h. ground arith)
      (λ bs a rest e. ground arith)

pub parse_items-IsLocal :
    {A : Type 0} (p : Parser A) → IsLocal p → (size : ℕ) → IsLocal (parse_items p size)
unfolding parse_items
parse_items-IsLocal p h zero = return-IsLocal []
parse_items-IsLocal p h (suc size) = next p h (parse_items p size) (parse_items-IsLocal p h size)
  where
    next :
        {A : Type 0} (p : Parser A)
        → IsLocal p
        → (q : Parser (List A)) → IsLocal q
        → IsLocal (do item ← p; items ← q; return (item ∷ items))
    next p h q hq = >>=-IsLocal p _ h (λ item. >>=-IsLocal q _ hq (λ items. return-IsLocal _))

pub parse_vec-IsLocal : {A : Type 0} (p : Parser A) → IsLocal p → IsLocal (parse_vec p)
unfolding parse_vec
parse_vec-IsLocal p h = >>=-IsLocal parse_u32 _ parse_u32-IsLocal (parse_items-IsLocal p h)

pub parse_valtype-IsLocal : IsLocal parse_valtype
unfolding parse_valtype
parse_valtype-IsLocal =
    >>=-IsLocal parse_byte _ parse_byte-IsLocal (λ byte. lift-IsLocal (validate_valtype byte))

pub parse_string-IsLocal : IsLocal parse_string
unfolding parse_string
parse_string-IsLocal = >>=-IsLocal parse_u32 _ parse_u32-IsLocal λ size.
    >>=-IsLocal (take_bytes size) _ (take_bytes-IsLocal size) λ text.
      >>=-IsLocal (ensure (utf8_validate text) _) _ (ensure-IsLocal _ _) λ _. return-IsLocal text
