-- ===== src/Parser/Expr/Gives.antt =====
-- What a parser of lib/fizzy/parser_expr.cpp gives: a value with a property, without having moved
-- back, or an exception that is no failed `assert`.
use fizzy.Common.{
  ℕ, zero, suc, ◌+◌, ◌≤◌, ◌≡◌, refl, arith, Bool, true, false, List, [], ◌∷◌, length, length-drop,
}
use fizzy.Common.{Result, ok, err, Error}
use fizzy.Leb128.{add_group, leb128u_loop, leb128u_decode, leb128s_loop, leb128s_decode}
use fizzy.Parser.Monad.{Parser, ◌>>=◌, return, throw, ensure, lift}
use fizzy.Parser.Basic.{parse_byte, parse_u32, parse_items, parse_vec, parse_vec_i32, parse_value}
use fizzy.Parser.Expr.Yields.{Yields, is_assertion}

abbrev pub Outcome : {A : Type 0} → (A → Type 0) → ℕ → Result (A × List ℕ) → Type 0
Outcome Q size r = elim r [
  | ok (a, rest) ↦ Q a × (length rest ≤ size)
  | err e ↦ is_assertion e ≡ false
]

pub record Gives {A : Type 0} (Q : A → Type 0) (p : Parser A) : Type 0 where
  pub run : (bs : List ℕ) → Outcome Q (length bs) (p bs)

module _ {A B : Type 0} where
  pub >>=-Gives :
      (Q : A → Type 0) (R : B → Type 0) (p : Parser A) (f : A → Parser B)
      → Gives Q p
      → ((a : A) → Q a → Gives R (f a))
      → Gives R (p >>= f)
  >>=-Gives Q R p f g k = record { run = λ bs. opened bs (p bs) (g.run bs) }
    where
      shorter : (r : Result (B × List ℕ)) {m n : ℕ} → m ≤ n → Outcome R m r → Outcome R n r
      shorter (ok (b, rest)) le o = (o.0, omega (arith, le, o.1))
      shorter (err e) le o = o

      opened :
          (bs : List ℕ) (r : Result (A × List ℕ))
          → Outcome Q (length bs) r
          → Outcome R (length bs) (elim r [ ok (a, rest) ↦ f a rest | err e ↦ err e ])
      opened bs (ok (a, rest)) o = shorter (f a rest) o.1 ((k a o.0).run rest)
      opened bs (err e) o = o

module _ {A : Type 0} where
  pub ensure-Gives :
      (R : A → Type 0) (b : Bool) (e : Error) (p : Parser A)
      → is_assertion e ≡ false
      → (b ≡ true → Gives R p)
      → Gives R (ensure b e >>= λ _. p)
  ensure-Gives R true e p y k = k refl
  ensure-Gives R false e p y k = record { run = λ bs. y }

  pub return-Gives : (Q : A → Type 0) (a : A) → Q a → Gives Q (return a)
  return-Gives Q a q = record { run = λ bs. (q, omega arith) }

  pub lift-Gives : (Q : A → Type 0) (r : Result A) → Yields Q r → Gives Q (lift r)
  lift-Gives Q (ok a) y = record { run = λ bs. (y, omega arith) }
  lift-Gives Q (err e) y = record { run = λ bs. y }

  pub throw-Gives : (Q : A → Type 0) (e : Error) → is_assertion e ≡ false → Gives Q (throw e)
  throw-Gives Q e y = record { run = λ bs. y }

-- A parser of which nothing more is asked.
abbrev pub Plain : {A : Type 0} → Parser A → Type 0
Plain p = Gives (λ _. Unit {0}) p

pub parse_byte-Plain : Plain parse_byte
unfolding parse_byte
parse_byte-Plain = record { run = read }
  where
    read : (bs : List ℕ) → Outcome (λ _. Unit {0}) (length bs) (parse_byte bs)
    read [] = refl
    read (b ∷ bs) = (tt, omega arith)

parse_items-Plain : {A : Type 0} (p : Parser A) (n : ℕ) → Plain p → Plain (parse_items p n)
unfolding parse_items
parse_items-Plain p zero g = record { run = λ bs. (tt, omega arith) }
parse_items-Plain p (suc n) g =
    >>=-Gives (λ _. Unit {0}) (λ _. Unit {0}) p _ g
      λ a u.
        >>=-Gives (λ _. Unit {0}) (λ _. Unit {0}) (parse_items p n) _ (parse_items-Plain p n g)
          λ items v. record { run = λ rest. (tt, omega arith) }

pub parse_value-Plain : (size : ℕ) → Plain (parse_value size)
unfolding parse_value
parse_value-Plain size = record { run = λ bs. ground (arith, length-drop size bs) }

leb128u_loop-Plain :
    (w : ℕ) (bs : List ℕ) (result shift : ℕ)
    → Outcome (λ _. Unit {0}) (length bs) (leb128u_loop w bs result shift)
unfolding leb128u_loop
leb128u_loop-Plain w [] result shift = ground arith
leb128u_loop-Plain w (b ∷ bs) result shift =
    ground (arith, leb128u_loop-Plain w bs (add_group w result b shift) (shift + 7))

pub parse_u32-Plain : Plain parse_u32
unfolding parse_u32 leb128u_decode
parse_u32-Plain = record { run = λ bs. leb128u_loop-Plain 32 bs 0 0 }

leb128s_loop-Plain :
    (w : ℕ) (bs : List ℕ) (result shift : ℕ)
    → Outcome (λ _. Unit {0}) (length bs) (leb128s_loop w bs result shift)
unfolding leb128s_loop
leb128s_loop-Plain w [] result shift = ground arith
leb128s_loop-Plain w (b ∷ bs) result shift =
    ground (arith, leb128s_loop-Plain w bs (add_group w result b shift) (shift + 7))

pub leb128s_decode-Plain : (w : ℕ) → Plain (leb128s_decode w)
unfolding leb128s_decode
leb128s_decode-Plain w = record { run = λ bs. leb128s_loop-Plain w bs 0 0 }

pub parse_vec_i32-Plain : Plain parse_vec_i32
unfolding parse_vec_i32 parse_vec
parse_vec_i32-Plain =
    >>=-Gives (λ _. Unit {0}) (λ _. Unit {0}) parse_u32 _ parse_u32-Plain
      λ size u. parse_items-Plain parse_u32 size parse_u32-Plain
