-- ===== src/Parser/Monad.antt =====
-- A parser of lib/fizzy/parser.hpp takes the bytes from `pos` to `end` and returns a value with the
-- new position, or throws. The position is the list of the bytes from it to `end`.
use fizzy.Common.{ℕ, List, Result, ok, err, Error, Bool, true, false}

abbrev pub Parser {ℓ} : Type ℓ → Type ℓ
Parser A = List ℕ → Result (A × List ℕ)

infixl 5 ◌>>=◌ ◌>>◌
abbrev pub ◌>>=◌ {ℓ κ} : {A : Type ℓ} {B : Type κ} → Parser A → (A → Parser B) → Parser B
◌>>=◌ p f bs = elim (p bs) [ ok (a, rest) ↦ f a rest | err e ↦ err e ]

abbrev pub ◌>>◌ {ℓ} : {B : Type ℓ} → Parser (Unit {0}) → Parser B → Parser B
p >> q = p >>= λ _. q

abbrev pub return {ℓ} : {A : Type ℓ} → A → Parser A
return a bs = ok (a, bs)

abbrev pub throw {ℓ} : {A : Type ℓ} → Error → Parser A
throw e bs = err e

-- `if (!test) throw e;`
abbrev pub ensure : Bool → Error → Parser (Unit {0})
ensure true e bs = ok (tt, bs)
ensure false e bs = err e

-- A function that may throw and reads nothing.
abbrev pub lift {ℓ} : {A : Type ℓ} → Result A → Parser A
lift (ok a) bs = ok (a, bs)
lift (err e) bs = err e
