-- ===== src/Parser/Local.antt =====
-- Parsers of lib/fizzy/parser.cpp read a prefix of their input and look no further.
pub mod Basic
pub mod Entries
use fizzy.Common.{
  ℕ, ◌≡◌, refl, sym, ap, ◌∙◌, arith, List, [], ◌∷◌, ◌++◌, Result, ok, err, Error, Bool, true, false,
  if◌then◌else◌,
}
use fizzy.Parser.Monad.{Parser, ◌>>=◌, ◌>>◌, return, throw, ensure, lift}
use mathlib.Core.List.{append_assoc}

-- A successful parse of `bs` has read `front` and leaves `rest`, and whatever stands behind `front`
-- it reads the same and leaves that.
pub record Reads {ℓ} {A : Type ℓ} (p : Parser A) (bs : List ℕ) (a : A) (rest : List ℕ)
    : Type ℓ where
  pub front : List ℕ
  pub split : bs ≡ front ++ rest
  pub again : (more : List ℕ) → p (front ++ more) ≡ ok (a, more)

abbrev pub IsLocal {ℓ} : {A : Type ℓ} → Parser A → Type ℓ
IsLocal {A} p = (bs : List ℕ) (a : A) (rest : List ℕ) → p bs ≡ ok (a, rest) → Reads p bs a rest

pub return-IsLocal {ℓ} : {A : Type ℓ} (x : A) → IsLocal (return x)
return-IsLocal x bs a rest e = record { front = []; split = cc; again = λ more. cc }

pub throw-IsLocal {ℓ} : {A : Type ℓ} (x : Error) → IsLocal {A = A} (throw x)
throw-IsLocal x bs a rest e = cc

pub ensure-IsLocal : (b : Bool) (x : Error) → IsLocal (ensure b x)
ensure-IsLocal true x bs a rest e = record { front = []; split = cc; again = λ more. refl }
ensure-IsLocal false x bs a rest e = cc

pub lift-IsLocal {ℓ} : {A : Type ℓ} (r : Result A) → IsLocal (lift r)
lift-IsLocal (ok x) bs a rest e = record { front = []; split = cc; again = λ more. cc }
lift-IsLocal (err x) bs a rest e = cc

pub if-IsLocal {ℓ} :
    {A : Type ℓ} (b : Bool) (p q : Parser A) → IsLocal p → IsLocal q → IsLocal (if b then p else q)
if-IsLocal true p q hp hq = hp
if-IsLocal false p q hp hq = hq

module _ {ℓ κ} {A : Type ℓ} {B : Type κ} where
  >>=-eq-ok :
      (p : Parser A) (f : A → Parser B) (bs : List ℕ) {b : B} {rest : List ℕ}
      → (p >>= f) bs ≡ ok (b, rest)
      → (a : A) × (mid : List ℕ) × (p bs ≡ ok (a, mid)) × (f a mid ≡ ok (b, rest))
  >>=-eq-ok p f bs {b} {rest} e = opened (p bs) refl e
    where
      opened :
          (r : Result (A × List ℕ))
          → p bs ≡ r
          → elim r [ ok (a, mid) ↦ f a mid | err x ↦ err x ] ≡ ok (b, rest)
          → (a : A) × (mid : List ℕ) × (p bs ≡ ok (a, mid)) × (f a mid ≡ ok (b, rest))
      opened (ok (a, mid)) q e = (a, mid, q, e)
      opened (err x) q e = cc

  >>=-run :
      (p : Parser A) (f : A → Parser B) (bs : List ℕ) {a : A} {mid : List ℕ}
      → p bs ≡ ok (a, mid)
      → (p >>= f) bs ≡ f a mid
  >>=-run p f bs e = rw (e, ◌>>=◌)

  pub >>=-IsLocal :
      (p : Parser A) (f : A → Parser B) → IsLocal p → ((a : A) → IsLocal (f a)) → IsLocal (p >>= f)
  >>=-IsLocal p f hp hf bs b rest e =
      let (a, mid, e₁, e₂) = >>=-eq-ok p f bs e in
      let first = hp bs a mid e₁ in
      let second = hf a mid b rest e₂ in
      record {
        front = first.front ++ second.front;
        split =
            first.split
            ∙ ap (λ t. first.front ++ t) second.split
            ∙ sym (append_assoc first.front second.front rest);
        again = λ more.
            ap (p >>= f) (append_assoc first.front second.front more)
            ∙ >>=-run p f _ (first.again (second.front ++ more))
            ∙ second.again more;
      }
