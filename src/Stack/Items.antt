-- ===== src/Stack/Items.antt =====
-- Items of a list in front of, at, and behind a place.
use fizzy.Common.{
  ℕ, zero, suc, ◌<◌, ◌≡◌, refl, ap, arith, List, [], ◌∷◌, ◌++◌, length, get_elem?, set, some,
}

module _ {ℓ} {A : Type ℓ} where
  pub get_elem?-append_here :
      (xs ys : List A) (y : A) → get_elem? (xs ++ y ∷ ys) (length xs) ≡ some y
  get_elem?-append_here [] ys y = refl
  get_elem?-append_here (x ∷ xs) ys y = get_elem?-append_here xs ys y

  pub set-append_here : (xs ys : List A) (y v : A) → set (xs ++ y ∷ ys) (length xs) v ≡ xs ++ v ∷ ys
  set-append_here [] ys y v = refl
  set-append_here (x ∷ xs) ys y v = ap (λ l. x ∷ l) (set-append_here xs ys y v)

  pub get_elem?-append_front :
      (xs ys : List A) (i : ℕ) → i < length xs → get_elem? (xs ++ ys) i ≡ get_elem? xs i
  get_elem?-append_front [] ys i h = absurd (omega arith)
  get_elem?-append_front (x ∷ xs) ys zero h = refl
  get_elem?-append_front (x ∷ xs) ys (suc i) h = get_elem?-append_front xs ys i (omega arith)

  pub set-append_front :
      (xs ys : List A) (i : ℕ) (v : A) → i < length xs → set (xs ++ ys) i v ≡ set xs i v ++ ys
  set-append_front [] ys i v h = absurd (omega arith)
  set-append_front (x ∷ xs) ys zero v h = refl
  set-append_front (x ∷ xs) ys (suc i) v h =
      ap (λ l. x ∷ l) (set-append_front xs ys i v (omega arith))

  pub length-set : (xs : List A) (i : ℕ) (v : A) → length (set xs i v) ≡ length xs
  length-set [] i v = refl
  length-set (x ∷ xs) zero v = refl
  length-set (x ∷ xs) (suc i) v = ap suc (length-set xs i v)
