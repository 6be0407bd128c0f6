-- ===== src/Common/Splice.antt =====
-- A block of a list that is written over.
use Prim.Native.Nat.{ℕ, zero, suc, ◌+◌, ◌-◌, ◌≤◌, ◌<◌}
use mathlib.Core.Path.{◌≡◌, refl, sym, ap, ◌∙◌}
use mathlib.Core.List.{List, [], ◌∷◌, ◌++◌}
use native.Mathlib.Omega.{arith}
use mathlib.Core.Logic.{◌⊎◌}
use fizzy.Common.Lists.{
  get_elem?, length, take, drop, length-append, length-take, length-drop, take-append_of_length,
  drop-append_of_length,
}

module _ {ℓ} {A : Type ℓ} where
  -- `n` items from the position `p` on are those of `init`.
  abbrev pub splice : ℕ → ℕ → List A → List A → List A
  splice p n init xs = take p xs ++ (init ++ drop (p + n) xs)

  pub length-splice :
      (p n : ℕ) (init xs : List A)
      → length init ≡ n
      → p + n ≤ length xs
      → length (splice p n init xs) ≡ length xs
  length-splice p n init xs e h = omega (
    arith,
    e,
    length-append (take p xs) (init ++ drop (p + n) xs),
    length-append init (drop (p + n) xs),
    length-take p xs (omega (arith, h)),
    length-drop (p + n) xs,
  )

  pub take-drop-splice :
      (p n : ℕ) (init xs : List A)
      → length init ≡ n
      → p + n ≤ length xs
      → take n (drop p (splice p n init xs)) ≡ init
  take-drop-splice p n init xs e h =
      ap (λ l. take n l)
        (drop-append_of_length (take p xs) (init ++ drop (p + n) xs)
          (length-take p xs (omega (arith, h))))
      ∙ take-append_of_length init (drop (p + n) xs) e

  -- What stands before the block.
  pub take-drop-splice_before :
      (q k p : ℕ) (ys xs : List A)
      → q + k ≤ p
      → p ≤ length xs
      → take k (drop q (take p xs ++ ys)) ≡ take k (drop q xs)
  take-drop-splice_before zero zero p ys xs h b = refl
  take-drop-splice_before zero (suc k) zero ys xs h b = absurd (omega arith)
  take-drop-splice_before zero (suc k) (suc p) ys [] h b = absurd (omega arith)
  take-drop-splice_before zero (suc k) (suc p) ys (x ∷ xs) h b =
      ap (λ l. x ∷ l) (take-drop-splice_before zero k p ys xs (omega arith) (omega arith))
  take-drop-splice_before (suc q) k zero ys xs h b = absurd (omega arith)
  take-drop-splice_before (suc q) k (suc p) ys [] h b = absurd (omega arith)
  take-drop-splice_before (suc q) k (suc p) ys (x ∷ xs) h b =
      take-drop-splice_before q k p ys xs (omega arith) (omega arith)

  drop-drop : (m n : ℕ) (xs : List A) → drop m (drop n xs) ≡ drop (n + m) xs
  drop-drop m zero xs = ap (λ k. drop k xs) (plus m)
    where
      plus : (m : ℕ) → m ≡ 0 + m
      plus m = omega arith
  drop-drop m (suc n) [] = rw (nothing m) (ap (λ k. drop k []) (swap m n))
    where
      nothing : (m : ℕ) → drop {A = A} m [] ≡ []
      nothing zero = refl
      nothing (suc m) = refl

      swap : (m n : ℕ) → suc (n + m) ≡ suc n + m
      swap m n = omega arith
  drop-drop m (suc n) (x ∷ xs) = drop-drop m n xs ∙ ap (λ k. drop k (x ∷ xs)) (swap m n)
    where
      swap : (m n : ℕ) → suc (n + m) ≡ suc n + m
      swap m n = omega arith

  drop_past : (xs ys : List A) (n k : ℕ) → length xs ≡ n → drop (n + k) (xs ++ ys) ≡ drop k ys
  drop_past xs ys n k e =
      sym (drop-drop k n (xs ++ ys)) ∙ ap (λ l. drop k l) (drop-append_of_length xs ys e)

  -- What stands behind the block.
  pub drop-splice_after :
      (p n q : ℕ) (init xs : List A)
      → length init ≡ n
      → p + n ≤ length xs
      → p + n ≤ q
      → drop q (splice p n init xs) ≡ drop q xs
  drop-splice_after p n q init xs e h b =
      let k = q - (p + n) in
      let at : p + (n + k) ≡ q = omega (arith, b) in
      let same : p + n + k ≡ q = omega (arith, b) in
      ap (λ i. drop i (splice p n init xs)) (sym at)
      ∙ drop_past (take p xs) (init ++ drop (p + n) xs) p (n + k)
          (length-take p xs (omega (arith, h)))
      ∙ drop_past init (drop (p + n) xs) n k e
      ∙ drop-drop k (p + n) xs
      ∙ ap (λ i. drop i xs) same

  get_elem?-append_left :
      (xs ys : List A) (i : ℕ) → i < length xs → get_elem? (xs ++ ys) i ≡ get_elem? xs i
  get_elem?-append_left [] ys i h = absurd (omega (arith, h))
  get_elem?-append_left (x ∷ xs) ys zero h = refl
  get_elem?-append_left (x ∷ xs) ys (suc i) h = get_elem?-append_left xs ys i (omega (arith, h))

  -- An item of the block.
  pub get_elem?-splice_inside :
      (p n i : ℕ) (init xs : List A)
      → length init ≡ n
      → p + n ≤ length xs
      → p ≤ i
      → i < p + n
      → get_elem? (splice p n init xs) i ≡ get_elem? init (i - p)
  get_elem?-splice_inside zero n i init xs e h b t =
      let same : i - 0 ≡ i = omega arith in
      rw same (get_elem?-append_left init (drop (0 + n) xs) i (omega (arith, e, t)))
  get_elem?-splice_inside (suc p) n i init [] e h b t = absurd (omega (arith, h))
  get_elem?-splice_inside (suc p) n zero init (x ∷ xs) e h b t = absurd (omega (arith, b))
  get_elem?-splice_inside (suc p) n (suc i) init (x ∷ xs) e h b t =
      let plus : suc p + n ≡ suc (p + n) = omega arith in
      let minus : suc i - suc p ≡ i - p = omega arith in
      rw (plus, minus)
        (get_elem?-splice_inside p n i init xs e (omega (arith, h)) (omega (arith, b))
          (omega (arith, t)))

  -- Any other item.
  pub get_elem?-splice_outside :
      (p n i : ℕ) (init xs : List A)
      → length init ≡ n
      → p + n ≤ length xs
      → (i < p) ⊎ (p + n ≤ i)
      → get_elem? (splice p n init xs) i ≡ get_elem? xs i
  get_elem?-splice_outside zero n i [] xs e h o =
      let none_of_it : 0 + n ≡ 0 = omega (arith, e) in rw none_of_it refl
  get_elem?-splice_outside zero n i (y ∷ init) [] e h o = absurd (omega (arith, e, h))
  get_elem?-splice_outside zero n zero (y ∷ init) (x ∷ xs) e h o = absurd (ground (arith, e, o))
  get_elem?-splice_outside zero n (suc i) (y ∷ init) (x ∷ xs) e h o =
      let number : 0 + n ≡ suc (0 + (n - 1)) = omega (arith, e) in
      rw number (
        get_elem?-splice_outside zero (n - 1) i init xs (omega (arith, e)) (omega (arith, e, h))
          (ground (arith, e, o)))
  get_elem?-splice_outside (suc p) n i init [] e h o = absurd (omega (arith, h))
  get_elem?-splice_outside (suc p) n zero init (x ∷ xs) e h o = refl
  get_elem?-splice_outside (suc p) n (suc i) init (x ∷ xs) e h o =
      let plus : suc p + n ≡ suc (p + n) = omega arith in
      rw plus (get_elem?-splice_outside p n i init xs e (omega (arith, h)) (ground (arith, o)))
