-- ===== src/Execute/Memory/RoundTrip.antt =====
-- What `load` reads of what `store` of lib/fizzy/execute.cpp wrote.
use fizzy.Common.{
  ℕ, zero, suc, ◌+◌, ◌*◌, ◌/◌, ◌%◌, ◌^◌, ◌≤◌, ◌<◌, ◌≡◌, refl, sym, ap, ◌∙◌, arith, List, ◌++◌,
  length, take, drop, length-splice, take-drop-splice, take-drop-splice_before, drop-splice_after,
  ◌⊎◌, inl, inr,
}
use fizzy.Parser.Basic.{little_endian}
use fizzy.Execute.Memory.{bytes_of, load, store}
use native.Mathlib.Nat.{pow-suc, mod-lt, mod-eq_of_lt, div-add-mod, add-mul-mod_self_right}

pub length-bytes_of : (size value : ℕ) → length (bytes_of size value) ≡ size
unfolding bytes_of
length-bytes_of zero value = refl
length-bytes_of (suc size) value = ap suc (length-bytes_of size (value / 256))

pub power_positive : (n : ℕ) → 0 < 256 ^ n
power_positive zero = omega arith
power_positive (suc n) = omega (arith, pow-suc 256 n, power_positive n)

-- The remainder by a power, digit by digit.
mod_pow_suc :
    (value size : ℕ) → value % 256 + 256 * (value / 256 % 256 ^ size) ≡ value % 256 ^ suc size
mod_pow_suc value size =
    let q = value / 256 in
    let p : 256 ^ suc size ≡ 256 ^ size * 256 = pow-suc 256 size in
    let low : q % 256 ^ size < 256 ^ size = mod-lt q (power_positive size) in
    let fits : value % 256 + 256 * (q % 256 ^ size) < 256 ^ size * 256 = omega (arith, low) in
    let digits : q ≡ q / 256 ^ size * 256 ^ size + q % 256 ^ size =
      omega (arith, div-add-mod q (256 ^ size)) in
    let split : value ≡ value % 256 + 256 * (q % 256 ^ size) + q / 256 ^ size * (256 ^ size * 256) =
      omega (arith, ap (λ (t : ℕ). 256 * t) digits) in
    sym (
      rw p (
        ap (λ (t : ℕ). t % (256 ^ size * 256)) split
        ∙ add-mul-mod_self_right (value % 256 + 256 * (q % 256 ^ size)) (q / 256 ^ size)
            (256 ^ size * 256)
        ∙ mod-eq_of_lt fits))

pub little_endian-bytes_of :
    (size value : ℕ) → little_endian (bytes_of size value) ≡ value % 256 ^ size
unfolding bytes_of little_endian
little_endian-bytes_of zero value = omega arith
little_endian-bytes_of (suc size) value =
    omega (arith, little_endian-bytes_of size (value / 256), mod_pow_suc value size)

pub length-store :
    (memory : List ℕ) (p size value : ℕ)
    → p + size ≤ length memory
    → length (store memory p size value) ≡ length memory
unfolding store
length-store memory p size value h =
    length-splice p size (bytes_of size value) memory (length-bytes_of size value) h

-- The value that was written.
pub load-store_here :
    (memory : List ℕ) (p size value : ℕ)
    → p + size ≤ length memory
    → load size (store memory p size value) p ≡ value % 256 ^ size
unfolding load store
load-store_here memory p size value h =
    ap (λ l. little_endian l)
      (take-drop-splice p size (bytes_of size value) memory (length-bytes_of size value) h)
    ∙ little_endian-bytes_of size value

-- A value that has no byte in common with the one that was written.
pub load-store_apart :
    (memory : List ℕ) (p size value q number : ℕ)
    → p + size ≤ length memory
    → (q + number ≤ p) ⊎ (p + size ≤ q)
    → load number (store memory p size value) q ≡ load number memory q
unfolding load store
load-store_apart memory p size value q number h (inl before) =
    ap (λ l. little_endian l)
      (take-drop-splice_before q number p (bytes_of size value ++ drop (p + size) memory) memory
        before (omega (arith, h)))
load-store_apart memory p size value q number h (inr after) =
    ap (λ l. little_endian (take number l))
      (drop-splice_after p size q (bytes_of size value) memory (length-bytes_of size value) h after)
