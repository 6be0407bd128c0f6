-- ===== src/Instantiate/Segments.antt =====
-- The data segments that `instantiate` of lib/fizzy/instantiate.cpp copies into the memory.
use fizzy.Common.{
  ℕ, ◌+◌, ◌-◌, ◌%◌, ◌^◌, ◌≤◌, ◌<◌, ◌≡◌, refl, ap, ◌∙◌, subst, arith, List, [], ◌∷◌, length,
  get_elem?, All, ltb, leb, ◌&&◌, Bool, Bool-cases, true, false, Option, Result, ok, err, ◌>>=◌,
  ◌>>◌, if◌then◌else◌, inl, inr, ltb→lt, ltb→le, leb→le, leb→lt, length-splice,
  get_elem?-splice_inside, get_elem?-splice_outside,
}
use fizzy.Common.{data_out_of_bounds}
use fizzy.Types.{Data, ConstantExpression}
use fizzy.Instance.{Store, ExternalGlobal}
use fizzy.Instantiate.Matching.{refuse_if}
use fizzy.Instantiate.Allocate.{
  eval_constant_expression, segment_offset, data_offsets, copy_to, fill_memory,
}

-- The item at an index after a segment, by what stood there.
abbrev pub overwritten {ℓ} : {A : Type ℓ} → List A → ℕ → ℕ → Option A → Option A
overwritten init offset i old =
    if leb offset i && ltb i (offset + length init) then get_elem? init (i - offset) else old

-- After all segments, the later ones over the earlier ones.
abbrev pub last_written : List Data → List ℕ → ℕ → Option ℕ → Option ℕ
last_written (d ∷ ds) (offset ∷ offsets) i old =
    last_written ds offsets i (overwritten d.init offset i old)
last_written [] offsets i old = old
last_written (d ∷ ds) [] i old = old

-- Each segment lies in `n` bytes.
abbrev Fit : ℕ → List Data → List ℕ → Type 0
Fit n [] offsets = Unit {0}
Fit n (d ∷ ds) [] = ⊥
Fit n (d ∷ ds) (offset ∷ offsets) = (offset + length d.init ≤ n) × Fit n ds offsets

pub bound-ok {ℓ κ} :
    {A : Type ℓ} {B : Type κ} (m : Result A) (k : A → Result B) (b : B)
    → (m >>= k) ≡ ok b
    → (a : A) × (m ≡ ok a) × (k a ≡ ok b)
bound-ok (ok a) k b h = (a, refl, h)
bound-ok (err e) k b h = cc (h)

pub checked-ok {ℓ} :
    {B : Type ℓ} (test : Bool) (fault : _) (k : Result B) (b : B)
    → (refuse_if test fault >> k) ≡ ok b
    → (test ≡ false) × (k ≡ ok b)
checked-ok true fault k b h = cc (h)
checked-ok false fault k b h = (refl, h)

pub segment_offset-bound :
    (store : Store) (e : ConstantExpression) (g : List ExternalGlobal) (globals : List ℕ)
    (offset : ℕ)
    → segment_offset store e g globals ≡ ok offset
    → offset < 2 ^ 32
segment_offset-bound store e g globals offset h =
    let (value, p, q) = bound-ok (eval_constant_expression store e g globals) _ offset h in
    let same : value % 2 ^ 32 ≡ offset = cc (q) in omega (arith, same)

data_offsets-Fit :
    (store : Store) (g : List ExternalGlobal) (globals : List ℕ) (n : ℕ) (ds : List Data)
    (offsets : List ℕ)
    → All (λ d. length d.init < 2 ^ 32) ds
    → data_offsets store g globals n ds ≡ ok offsets
    → Fit n ds offsets
unfolding data_offsets
data_offsets-Fit store g globals n [] offsets small h = tt
data_offsets-Fit store g globals n (d ∷ ds) offsets small h =
    let (offset, p, q) = bound-ok (segment_offset store d.offset g globals) _ offsets h in
    let low = segment_offset-bound store d.offset g globals offset p in
    let (inside, rest) =
      checked-ok (ltb n ((offset + length d.init) % 2 ^ 64)) data_out_of_bounds _ offsets q in
    let (others, r, last) = bound-ok (data_offsets store g globals n ds) _ offsets rest in
    let same : offset ∷ others ≡ offsets = cc (last) in
    let exact : (offset + length d.init) % 2 ^ 64 ≡ offset + length d.init =
      omega (arith, low, small.0) in
    subst (λ os. Fit n (d ∷ ds) os) same
      (
        omega (arith, exact, ltb→le _ _ inside),
        data_offsets-Fit store g globals n ds others small.1 r,
      )

pub get_elem?-copy_to {ℓ} :
    {A : Type ℓ} (init : List A) (offset i : ℕ) (bytes : List A)
    → offset + length init ≤ length bytes
    → get_elem? (copy_to init offset bytes) i ≡ overwritten init offset i (get_elem? bytes i)
unfolding copy_to
get_elem?-copy_to init offset i bytes h = elim (Bool-cases (leb offset i)) [
  | inr low ↦
      rw low
        (get_elem?-splice_outside offset (length init) i init bytes refl h (inl (leb→lt _ _ low)))
  | inl from ↦ elim (Bool-cases (ltb i (offset + length init))) [
    | inl inside ↦
        rw (from, inside)
          (get_elem?-splice_inside offset (length init) i init bytes refl h (leb→le _ _ from)
            (ltb→lt _ _ inside))
    | inr high ↦
        rw (from, high)
          (get_elem?-splice_outside offset (length init) i init bytes refl h
            (inr (ltb→le _ _ high)))
  ]
]

pub length-copy_to {ℓ} :
    {A : Type ℓ} (init : List A) (offset : ℕ) (bytes : List A)
    → offset + length init ≤ length bytes
    → length (copy_to init offset bytes) ≡ length bytes
unfolding copy_to
length-copy_to init offset bytes h = length-splice offset (length init) init bytes refl h

fill_memory-Fit :
    (ds : List Data) (offsets bytes : List ℕ) (i : ℕ)
    → Fit (length bytes) ds offsets
    → (length (fill_memory ds offsets bytes) ≡ length bytes)
      × (get_elem? (fill_memory ds offsets bytes) i ≡ last_written ds offsets i (get_elem? bytes i))
unfolding fill_memory
fill_memory-Fit [] offsets bytes i fit = (refl, refl)
fill_memory-Fit (d ∷ ds) [] bytes i fit = absurd fit
fill_memory-Fit (d ∷ ds) (offset ∷ offsets) bytes i (fit, rest) =
    let same = length-copy_to d.init offset bytes fit in
    let ih = fill_memory-Fit ds offsets (copy_to d.init offset bytes) i (rw same rest) in
    (
      ih.0 ∙ same,
      ih.1 ∙ ap (λ o. last_written ds offsets i o) (get_elem?-copy_to d.init offset i bytes fit),
    )

-- Where the data segments, each shorter than 2 ^ 32 bytes, pass the check of their bounds against
-- a memory, copying them in their order keeps the size of the memory, and at each address there
-- is then the byte of the last segment that covers the address, or the byte that was there where
-- none does.
pub fill_memory-last_written :
    (store : Store) (imported_globals : List ExternalGlobal) (globals : List ℕ) (ds : List Data)
    (offsets bytes : List ℕ) (i : ℕ)
    → All (λ d. length d.init < 2 ^ 32) ds
    → data_offsets store imported_globals globals (length bytes) ds ≡ ok offsets
    → (length (fill_memory ds offsets bytes) ≡ length bytes)
      × (get_elem? (fill_memory ds offsets bytes) i ≡ last_written ds offsets i (get_elem? bytes i))
fill_memory-last_written store imported_globals globals ds offsets bytes i small h =
    fill_memory-Fit ds offsets bytes i
      (data_offsets-Fit store imported_globals globals (length bytes) ds offsets small h)
