-- ===== src/Instantiate/Elements.antt =====
-- The element segments that `instantiate` of lib/fizzy/instantiate.cpp copies into the table.
use fizzy.Common.{
  ℕ, suc, ◌+◌, ◌%◌, ◌^◌, ◌≤◌, ◌<◌, ◌≡◌, refl, ap, ◌∙◌, subst, arith, List, [], ◌∷◌, length, map,
  get_elem?, All, ltb, Option, some, ok, ltb→le,
}
use fizzy.Common.{element_out_of_bounds}
use fizzy.Types.{Element}
use fizzy.Instance.{Store, ExternalGlobal, TableElement}
use fizzy.Instantiate.Allocate.{segment_offset, element_offsets, functions_of, copy_to, fill_table}
use fizzy.Instantiate.Segments.{
  overwritten, bound-ok, checked-ok, segment_offset-bound, get_elem?-copy_to, length-copy_to,
}

-- The element for the function with an index in the instance with number `instance`.
abbrev pub element_of : ℕ → ℕ → TableElement
element_of instance idx = record { instance = some instance; func_idx = idx }

-- What stands at `i` after all segments, the later ones over the earlier ones.
abbrev pub last_element : ℕ → List Element → List ℕ → ℕ → Option TableElement → Option TableElement
last_element instance (e ∷ es) (offset ∷ offsets) i old =
    last_element instance es offsets i (overwritten (map (element_of instance) e.init) offset i old)
last_element instance [] offsets i old = old
last_element instance (e ∷ es) [] i old = old

-- Each segment lies in `n` elements.
abbrev FitTable : ℕ → List Element → List ℕ → Type 0
FitTable n [] offsets = Unit {0}
FitTable n (e ∷ es) [] = ⊥
FitTable n (e ∷ es) (offset ∷ offsets) = (offset + length e.init ≤ n) × FitTable n es offsets

element_offsets-FitTable :
    (store : Store) (g : List ExternalGlobal) (globals : List ℕ) (n : ℕ) (es : List Element)
    (offsets : List ℕ)
    → All (λ e. length e.init < 2 ^ 32) es
    → element_offsets store g globals n es ≡ ok offsets
    → FitTable n es offsets
unfolding element_offsets
element_offsets-FitTable store g globals n [] offsets small h = tt
element_offsets-FitTable store g globals n (e ∷ es) offsets small h =
    let (offset, p, q) = bound-ok (segment_offset store e.offset g globals) _ offsets h in
    let low = segment_offset-bound store e.offset g globals offset p in
    let (inside, rest) =
      checked-ok (ltb n ((offset + length e.init) % 2 ^ 64)) element_out_of_bounds _ offsets q in
    let (others, r, last) = bound-ok (element_offsets store g globals n es) _ offsets rest in
    let same : offset ∷ others ≡ offsets = cc (last) in
    let exact : (offset + length e.init) % 2 ^ 64 ≡ offset + length e.init =
      omega (arith, low, small.0) in
    subst (λ os. FitTable n (e ∷ es) os) same
      (
        omega (arith, exact, ltb→le _ _ inside),
        element_offsets-FitTable store g globals n es others small.1 r,
      )

functions_of-map : (i : ℕ) (init : List ℕ) → functions_of i init ≡ map (element_of i) init
functions_of-map i [] = refl
functions_of-map i (idx ∷ init) = ap (λ es. element_of i idx ∷ es) (functions_of-map i init)

length-functions_of : (i : ℕ) (init : List ℕ) → length (functions_of i init) ≡ length init
length-functions_of i [] = refl
length-functions_of i (idx ∷ init) = ap suc (length-functions_of i init)

fill_table-FitTable :
    (instance : ℕ) (es : List Element) (offsets : List ℕ) (elements : List TableElement) (i : ℕ)
    → FitTable (length elements) es offsets
    → (length (fill_table instance es offsets elements) ≡ length elements)
      × (get_elem? (fill_table instance es offsets elements) i
          ≡ last_element instance es offsets i (get_elem? elements i))
unfolding fill_table
fill_table-FitTable instance [] offsets elements i fit = (refl, refl)
fill_table-FitTable instance (e ∷ es) [] elements i fit = absurd fit
fill_table-FitTable instance (e ∷ es) (offset ∷ offsets) elements i (fit, rest) =
    let init = functions_of instance e.init in
    let fits : offset + length init ≤ length elements =
      omega (arith, fit, length-functions_of instance e.init) in
    let same = length-copy_to init offset elements fits in
    let ih =
      fill_table-FitTable instance es offsets (copy_to init offset elements) i (rw same rest) in
    let here : get_elem? (copy_to init offset elements) i
        ≡ overwritten (map (element_of instance) e.init) offset i (get_elem? elements i) =
      get_elem?-copy_to init offset i elements fits
      ∙ ap (λ fs. overwritten fs offset i (get_elem? elements i))
          (functions_of-map instance e.init) in
    (ih.0 ∙ same, ih.1 ∙ ap (λ o. last_element instance es offsets i o) here)

-- Where the element segments, each with fewer than 2 ^ 32 functions, pass the check of their
-- bounds against a table, copying them in their order keeps the size of the table, and at each
-- index there is then the function of the new instance that the last segment that covers the
-- index names, or the element that was there where none does.
pub fill_table-last_element :
    (store : Store) (imported_globals : List ExternalGlobal) (globals : List ℕ) (es : List Element)
    (offsets : List ℕ) (elements : List TableElement) (instance i : ℕ)
    → All (λ e. length e.init < 2 ^ 32) es
    → element_offsets store imported_globals globals (length elements) es ≡ ok offsets
    → (length (fill_table instance es offsets elements) ≡ length elements)
      × (get_elem? (fill_table instance es offsets elements) i
          ≡ last_element instance es offsets i (get_elem? elements i))
fill_table-last_element store imported_globals globals es offsets elements instance i small h =
    fill_table-FitTable instance es offsets elements i
      (element_offsets-FitTable store imported_globals globals (length elements) es offsets small h)
