-- ===== src/Parser/Sections/Total.antt =====
-- The loop over the sections in lib/fizzy/parser.cpp ends on every input: each round moves forward.
use fizzy.Common.{
  ℕ, zero, suc, ◌≤◌, ◌≡◌, ◌≢◌, refl, ap, arith, List, [], ◌∷◌, none, some, Result, ok, err, Error,
  Bool, true, false, if◌then◌else◌,
}
use fizzy.Common.{ltb, ◌==◌, length, take, drop, length-append, length-drop, Bool-cases, inl, inr}
use fizzy.Parser.Monad.{Parser, ◌>>=◌, return, throw}
use fizzy.Parser.Basic.{parse_u32, parse_vec, parse_string}
use fizzy.Parser.Sections.{
  Sections, parse_custom, parse_section, at_section_end, sized_section, section_body, sections_loop,
  parse_sections, start, same_bytes, wasm_prefix,
}
use fizzy.Parser.Local.{IsLocal, return-IsLocal, ensure-IsLocal}
use fizzy.Parser.Local.Basic.{parse_u32-IsLocal, parse_vec-IsLocal}
use fizzy.Parser.Local.Entries.{
  parse_functype-IsLocal, parse_import-IsLocal, parse_table-IsLocal, parse_memory-IsLocal,
  parse_global-IsLocal, parse_export-IsLocal, parse_element-IsLocal, parse_code_view-IsLocal,
  parse_data-IsLocal,
}

-- A parser that never moves back.
abbrev pub Advances : {A : Type 0} → Parser A → Type 0
Advances {A} p =
    (bs : List ℕ) (a : A) (rest : List ℕ) → p bs ≡ ok (a, rest) → length rest ≤ length bs

local-Advances : {A : Type 0} (p : Parser A) → IsLocal p → Advances p
local-Advances p h bs a rest e =
    let r = h bs a rest e in omega (arith, ap length r.split, length-append r.front rest)

throw-Advances : {A : Type 0} (x : Error) → Advances {A = A} (throw x)
throw-Advances x bs a rest e = cc

if-Advances :
    {A : Type 0} (b : Bool) (p q : Parser A)
    → Advances p
    → Advances q
    → Advances (if b then p else q)
if-Advances true p q hp hq = hp
if-Advances false p q hp hq = hq

>>=-Advances :
    {A B : Type 0} (p : Parser A) (f : A → Parser B)
    → Advances p
    → ((a : A) → Advances (f a))
    → Advances (p >>= f)
>>=-Advances {A} {B} p f hp hf bs b rest e = opened (p bs) refl e
  where
    opened :
        (r : Result (A × List ℕ))
        → p bs ≡ r
        → elim r [ ok (a, mid) ↦ f a mid | err x ↦ err x ] ≡ ok (b, rest)
        → length rest ≤ length bs
    opened (ok (a, mid)) q e = omega (arith, hp bs a mid q, hf a mid b rest e)
    opened (err x) q e = cc

-- A parser, and then a step that reads nothing.
then-Advances :
    {A B : Type 0} (p : Parser A) (f : A → B) → Advances p → Advances (do v ← p; return (f v))
then-Advances p f hp =
    >>=-Advances p (λ v. return (f v)) hp (λ v. local-Advances _ (return-IsLocal (f v)))

parse_custom-Advances : (size : ℕ) → Advances (parse_custom size)
unfolding parse_custom
parse_custom-Advances size bs a rest e = opened (parse_string (take size bs)) e
  where
    opened :
        (r : Result (List ℕ × List ℕ))
        → ◌≡◌ {A = Result (Unit {0} × List ℕ)}
            (elim r [ ok (name, mid) ↦ ok (tt, drop size bs) | err x ↦ err x ])
            (ok (a, rest))
        → length rest ≤ length bs
    opened (ok (name, mid)) e =
        let same : drop size bs ≡ rest = cc in omega (arith, length-drop size bs, ap length same)
    opened (err x) e = cc

vec-Advances : {A : Type 0} (p : Parser A) → IsLocal p → Advances (parse_vec p)
vec-Advances p h = local-Advances (parse_vec p) (parse_vec-IsLocal p h)

parse_section-Advances : (id size : ℕ) (s : Sections) → Advances (parse_section id size s)
unfolding parse_section
parse_section-Advances id size s =
    if-Advances (id == 1) _ _ (then-Advances _ _ (vec-Advances _ parse_functype-IsLocal)) (
      if-Advances (id == 2) _ _ (then-Advances _ _ (vec-Advances _ parse_import-IsLocal)) (
        if-Advances (id == 3) _ _ (then-Advances _ _ (vec-Advances _ parse_u32-IsLocal)) (
          if-Advances (id == 4) _ _ (then-Advances _ _ (vec-Advances _ parse_table-IsLocal)) (
            if-Advances (id == 5) _ _ (then-Advances _ _ (vec-Advances _ parse_memory-IsLocal)) (
              if-Advances (id == 6) _ _ (then-Advances _ _ (vec-Advances _ parse_global-IsLocal)) (
                if-Advances (id == 7) _ _ (then-Advances _ _ (vec-Advances _ parse_export-IsLocal))
                  (if-Advances (id == 8) _ _
                    (then-Advances _ _ (local-Advances _ parse_u32-IsLocal))
                    (if-Advances (id == 9) _ _
                      (then-Advances _ _ (vec-Advances _ parse_element-IsLocal))
                      (if-Advances (id == 10) _ _
                        (then-Advances _ _ (vec-Advances _ parse_code_view-IsLocal))
                        (if-Advances (id == 11) _ _
                          (then-Advances _ _ (vec-Advances _ parse_data-IsLocal))
                          (if-Advances (id == 0) _ _
                            (then-Advances _ _ (parse_custom-Advances size))
                            (throw-Advances _))))))))))))

sized_section-Advances : (id : ℕ) (s : Sections) (size : ℕ) → Advances (sized_section id s size)
unfolding sized_section
sized_section-Advances id s size bs a rest e = elim (Bool-cases (ltb (length bs) size)) [
  | inl short ↦ cc (rw (short, sized_section) at e)
  | inr long ↦ opened (parse_section id size s bs) refl (rw (long, sized_section) at e)
]
  where
    opened :
        (r : Result (Sections × List ℕ))
        → parse_section id size s bs ≡ r
        → elim r [ ok (s', after) ↦ at_section_end id size bs after s' | err x ↦ err x ]
          ≡ ok (a, rest)
        → length rest ≤ length bs
    opened (ok (s', after)) q e = ground (arith, parse_section-Advances id size s bs s' after q)
    opened (err x) q e = cc

-- A section leaves no more than it found.
section_body-Advances : (id : ℕ) (s : Sections) → Advances (section_body id s)
unfolding section_body
section_body-Advances id s = >>=-Advances _ _ (local-Advances _ (ensure-IsLocal _ _)) λ _.
    >>=-Advances parse_u32 _ (local-Advances parse_u32 parse_u32-IsLocal)
      λ size. sized_section-Advances id _ size

sections_loop-total :
    (fuel : ℕ) (s : Sections) (bs : List ℕ) → length bs ≤ fuel → sections_loop fuel s bs ≢ none
unfolding sections_loop
sections_loop-total fuel s [] h = λ e. cc
sections_loop-total zero s (id ∷ bs) h = absurd (omega arith)
sections_loop-total (suc fuel) s (id ∷ bs) h =
    goes_on (section_body id s bs) refl (λ s' rest short. sections_loop-total fuel s' rest short)
  where
    goes_on :
        (r : Result (Sections × List ℕ))
        → section_body id s bs ≡ r
        → ((s' : Sections) (rest : List ℕ) → length rest ≤ fuel → sections_loop fuel s' rest ≢ none)
        → elim r [ err e ↦ some (err e) | ok (s', rest) ↦ sections_loop fuel s' rest ] ≢ none
    goes_on (ok (s', rest)) q ih =
        ih s' rest (omega (arith, section_body-Advances id s bs s' rest q))
    goes_on (err x) q ih = λ e. cc

-- The loop over the sections ends on every input: it is never stopped by the fuel of its model,
-- since each round takes a byte or more.
pub parse_sections-total : (input : List ℕ) → parse_sections input ≢ none
unfolding parse_sections
parse_sections-total input = elim (Bool-cases (same_bytes (take 8 input) wasm_prefix)) [
  | inl good ↦
      rw good (sections_loop-total (length (drop 8 input)) start (drop 8 input) (omega arith))
  | inr bad ↦ rw bad (λ e. cc)
]
