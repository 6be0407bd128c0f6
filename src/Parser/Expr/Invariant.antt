-- ===== src/Parser/Expr/Invariant.antt =====
-- The invariant of the loop of `parse_expr` in lib/fizzy/parser_expr.cpp: the frames stand on the
-- operand stack one above the other, and every immediate that is still to be filled lies inside of
-- the code.
use fizzy.Common.{
  ℕ, zero, suc, ◌+◌, ◌/◌, ◌≤◌, ◌≡◌, refl, sym, ap, ◌∙◌, arith, true, ◌||◌, List, [], ◌∷◌, ◌++◌,
  Option, none, some, All, length, get_elem?, set, take, drop, ◌==◌, length-append, length-take,
  length-drop, leb,
}
use fizzy.Instr
use fizzy.Parser.Expr.Stacks.{ControlFrame}
use fizzy.Parser.Expr.State.{ExprState, stored_bytes, store_u32, store_at_all}
use fizzy.Parser.Expr.Yields.{Yields, >>=-Yields, assert-Yields}

-- Each frame begins at or above the one below it, and the top frame at or below the top.
abbrev pub Nested : List ControlFrame → ℕ → Type 0
Nested [] height = Unit {0}
Nested (f ∷ fs) height = (f.parent_stack_height ≤ height) × Nested fs f.parent_stack_height

abbrev pub Fits : ℕ → ℕ → Type 0
Fits size offset = offset + 4 ≤ size

-- The immediates that the end of the frame fills are inside of a code of `size` bytes.
pub record IsPending (size : ℕ) (frame : ControlFrame) : Type 0 where
  pub branches : All (Fits size) frame.br_immediate_offsets
  pub own :
      (frame.instruction == Instr.if_ || frame.instruction == Instr.else_) ≡ true
      → Fits size (frame.code_offset + 1)

pub record IsFramed (s : ExprState) : Type 0 where
  pub nested : Nested s.control_stack (length s.operand_stack)
  pub pending : All (IsPending (length s.instructions)) s.control_stack

pub Fits-grow : {m n : ℕ} (offsets : List ℕ) → m ≤ n → All (Fits m) offsets → All (Fits n) offsets
Fits-grow [] h a = tt
Fits-grow (o ∷ os) h a = (omega arith, Fits-grow os h a.1)

pub IsPending-grow :
    {m n : ℕ} {frame : ControlFrame} → m ≤ n → IsPending m frame → IsPending n frame
IsPending-grow {frame} h p = record {
  branches = Fits-grow frame.br_immediate_offsets h p.branches;
  own = λ e. ground (arith, p.own);
}

pub All-IsPending-grow :
    {m n : ℕ} (frames : List ControlFrame)
    → m ≤ n
    → All (IsPending m) frames
    → All (IsPending n) frames
All-IsPending-grow [] h a = tt
All-IsPending-grow (f ∷ fs) h a = (IsPending-grow h a.0, All-IsPending-grow fs h a.1)

pub length-stored_bytes : (size value : ℕ) → length (stored_bytes size value) ≡ size
unfolding stored_bytes
length-stored_bytes zero value = refl
length-stored_bytes (suc size) value = omega (arith, length-stored_bytes size (value / 256))

pub store_u32-length :
    (offset value : ℕ) (code : List ℕ)
    → Fits (length code) offset
    → Yields (λ stored. length stored ≡ length code) (store_u32 offset value code)
unfolding store_u32
store_u32-length offset value code h =
    assert-Yields (λ stored. length stored ≡ length code) (leb (offset + 4) (length code)) _
      (ground arith)
      (omega (
        arith,
        length-append (take offset code ++ stored_bytes 4 value) (drop (offset + 4) code),
        length-append (take offset code) (stored_bytes 4 value),
        length-take offset code (omega arith),
        length-drop (offset + 4) code,
        length-stored_bytes 4 value,
      ))

pub store_at_all-length :
    (offsets : List ℕ) (value : ℕ) (code : List ℕ)
    → All (Fits (length code)) offsets
    → Yields (λ stored. length stored ≡ length code) (store_at_all offsets value code)
unfolding store_at_all
store_at_all-length [] value code h = refl
store_at_all-length (o ∷ os) value code h =
    >>=-Yields (λ stored. length stored ≡ length code) (λ stored. length stored ≡ length code)
      (store_u32 o value code) (λ stored. store_at_all os value stored)
      (store_u32-length o value code h.0)
      (λ stored e.
        rw e at (store_at_all-length os value stored (Fits-grow os (omega (arith, e)) h.1)))

abbrev parent_of : ControlFrame → Option ControlFrame → ℕ
parent_of other none = other.parent_stack_height
parent_of other (some f) = f.parent_stack_height

-- A frame of the stack, put back with other branches, other code and the same begin.
pub Nested-set :
    (frames : List ControlFrame) (i height : ℕ) (f f' : ControlFrame)
    → get_elem? frames i ≡ some f
    → f'.parent_stack_height ≡ f.parent_stack_height
    → Nested frames height
    → Nested (set frames i f') height
Nested-set [] i height f f' g e n = n
Nested-set (x ∷ xs) zero height f f' g e n =
    let same : f'.parent_stack_height ≡ x.parent_stack_height =
      e ∙ ap (λ o. parent_of x o) (sym g) in
    rw (sym same) at n
Nested-set (x ∷ xs) (suc i) height f f' g e n =
    (n.0, Nested-set xs i x.parent_stack_height f f' g e n.1)
