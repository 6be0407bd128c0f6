-- ===== src/Execute/Operands.antt =====
-- What a numeric instruction of lib/fizzy/execute.cpp does with the operands, by its row in the table
-- of lib/fizzy/instructions.cpp.
use fizzy.Common.{
  ℕ, ◌+◌, ◌-◌, ◌≡◌, refl, subst, arith, List, [], ◌∷◌, ◌++◌, length, All, All-append, some, ◌==◌,
  ==_iff, Bool, true, false, Run, if◌then◌else◌,
}
use fizzy.Stack.{OperandStack}
use fizzy.Stack.Refines.{Represents}
use fizzy.Types.{ValType}
use fizzy.Instructions.{instruction_type}
use fizzy.Execute.{find_case, numeric_cases}
use fizzy.Execute.State.{Platform}
use fizzy.Execute.Operators.Takes.{with_room, Leaves}
use fizzy.Execute.Numeric.Compare.{Row, compare_i32, compare_i64, compare_f32, compare_f64}
use fizzy.Execute.Numeric.Words.{integer_i32, integer_i64}
use fizzy.Execute.Numeric.Fractions.{float_f32, float_f64}
use fizzy.Execute.Numeric.Conversions.{conversions, float_conversions}
use fizzy.Execute.Numeric.Follows.{
  TakesAll, Follows, compare_i32-Follow, compare_i64-Follow, compare_f32-Follow, compare_f64-Follow,
  integer_i32-Follow, integer_i64-Follow, float_f32-Follow, float_f64-Follow, conversions-Follow,
  float_conversions-Follow,
}

-- A property of all cases is one of the case that is found.
find_case-All :
    (P : Row → Type 0) (cases : List Row) (opcode : ℕ) (f : OperandStack → Run OperandStack)
    → All P cases
    → find_case cases opcode ≡ some f
    → P (opcode, f)
find_case-All P [] opcode f all e = cc (e)
find_case-All P ((o, g) ∷ cases) opcode f all e =
    found (o == opcode) refl (find_case-All P cases opcode f all.1) e
  where
    found :
        (test : Bool)
        → (o == opcode) ≡ test
        → (find_case cases opcode ≡ some f → P (opcode, f))
        → (if test then some g else find_case cases opcode) ≡ some f
        → P (opcode, f)
    found true same ih here =
        let p : ◌≡◌ {A = OperandStack → Run OperandStack} g f = cc (here) in
        subst (λ h. P (opcode, h)) p (subst (λ k. P (k, g)) ((==_iff o opcode).0 same) all.0)
    found false other ih later = ih later

numeric_cases-Follow : (p : Platform) → All Follows (numeric_cases p)
unfolding numeric_cases
numeric_cases-Follow p =
    let a = p.single_arithmetic in
    let b = p.double_arithmetic in
    let cases_1 = compare_i32 in
    let follow_2 = All-append Follows cases_1 compare_i64 compare_i32-Follow compare_i64-Follow in
    let cases_2 = cases_1 ++ compare_i64 in
    let follow_3 = All-append Follows cases_2 compare_f32 follow_2 compare_f32-Follow in
    let cases_3 = cases_2 ++ compare_f32 in
    let follow_4 = All-append Follows cases_3 compare_f64 follow_3 compare_f64-Follow in
    let cases_4 = cases_3 ++ compare_f64 in
    let follow_5 =
      All-append Follows cases_4 (integer_i32 p.builtins) follow_4
        (integer_i32-Follow p.builtins) in
    let cases_5 = cases_4 ++ integer_i32 p.builtins in
    let follow_6 =
      All-append Follows cases_5 (integer_i64 p.builtins) follow_5
        (integer_i64-Follow p.builtins) in
    let cases_6 = cases_5 ++ integer_i64 p.builtins in
    let follow_7 = All-append Follows cases_6 (float_f32 a) follow_6 (float_f32-Follow a) in
    let cases_7 = cases_6 ++ float_f32 a in
    let follow_8 = All-append Follows cases_7 (float_f64 b) follow_7 (float_f64-Follow b) in
    let cases_8 = cases_7 ++ float_f64 b in
    let follow_9 = All-append Follows cases_8 conversions follow_8 conversions-Follow in
    let cases_9 = cases_8 ++ conversions in
    All-append Follows cases_9 (float_conversions a b p.demote p.promote) follow_9
      (float_conversions-Follow a b p.demote p.promote)

TakesAll-Leaves :
    (types : List ValType) (f : OperandStack → Run OperandStack) (s : OperandStack)
    (locals operands items : List ℕ) (room : ℕ)
    → TakesAll types f
    → length operands ≡ length types
    → Represents s (with_room locals (operands ++ items) room)
    → Leaves (f s) locals items (room + length types - 1)
TakesAll-Leaves [] f s locals operands items room t n r = absurd t
TakesAll-Leaves (u ∷ v ∷ w ∷ types) f s locals operands items room t n r = absurd t
TakesAll-Leaves (u ∷ []) f s locals [] items room t n r = absurd (omega arith)
TakesAll-Leaves (u ∷ []) f s locals (a ∷ b ∷ more) items room t n r = absurd (omega arith)
TakesAll-Leaves (u ∷ []) f s locals (a ∷ []) items room t n r =
    subst (λ k. Leaves (f s) locals items k) (omega arith) (t s locals items a room r)
TakesAll-Leaves (u ∷ v ∷ []) f s locals [] items room t n r = absurd (omega arith)
TakesAll-Leaves (u ∷ v ∷ []) f s locals (a ∷ []) items room t n r = absurd (omega arith)
TakesAll-Leaves (u ∷ v ∷ []) f s locals (a ∷ b ∷ c ∷ more) items room t n r = absurd (omega arith)
TakesAll-Leaves (u ∷ v ∷ []) f s locals (b ∷ a ∷ []) items room t n r =
    subst (λ k. Leaves (f s) locals items k) (omega arith) (t s locals items b a room r)

-- For each numeric instruction of the interpreter the table of instruction types has one output,
-- and on a stack with as many operands as the table has inputs the instruction traps or replaces
-- them by one operand, and leaves the operands below them and the locals as they were.
pub numeric_cases-Leaves :
    (p : Platform) (opcode : ℕ) (f : OperandStack → Run OperandStack) (s : OperandStack)
    (locals operands items : List ℕ) (room : ℕ)
    → find_case (numeric_cases p) opcode ≡ some f
    → length operands ≡ length (instruction_type opcode).inputs
    → Represents s (with_room locals (operands ++ items) room)
    → (length (instruction_type opcode).outputs ≡ 1)
      × Leaves (f s) locals items (room + length (instruction_type opcode).inputs - 1)
numeric_cases-Leaves p opcode f s locals operands items room e n r =
    let follows = find_case-All Follows (numeric_cases p) opcode f (numeric_cases-Follow p) e in
    (
      follows.1,
      TakesAll-Leaves (instruction_type opcode).inputs f s locals operands items room follows.0 n r,
    )
