-- ===== src/Stack/Start.antt =====
-- What the constructor of `OperandStack` in lib/fizzy/stack.hpp makes.
use fizzy.Common.{
  ℕ, zero, suc, ◌+◌, ◌-◌, ◌≤◌, ◌<◌, ◌≡◌, refl, sym, ap, ◌∙◌, arith, List, [], ◌∷◌, ◌++◌, length,
  length-append, length-replicate, length-take, take, replicate, leb, ◌==◌, true, if◌then◌else◌,
  done,
}
use fizzy.Stack.{OperandStack, small_storage_size, operand_stack}
use fizzy.Stack.Refines.{Represents}
use mathlib.Core.List.{append_assoc, append-nil}

-- The item that keeps the bottom inside of the storage where there are no locals.
abbrev pub padding : ℕ → ℕ
padding num_locals = if num_locals == 0 then 1 else 0

-- The number of items of the storage.
abbrev pub storage_size : ℕ → ℕ → ℕ
storage_size num_locals max_stack_height =
    let required = num_locals + padding num_locals + max_stack_height in
    if leb required small_storage_size then small_storage_size else required

replicate-add : (m n : ℕ) (x : ℕ) → replicate (m + n) x ≡ replicate m x ++ replicate n x
replicate-add zero n x = ap (λ k. replicate k x) (plus_zero n)
  where
    plus_zero : (n : ℕ) → 0 + n ≡ n
    plus_zero n = omega arith
replicate-add (suc m) n x =
    ap (λ k. replicate k x) (plus_suc m n) ∙ ap (λ l. x ∷ l) (replicate-add m n x)
  where
    plus_suc : (m n : ℕ) → suc m + n ≡ suc (m + n)
    plus_suc m n = omega arith

storage_enough : (n h : ℕ) → n + padding n + h ≤ storage_size n h
storage_enough n h = ground arith

le→leb : (a b : ℕ) → a ≤ b → leb a b ≡ true
le→leb a b h = ground arith

padding_positive : (n : ℕ) → 0 < n + padding n
padding_positive n = ground arith

-- What the storage holds beyond the locals.
abbrev pub filler : ℕ → ℕ → ℕ → ℕ
filler junk num_locals max_stack_height =
    if leb (num_locals + padding num_locals + max_stack_height) small_storage_size then junk else 0

-- The arguments, then zeros for the local variables, then, where there is neither, one item that is
-- not used.
abbrev pub initial_locals : ℕ → List ℕ → ℕ → ℕ → List ℕ
initial_locals junk args num_args num_local_variables =
    (take num_args args ++ replicate num_local_variables 0)
    ++ replicate (padding (num_args + num_local_variables)) junk

-- Where enough arguments are given, the constructor of OperandStack makes a storage that
-- represents the arguments followed by zeros for the local variables, one more item where there
-- is neither, no operand, and room for at least the height that was asked for.
pub operand_stack-Represents :
    (junk : ℕ) (args : List ℕ) (num_args num_local_variables max_stack_height : ℕ)
    → num_args ≤ length args
    → (s : OperandStack) × (room : ℕ) × (operand_stack junk args num_args num_local_variables
          max_stack_height
        ≡ done s)
      × (max_stack_height ≤ room)
      × Represents s (record {
        locals =
            initial_locals
              (filler junk (num_args + num_local_variables) max_stack_height)
              args
              num_args
              num_local_variables;
        items = [];
        room = room;
      })
unfolding operand_stack
operand_stack-Represents junk args n m h enough =
    let fill = filler junk (n + m) h in
    let given = take n args ++ replicate m 0 in
    let p = padding (n + m) in
    let room = storage_size (n + m) h - (n + m + p) in
    let fits = storage_enough (n + m) h in
    let all : leb n (length args) ≡ true = le→leb n (length args) enough in
    let number : length given ≡ n + m = omega (
      arith,
      length-append (take n args) (replicate m 0),
      length-take n args enough,
      length-replicate {A = ℕ} m 0,
    ) in
    let locals_number : length (given ++ replicate p fill) ≡ n + m + p =
      omega
        (arith, length-append given (replicate p fill), number, length-replicate {A = ℕ} p fill) in
    let behind : storage_size (n + m) h - (n + m) ≡ p + room = omega (arith, fits) in
    let split : given ++ replicate (storage_size (n + m) h - (n + m)) fill
        ≡ ((given ++ replicate p fill) ++ []) ++ replicate room fill =
      rw (behind, replicate-add p room fill, append-nil (given ++ replicate p fill))
        (sym (append_assoc given (replicate p fill) (replicate room fill))) in
    (
      record {
        storage = given ++ replicate (storage_size (n + m) h - (n + m)) fill;
        bottom = n + m + p;
        top_index = n + m + p - 1;
      },
      room,
      rw all refl,
      omega (arith, fits),
      record {
        spare = replicate room fill;
        layout = split;
        bottom_at = sym locals_number;
        some_locals = omega (arith, locals_number, padding_positive (n + m));
        top_at = omega (arith, locals_number, padding_positive (n + m));
        spare_room = length-replicate {A = ℕ} room fill;
      },
    )
