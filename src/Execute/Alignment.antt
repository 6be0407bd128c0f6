-- ===== src/Execute/Alignment.antt =====
-- The table of maximal alignments of lib/fizzy/instructions.cpp, and the bytes that the loads and the
-- stores of lib/fizzy/execute.cpp read and write.
use fizzy.Common.{
  ℕ, ◌^◌, ◌<◌, ◌≡◌, refl, Option, none, some, Bool, true, ◌==◌, ==_iff, holds_below, holds_below-at,
}
use fizzy.Instructions.{instruction_max_align}
use fizzy.Execute.{find_case}
use fizzy.Execute.Numeric.Accesses.{Access, load_cases, store_cases}

-- The bytes of the access that the interpreter makes for an opcode, where it makes one.
abbrev pub accessed_bytes : ℕ → Option ℕ
accessed_bytes opcode = elim (find_case {A = Access} load_cases opcode) [
  | some (number, extended) ↦ some number
  | none ↦ find_case store_cases opcode
]

abbrev pub HasAlignment : ℕ → Option ℕ → Type 0
HasAlignment align none = align ≡ 0
HasAlignment align (some bytes) = 2 ^ align ≡ bytes

abbrev has_alignment : ℕ → Option ℕ → Bool
has_alignment align none = align == 0
has_alignment align (some bytes) = 2 ^ align == bytes

has_alignment-HasAlignment :
    (align : ℕ) (bytes : Option ℕ) → has_alignment align bytes ≡ true → HasAlignment align bytes
has_alignment-HasAlignment align none e = (==_iff _ _).0 e
has_alignment-HasAlignment align (some bytes) e = (==_iff _ _).0 e

-- For every opcode, the table of maximal alignments agrees with the loads and stores of the
-- interpreter: where the interpreter reads or writes the memory, two to the power of the row is
-- the number of bytes that it reads or writes, and where it does not, the row is zero.
pub max_align-HasAlignment :
    (opcode : ℕ)
    → opcode < 256
    → HasAlignment (instruction_max_align opcode) (accessed_bytes opcode)
unfolding instruction_max_align holds_below load_cases
max_align-HasAlignment opcode b =
    has_alignment-HasAlignment (instruction_max_align opcode) (accessed_bytes opcode) (
      holds_below-at (λ n. has_alignment (instruction_max_align n) (accessed_bytes n)) 256 opcode b
        refl)
