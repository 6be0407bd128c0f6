-- ===== src/Common/Runs.antt =====
-- What a step of the interpreter gives: a value, a trap of WebAssembly, or `broken`, where the source
-- runs into a failing `assert` or leaves the memory that it owns.
use mathlib.Core.Bool.{Bool, true, false}
use mathlib.Core.Option.{Option, none, some}

pub data Run {ℓ} (A : Type ℓ) : Type ℓ where
  done : A → Run A
  trapped broken : Run A

infixl 5 ◌then◌
abbrev pub ◌then◌ {ℓ κ} : {A : Type ℓ} {B : Type κ} → Run A → (A → Run B) → Run B
r then f = elim r [ done a ↦ f a | trapped ↦ trapped | broken ↦ broken ]

-- An `assert`, or the condition under which an access is defined.
abbrev pub require {ℓ} : {A : Type ℓ} → Bool → Run A → Run A
require test r = elim test [ true ↦ r | false ↦ broken ]

-- An access that is defined where the item is there.
abbrev pub present {ℓ} : {A : Type ℓ} → Option A → Run A
present o = elim o [ some a ↦ done a | none ↦ broken ]

-- `if (!...) goto trap;`
abbrev pub or_trap {ℓ} : {A : Type ℓ} → Option A → Run A
or_trap o = elim o [ some a ↦ done a | none ↦ trapped ]
