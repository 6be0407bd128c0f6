-- ===== src/Instantiate/Bounds.antt =====
-- When `match_limits` of lib/fizzy/instantiate.cpp accepts, and the segments that `instantiate` copies.
use fizzy.Common.{ℕ, ◌≤◌, ◌≡◌, ◌↔◌, arith, Option, none, some, ok}
use fizzy.Types.{Limits}
use fizzy.Instantiate.Matching.{match_limits}

-- The maximum of the one is no higher than that of the other, which has none where it is missing.
abbrev pub IsWithinMax : Option ℕ → Option ℕ → Type 0
IsWithinMax external none = Unit {0}
IsWithinMax none (some m) = ⊥
IsWithinMax (some n) (some m) = n ≤ m

abbrev pub IsBelowMax : ℕ → Option ℕ → Type 0
IsBelowMax n none = Unit {0}
IsBelowMax n (some m) = n ≤ m

-- Provided limits match those of the module exactly when their minimum is no higher than their
-- maximum, no lower than the minimum of the module, and, where the module has a maximum, they
-- have one that is no higher.
pub match_limits_iff :
    (external module_limits : Limits)
    → (match_limits external module_limits ≡ ok tt) ↔ (
        IsBelowMax external.min external.max
        × (module_limits.min ≤ external.min)
        × IsWithinMax external.max module_limits.max)
unfolding match_limits
match_limits_iff external module_limits =
    accepts external.min external.max module_limits.min module_limits.max
  where
    accepts :
        (emin : ℕ) (emax : Option ℕ) (mmin : ℕ) (mmax : Option ℕ)
        → (match_limits (record { min = emin; max = emax }) (record { min = mmin; max = mmax })
            ≡ ok tt)
          ↔ (IsBelowMax emin emax × (mmin ≤ emin) × IsWithinMax emax mmax)
    accepts emin none mmin none = ground arith
    accepts emin none mmin (some m) = ground arith
    accepts emin (some n) mmin none = ground arith
    accepts emin (some n) mmin (some m) = ground arith
