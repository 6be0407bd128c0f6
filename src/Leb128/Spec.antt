-- ===== src/Leb128/Spec.antt =====
-- The integers of the WebAssembly binary format as its grammar gives them:
-- uN ::= n:byte ⇒ n                       if n < 2^7 and n < 2^N
--      | n:byte m:u(N-7) ⇒ 2^7 m + (n-2^7)  if n ≥ 2^7 and N > 7
-- sN ::= n:byte ⇒ n                       if n < 2^6 and n < 2^(N-1)
--      | n:byte ⇒ n - 2^7                 if 2^6 ≤ n < 2^7 and n ≥ 2^7 - 2^(N-1)
--      | n:byte m:s(N-7) ⇒ 2^7 m + (n-2^7)  if n ≥ 2^7 and N > 7
-- A signed value is given by its residue modulo 2^N.
use fizzy.Common.{ℕ, ◌+◌, ◌-◌, ◌*◌, ◌^◌, List, [], ◌∷◌, Option, none, some}
use fizzy.Common.{ltb, leb, if◌then◌else◌}
use mathlib.Core.Option

abbrev pub prepend : ℕ → ℕ × List ℕ → ℕ × List ℕ
prepend n (m, rest) = (128 * m + (n - 128), rest)

unfoldable pub read_unsigned : ℕ → List ℕ → Option (ℕ × List ℕ)
read_unsigned N [] = none
read_unsigned N (n ∷ bs) =
    let more = Option.map (prepend n) (read_unsigned (N - 7) bs) in
    if ltb n 128
    then (if ltb n (2 ^ N) then some (n, bs) else none)
    else (if ltb 7 N then more else none)

unfoldable pub read_signed : ℕ → List ℕ → Option (ℕ × List ℕ)
read_signed N [] = none
read_signed N (n ∷ bs) =
    let more = Option.map (prepend n) (read_signed (N - 7) bs) in
    if ltb n 64
    then (if ltb n (2 ^ (N - 1)) then some (n, bs) else none)
    else (if ltb n 128
        then (if leb 128 (n + 2 ^ (N - 1)) then some (n + 2 ^ N - 128, bs) else none)
        else (if ltb 7 N then more else none))
