-- ===== src/Execute/Memory/Grow.antt =====
-- `grow_memory` of lib/fizzy/execute.cpp.
use fizzy.Common.{
  ℕ, ◌+◌, ◌-◌, ◌*◌, ◌/◌, ◌%◌, ◌^◌, ◌≤◌, ◌<◌, ◌≡◌, refl, arith, List, ◌++◌, length, ltb, ltb→lt,
  ltb→le, leb, ◌==◌, ◌||◌, ==_iff, Bool, Bool-cases, true, false, ◌⊎◌, inl, inr, Run, done,
  replicate, length-append, length-replicate,
}
use fizzy.Execute.Memory.{grow_memory, failure}
use mathlib.Core.List.{append-nil}

-- Whole pages, no more than the limit, which is below the 65536 pages at which an `assert` of
-- `grow_memory` fails.
pub record IsPaged (memory : List ℕ) (limit : ℕ) : Type 0 where
  pub whole : length memory % 65536 ≡ 0
  pub within : length memory / 65536 ≤ limit
  pub limit_bound : limit < 65536

module _ (can_resize : ℕ → Bool) (memory : List ℕ) (delta_pages limit : ℕ) where
  abbrev cur_pages : ℕ
  cur_pages = length memory / 65536

  -- What the result means: the pages that were asked for, or a failure with its reason.
  abbrev pub Grown : ℕ → ℕ → Type 0
  Grown pages more =
      ((pages ≡ cur_pages) × (more ≡ delta_pages * 65536))
      ⊎ ((pages ≡ failure)
          × (more ≡ 0)
          × ((limit < cur_pages + delta_pages)
              ⊎ ((0 < delta_pages) × (can_resize ((cur_pages + delta_pages) * 65536) ≡ false))))

  abbrev pub GrowsTo : Run (ℕ × List ℕ) → Type 0
  GrowsTo r =
      (pages : ℕ) × (more : ℕ) × (r ≡ done (pages, memory ++ replicate more 0))
      × IsPaged (memory ++ replicate more 0) limit
      × Grown pages more

  fails :
      {r : Run (ℕ × List ℕ)}
      → IsPaged memory limit
      → r ≡ done (failure, memory)
      → (limit < cur_pages + delta_pages)
        ⊎ ((0 < delta_pages) × (can_resize ((cur_pages + delta_pages) * 65536) ≡ false))
      → GrowsTo r
  fails h e why =
      (failure, 0, rw (append-nil memory) e, rw (append-nil memory) h, inr (refl, refl, why))

  grows :
      {r : Run (ℕ × List ℕ)}
      → IsPaged memory limit
      → cur_pages + delta_pages ≤ limit
      → r ≡ done (cur_pages, memory ++ replicate (delta_pages * 65536) 0)
      → GrowsTo r
  grows h b e =
      let number : length (memory ++ replicate (delta_pages * 65536) 0)
          ≡ length memory + delta_pages * 65536 =
        omega (
          arith,
          length-append memory (replicate (delta_pages * 65536) 0),
          length-replicate {A = ℕ} (delta_pages * 65536) 0,
        ) in
      (
        cur_pages,
        delta_pages * 65536,
        e,
        record {
          whole = omega (arith, number, h.whole);
          within = omega (arith, number, b, h.whole);
          limit_bound = h.limit_bound;
        },
        inl (refl, refl),
      )

  -- A resize is refused only where it is one.
  refused : (can : Bool) → (delta_pages == 0 || can) ≡ false → (0 < delta_pages) × (can ≡ false)
  refused can e = ground (arith, e)

  -- On a memory of whole pages within a limit below 65536 pages, growing by any 32-bit number of
  -- pages keeps the memory in whole pages within the limit and keeps its bytes; it returns the
  -- number of pages before and appends that many pages of zeros, or it returns 2 ^ 32 - 1 and
  -- appends nothing where the limit would be passed or the host has no storage.
  pub grow_memory-IsPaged :
      IsPaged memory limit
      → delta_pages < 2 ^ 32
      → GrowsTo (grow_memory can_resize memory delta_pages limit)
  unfolding grow_memory
  grow_memory-IsPaged h d =
      let exact : (cur_pages + delta_pages) % 2 ^ 64 ≡ cur_pages + delta_pages =
        omega (arith, h.within, h.limit_bound, d) in
      let whole : (length memory % 65536 == 0) ≡ true = (==_iff _ _).1 h.whole in
      let allowed : leb limit 65536 ≡ true = ground (arith, h.limit_bound) in
      let fits : leb cur_pages limit ≡ true = ground (arith, h.within) in
      elim (Bool-cases (ltb limit (cur_pages + delta_pages))) [
        | inl above ↦
            fails h (rw (whole, allowed, fits, exact, above) refl) (inl (ltb→lt _ _ above))
        | inr inside ↦
            let b = ltb→le limit (cur_pages + delta_pages) inside in
            let small : leb ((cur_pages + delta_pages) * 65536 % 2 ^ 64) (2 ^ 32 - 1) ≡ true =
              ground (arith, b, h.limit_bound) in
            let more : (cur_pages + delta_pages) * 65536 - length memory ≡ delta_pages * 65536 =
              omega (arith, h.whole) in
            elim (Bool-cases (delta_pages == 0 || can_resize ((cur_pages + delta_pages) * 65536))) [
              | inl can ↦
                  grows h b (rw (whole, allowed, fits, exact, inside, small, can, more) refl)
              | inr cannot ↦
                  fails h (rw (whole, allowed, fits, exact, inside, small, cannot) refl)
                    (inr (refused (can_resize ((cur_pages + delta_pages) * 65536)) cannot))
            ]
      ]
