-- ===== src/Instantiate/Built.antt =====
-- What `instantiate` of lib/fizzy/instantiate.cpp establishes, on which the asserts of `execute` rely.
use fizzy.Common.{
  ℕ, ◌+◌, ◌≤◌, ◌≡◌, refl, sym, ap, ◌∙◌, arith, List, [], ◌∷◌, ◌++◌, length, length-append, ltb,
  ltb→le, leb, ◌==◌, not, Option, none, some, Result, ok, err, assert, ◌>>=◌, ◌>>◌,
}
use fizzy.Common.{functions_provided, hard_memory_limit, memory_limit, imported_memory_limit}
use fizzy.Types.{Limits, Table, Memory, Global, FuncType}
use fizzy.Module.{Module}
use fizzy.Instance.{
  ExternalFunction, ExternalTable, ExternalMemory, ExternalGlobal, Instance, Store,
}
use fizzy.Parser.Validate.Checks.{>>-eq-ok}
use fizzy.Execute.State.{Platform}
use fizzy.Common.{check, bad_alloc}
use fizzy.Instantiate.{Provided, match_imports, adjust_limit, target, build_instance}
use fizzy.Instantiate.Matching.{match_imported_functions}
use fizzy.Instantiate.Allocate.{
  allocate_table, allocate_memory, init_globals, eval_constant_expression, above_limit,
  memory_bytes, is_imported_or_constant, data_offsets, element_offsets,
}
use fizzy.Instantiate.Segments.{bound-ok, checked-ok}
use fizzy.Execute.Memory.{max_pages}

match_imported_functions-length :
    (types : List FuncType) (functions : List ExternalFunction)
    → match_imported_functions types functions ≡ ok tt
    → length types ≡ length functions
unfolding match_imported_functions
match_imported_functions-length types functions h =
    let (same, rest) =
      checked-ok (not (length types == length functions))
        (functions_provided (length types) (length functions)) _ tt h in
    ground (arith, same)

init_globals-length :
    (store : Store) (g : List ExternalGlobal) (globals : List ℕ) (gs : List Global)
    (result : List ℕ)
    → init_globals store g globals gs ≡ ok result
    → length result ≡ length globals + length gs
unfolding init_globals
init_globals-length store g globals [] result h =
    let e : globals ≡ result = cc (h) in omega (arith, ap length e)
init_globals-length store g globals (x ∷ gs) result h =
    let eval = eval_constant_expression store x.expression g globals in
    let next : ℕ → Result (List ℕ) = λ value. init_globals store g (globals ++ value ∷ []) gs in
    let (allowed, rest) =
      (>>-eq-ok (assert (is_imported_or_constant x.expression g)) (eval >>= next)).0 h in
    let (value, p, q) = bound-ok eval next result rest in
    omega (
      arith,
      init_globals-length store g (globals ++ value ∷ []) gs result q,
      length-append globals (value ∷ []),
    )

-- What an allocation gives: the store, the pointer and the limits.
abbrev Allocated : Type 0
Allocated = Store × Option ℕ × Limits

abbrev instances_in : Result Allocated → List Instance
instances_in (ok a) = a.0.instances
instances_in (err e) = []

-- What stands behind the assert that there is one at most.
one_item {ℓ κ} :
    {A : Type ℓ} {B : Type κ} (xs : List A) (ys : List B) {r : Result Allocated} {a : Allocated}
    → (assert (leb (length xs + length ys) 1) >> r) ≡ ok a
    → r ≡ ok a
one_item xs ys {r = r} h = ((>>-eq-ok (assert (leb (length xs + length ys) 1)) r).0 h).1

allocate_table-instances :
    (p : Platform) (store : Store) (tables : List Table) (imported : List ExternalTable)
    (a : Allocated)
    → allocate_table p store tables imported ≡ ok a
    → a.0.instances ≡ store.instances
unfolding allocate_table
allocate_table-instances p store (t ∷ ts) imported a h =
    let (stored, made) =
      (>>-eq-ok (check (p.can_allocate_table t.limits.min) bad_alloc) _).0
        (one_item (t ∷ ts) imported h) in
    sym (ap instances_in made)
allocate_table-instances p store [] [] a h =
    sym (ap instances_in (one_item {A = Table} {B = ExternalTable} [] [] h))
allocate_table-instances p store [] (e ∷ es) a h =
    sym (ap instances_in (one_item {A = Table} [] (e ∷ es) h))

allocate_memory-instances :
    (p : Platform) (store : Store) (memories : List Memory) (imported : List ExternalMemory)
    (limit : ℕ) (a : Allocated)
    → allocate_memory p store memories imported limit ≡ ok a
    → (a.0.instances ≡ store.instances) × (limit ≤ max_pages)
unfolding allocate_memory
allocate_memory-instances p store (m ∷ ms) imported limit a h =
    let (low, rest) = checked-ok (ltb max_pages limit) hard_memory_limit _ a h in
    let (fits, checked) =
      checked-ok (above_limit m.limits limit) memory_limit _ a (one_item (m ∷ ms) imported rest) in
    let (stored, made) =
      (>>-eq-ok (check (p.can_resize (memory_bytes m.limits.min)) bad_alloc) _).0 checked in
    (sym (ap instances_in made), ltb→le max_pages limit low)
allocate_memory-instances p store [] (e ∷ es) limit a h =
    let (low, rest) = checked-ok (ltb max_pages limit) hard_memory_limit _ a h in
    let (fits, made) =
      checked-ok (above_limit e.limits limit) imported_memory_limit _ a
        (one_item {A = Memory} [] (e ∷ es) rest) in
    (sym (ap instances_in made), ltb→le max_pages limit low)
allocate_memory-instances p store [] [] limit a h =
    let (low, rest) = checked-ok (ltb max_pages limit) hard_memory_limit _ a h in
    (
      sym (ap instances_in (one_item {A = Memory} {B = ExternalMemory} [] [] rest)),
      ltb→le max_pages limit low,
    )

adjust_limit-le :
    (l : Limits) (limit limit' : ℕ) → adjust_limit l limit ≡ ok limit' → limit' ≤ limit
unfolding adjust_limit
adjust_limit-le l limit limit' h = adjusted l.max h
  where
    adjusted :
        (o : Option ℕ)
        → elim o [ none ↦ ok limit | some m ↦ (assert (leb m limit) >> ok m) ] ≡ ok limit'
        → limit' ≤ limit
    adjusted none e = let same : limit ≡ limit' = cc (e) in omega (arith, same)
    adjusted (some m) e =
        let (test, rest) = (>>-eq-ok (assert (leb m limit)) (ok m)).0 e in
        let same : m ≡ limit' = cc (rest) in ground (arith, same, test)

-- What holds of an instance that `instantiate` has made of a module with what was provided.
pub record IsBuilt (m : Module) (p : Provided) (limit : ℕ) (i : Instance) : Type 0 where
  pub of_module : i.module_of ≡ m
  pub functions_provided_for : length m.imported_function_types ≡ length i.imported_functions
  pub globals_made : length i.globals ≡ length m.globalsec
  pub pages : i.memory_pages_limit ≤ max_pages
  pub pages_below : i.memory_pages_limit ≤ limit
  pub codes : length m.funcsec ≡ length m.codesec

abbrev instances_of_result : Result Store → List Instance
instances_of_result (ok store) = store.instances
instances_of_result (err e) = []

match_imports-lengths :
    (store : Store) (m : Module) (p : Provided)
    → match_imports store m p ≡ ok tt
    → (length m.funcsec ≡ length m.codesec)
      × (length m.imported_function_types ≡ length p.imported_functions)
unfolding match_imports
match_imports-lengths store m p h =
    let (codes, rest) = (>>-eq-ok (assert (length m.funcsec == length m.codesec)) _).0 h in
    let functions = match_imported_functions m.imported_function_types p.imported_functions in
    let (same, others) = (>>-eq-ok functions _).0 rest in
    (
      ground (arith, codes),
      match_imported_functions-length m.imported_function_types p.imported_functions same,
    )

-- Where the part of instantiate before the start function succeeds, the store has the instances
-- it had and one more, and of the new one hold what the asserts of execute rely on: it is an
-- instance of the module, it has as many imported functions as the module imports, as many
-- globals as the module defines, a limit of the memory that is neither above 65536 pages nor
-- above the limit that was given, and the module has as many bodies as functions.
pub build_instance-IsBuilt :
    (platform : Platform) (store : Store) (m : Module) (p : Provided) (limit : ℕ) (store' : Store)
    → build_instance platform store m p limit ≡ ok store'
    → (i : Instance) × (store'.instances ≡ store.instances ++ i ∷ []) × IsBuilt m p limit i
unfolding build_instance
build_instance-IsBuilt platform store m p limit store' h =
    let (matched, r₁) = (>>-eq-ok (match_imports store m p) _).0 h in
    let (codes, functions) = match_imports-lengths store m p matched in
    let (globals, e₂, r₂) =
      bound-ok (init_globals store p.imported_globals [] m.globalsec) _ store' r₁ in
    let (t, e₃, r₃) =
      bound-ok (allocate_table platform store m.tablesec p.imported_tables) _ store' r₂ in
    let (a, e₄, r₄) =
      bound-ok (allocate_memory platform t.0 m.memorysec p.imported_memories limit) _ store' r₃ in
    let (limit', e₅, r₅) = bound-ok (adjust_limit a.2 limit) _ store' r₄ in
    let (bytes, e₆, r₆) = bound-ok (target m.datasec a.0.memories a.1) _ store' r₅ in
    let (offsets, e₇, r₇) =
      bound-ok (data_offsets store p.imported_globals globals (length bytes) m.datasec) _ store'
        r₆ in
    let (elements, e₈, r₈) = bound-ok (target m.elementsec a.0.tables t.1) _ store' r₇ in
    let (others, e₉, r₉) =
      bound-ok (element_offsets store p.imported_globals globals (length elements) m.elementsec) _
        store' r₈ in
    let kept = allocate_table-instances platform store m.tablesec p.imported_tables t e₃ in
    let (kept', low) =
      allocate_memory-instances platform t.0 m.memorysec p.imported_memories limit a e₄ in
    let below = adjust_limit-le a.2 limit limit' e₅ in
    let i : Instance = record {
      module_of = m;
      memory = a.1;
      memory_limits = a.2;
      memory_pages_limit = limit';
      table = t.1;
      table_limits = t.2;
      globals = globals;
      imported_functions = p.imported_functions;
      imported_globals = p.imported_globals;
    } in
    (
      i,
      sym (ap instances_of_result r₉) ∙ ap (λ is. is ++ i ∷ []) (kept' ∙ kept),
      record {
        of_module = refl;
        functions_provided_for = functions;
        globals_made =
            omega (arith, init_globals-length store p.imported_globals [] m.globalsec globals e₂);
        pages = omega (arith, low, below);
        pages_below = below;
        codes = codes;
      },
    )
