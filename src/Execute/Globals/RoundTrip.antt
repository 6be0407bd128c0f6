-- ===== src/Execute/Globals/RoundTrip.antt =====
-- Writes and reads of globals, the imported ones through pointers, in lib/fizzy/execute.cpp.
use fizzy.Common.{
  ℕ, zero, suc, ◌+◌, ◌-◌, ◌≡◌, ◌≢◌, refl, ap, arith, ◌<◌, get_elem?-lt, ltb→lt, ltb→le, lt→ltb,
  List, [], ◌∷◌, length, get_elem?, set, ltb, inl, inr, Option, some, none, Bool-cases, true, false,
  done, ◌then◌, require, present, if◌then◌else◌,
}
use fizzy.Stack.Items.{length-set}
use fizzy.Instance.{
  Instance, Store, get_instance, set_instance, ValuePointer, global_value, read_value, write_value,
  ExternalGlobal,
}
use fizzy.Execute.Globals.{get_global, set_global}
use fizzy.Execute.Globals.Pointers.{
  Keeps, then-done, present-done, require-done, get_elem?-set, get_instance-set_instance,
  write_value-read_value, write_value-Keeps, write_value_other,
}

item-bound {ℓ} :
    {A : Type ℓ} (xs : List A) (i : ℕ) (a : A) → get_elem? xs i ≡ some a → i < length xs
item-bound [] i a h = cc (h)
item-bound (x ∷ xs) zero a h = omega arith
item-bound (x ∷ xs) (suc i) a h = omega (arith, item-bound xs i a h)

module _ (store : Store) (i idx value : ℕ) (instance : Instance) (store' : Store)
    (g : get_instance store i ≡ done instance) where
  -- The instance after the write, in which the global has the value.
  abbrev Written : Type 0
  Written =
      (now : Instance) × (get_instance store' i ≡ done now)
      × Keeps instance now
      × (get_global store' now idx ≡ done value)

  imported-Written :
      ltb idx (length instance.imported_globals) ≡ true
      → (present (get_elem? instance.imported_globals idx) then λ global.
          require global.type.is_mutable (write_value store global.value value))
        ≡ done store'
      → Written
  unfolding get_global
  imported-Written outside h =
      let (global, e, r) =
        then-done (present (get_elem? instance.imported_globals idx)) _ store' h in
      let (changes, w) =
        require-done global.type.is_mutable (write_value store global.value value) store' r in
      let (now, found, keeps) = write_value-Keeps store global.value value i instance store' g w in
      let reads = write_value-read_value store global.value value store' w in
      let fits : ltb idx (length instance.imported_globals + length now.globals) ≡ true =
        ground (arith, outside) in
      (now, found, keeps, rw (keeps.same_imports, fits, outside, e) reads)

  own-Written :
      ltb idx (length instance.imported_globals) ≡ false
      → (present (get_elem? instance.module_of.globalsec (idx - length instance.imported_globals))
          then λ global. require global.type.is_mutable (
              require (ltb (idx - length instance.imported_globals) (length instance.globals)) (
                done (
                  set_instance store i (record instance {
                    globals = set instance.globals (idx - length instance.imported_globals) value;
                  })))))
        ≡ done store'
      → Written
  unfolding get_global
  own-Written own h =
      let k = idx - length instance.imported_globals in
      let new : Instance = record instance { globals = set instance.globals k value } in
      let (global, e, r) =
        then-done (present (get_elem? instance.module_of.globalsec k)) _ store' h in
      let (changes, r') = require-done global.type.is_mutable _ store' r in
      let (inside, r'') =
        require-done (ltb k (length instance.globals)) (done (set_instance store i new)) store'
          r' in
      let same : set_instance store i new ≡ store' = cc (r'') in
      let (old, here) = get_elem?-lt instance.globals k (ltb→lt _ _ inside) in
      let defined : ltb k (length instance.module_of.globalsec) ≡ true =
        lt→ltb _ _ (item-bound instance.module_of.globalsec k global (present-done _ global e)) in
      let fits : ltb idx (length instance.imported_globals + length (set instance.globals k value))
          ≡ true =
        lt→ltb _ _
          (omega (arith, ltb→le _ _ own, ltb→lt _ _ inside, length-set instance.globals k value)) in
      (
        new,
        rw (← same) (get_instance-set_instance store i instance new g),
        record {
          same_module = refl;
          same_imports = refl;
          same_number = length-set instance.globals k value;
        },
        rw (fits, own, defined, get_elem?-set instance.globals k old value here) refl,
      )

-- Where a write to a global of an instance succeeds, of its own or an imported one that is
-- written through its pointer, the instance is still in the store afterwards, with its module,
-- its imports and the number of its globals, and reading the same global of it gives the value
-- that was written.
pub set_global-get_global :
    (store : Store) (i idx value : ℕ) (instance : Instance) (store' : Store)
    → get_instance store i ≡ done instance
    → set_global store i instance idx value ≡ done store'
    → (now : Instance) × (get_instance store' i ≡ done now)
      × Keeps instance now
      × (get_global store' now idx ≡ done value)
unfolding set_global
set_global-get_global store i idx value instance store' g h =
    elim (Bool-cases (ltb idx (length instance.imported_globals))) [
      | inl outside ↦ imported-Written store i idx value instance store' g outside (rw outside at h)
      | inr own ↦ own-Written store i idx value instance store' g own (rw own at h)
    ]

abbrev pointer_of : Option ExternalGlobal → Option ValuePointer
pointer_of none = none
pointer_of (some global) = global.value

-- Where the global of the instance with number `i` stands; two indices may have one place.
abbrev pub place_of_global : ℕ → Instance → ℕ → Option ValuePointer
place_of_global i instance idx =
    let imported = length instance.imported_globals in
    if ltb idx imported
    then pointer_of (get_elem? instance.imported_globals idx)
    else some (global_value i (idx - imported))

set_global-write_value :
    (store : Store) (i idx value : ℕ) (instance : Instance) (store' : Store)
    → get_instance store i ≡ done instance
    → set_global store i instance idx value ≡ done store'
    → write_value store (place_of_global i instance idx) value ≡ done store'
unfolding set_global write_value
set_global-write_value store i idx value instance store' g h =
    let k = idx - length instance.imported_globals in
    elim (Bool-cases (ltb idx (length instance.imported_globals))) [
      | inl outside ↦
          let (global, e, r) =
            then-done (present (get_elem? instance.imported_globals idx)) _ store'
              (rw outside at h) in
          let (changes, w) =
            require-done global.type.is_mutable (write_value store global.value value) store' r in
          rw (outside, present-done _ global e) w
      | inr own ↦
          let (global, e, r) =
            then-done (present (get_elem? instance.module_of.globalsec k)) _ store' (rw own at h) in
          let (changes, r') = require-done global.type.is_mutable _ store' r in
          let (inside, w) = require-done (ltb k (length instance.globals)) _ store' r' in
          let (old, here) = get_elem?-lt instance.globals k (ltb→lt _ _ inside) in
          rw (own, g, here) w
    ]

-- Where a write to a global of an instance succeeds, reading another global of the instance
-- afterwards gives what it gave before, where the two do not stand at the same place: imported
-- globals stand where their pointers say, which may be a global of this or another instance, and
-- the others in the instance itself.
pub set_global_other :
    (store : Store) (i idx other value : ℕ) (instance : Instance) (store' : Store)
    → get_instance store i ≡ done instance
    → set_global store i instance idx value ≡ done store'
    → place_of_global i instance idx ≢ place_of_global i instance other
    → (now : Instance) × (get_instance store' i ≡ done now)
      × Keeps instance now
      × (get_global store' now other ≡ get_global store instance other)
unfolding get_global read_value
set_global_other store i idx other value instance store' g h n =
    let p = place_of_global i instance idx in
    let w = set_global-write_value store i idx value instance store' g h in
    let (now, found, keeps) = write_value-Keeps store p value i instance store' g w in
    let k = other - length instance.imported_globals in
    let imports = instance.imported_globals in
    elim (Bool-cases (ltb other (length instance.imported_globals))) [
      | inl outside ↦
          let n' : p ≢ pointer_of (get_elem? imports other) = rw outside at n in
          (
            now,
            found,
            keeps,
            rw (keeps.same_imports, keeps.same_number, outside)
                (ap (λ r. require (ltb other (length imports + length instance.globals)) r)
                  (read_imported (get_elem? imports other) n')),
          )
      | inr own ↦
          let n' : p ≢ some (global_value i k) = rw own at n in
          let same = write_value_other store p (some (global_value i k)) value store' n' w in
          let kept : present (get_elem? now.globals k) ≡ present (get_elem? instance.globals k) =
            rw (found, g) at same in
          (
            now,
            found,
            keeps,
            rw (keeps.same_imports, keeps.same_number, keeps.same_module, own, kept) refl,
          )
    ]
  where
    read_imported :
        (o : Option ExternalGlobal)
        → place_of_global i instance idx ≢ pointer_of o
        → (present o then λ global. read_value store' global.value)
          ≡ (present o then λ global. read_value store global.value)
    read_imported none n' = refl
    read_imported (some global) n' =
        write_value_other store (place_of_global i instance idx) global.value value store' n'
          (set_global-write_value store i idx value instance store' g h)
