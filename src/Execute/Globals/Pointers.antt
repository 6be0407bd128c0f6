-- ===== src/Execute/Globals/Pointers.antt =====
-- Writes through the pointer of an external global, in lib/fizzy/execute.cpp and
-- lib/fizzy/instantiate.hpp.
use fizzy.Common.{
  ℕ, zero, suc, ◌≡◌, ◌≢◌, refl, ap, ◌∙◌, subst, arith, List, [], ◌∷◌, length, get_elem?, set, ◌==◌,
  ==_iff, ◌⊎◌, inl, inr, Option, some, none, Bool, Bool-cases, true, false, Run, done, trapped,
  broken, ◌then◌, require, present, if◌then◌else◌,
}
use fizzy.Stack.Items.{length-set}
use fizzy.Instance.{
  Instance, Store, get_instance, set_instance, ValuePointer, host_value, global_value, read_value,
  write_value,
}

pub then-done {ℓ κ} :
    {A : Type ℓ} {B : Type κ} (r : Run A) (f : A → Run B) (b : B)
    → (r then f) ≡ done b
    → (a : A) × (r ≡ done a) × (f a ≡ done b)
then-done (done a) f b h = (a, refl, h)
then-done trapped f b h = cc (h)
then-done broken f b h = cc (h)

pub present-done {ℓ} : {A : Type ℓ} (o : Option A) (a : A) → present o ≡ done a → o ≡ some a
present-done none a h = cc (h)
present-done (some b) a h = cc (h)

pub require-done {ℓ} :
    {A : Type ℓ} (test : Bool) (r : Run A) (a : A)
    → require test r ≡ done a
    → (test ≡ true) × (r ≡ done a)
require-done true r a h = (refl, h)
require-done false r a h = cc (h)

pub get_elem?-set {ℓ} :
    {A : Type ℓ} (xs : List A) (i : ℕ) (old v : A)
    → get_elem? xs i ≡ some old
    → get_elem? (set xs i v) i ≡ some v
get_elem?-set [] i old v h = cc (h)
get_elem?-set (x ∷ xs) zero old v h = refl
get_elem?-set (x ∷ xs) (suc i) old v h = get_elem?-set xs i old v h

-- Another item is as it was.
set_cases {ℓ} :
    {A : Type ℓ} (xs : List A) (k i : ℕ) (a v : A)
    → get_elem? xs i ≡ some a
    → ((k ≡ i) × (get_elem? (set xs k v) i ≡ some v)) ⊎ (get_elem? (set xs k v) i ≡ some a)
set_cases [] k i a v h = inr h
set_cases (x ∷ xs) zero zero a v h = inl (refl, refl)
set_cases (x ∷ xs) zero (suc i) a v h = inr h
set_cases (x ∷ xs) (suc k) zero a v h = inr h
set_cases (x ∷ xs) (suc k) (suc i) a v h = elim (set_cases xs k i a v h) [
  | inl (same, e) ↦ inl (ap suc same, e)
  | inr e ↦ inr e
]

-- An instance but for its own globals.
pub record Keeps (before now : Instance) : Type 0 where
  pub same_module : now.module_of ≡ before.module_of
  pub same_imports : now.imported_globals ≡ before.imported_globals
  pub same_number : length now.globals ≡ length before.globals

-- The instance at an index that is written.
pub get_instance-set_instance :
    (store : Store) (k : ℕ) (old new : Instance)
    → get_instance store k ≡ done old
    → get_instance (set_instance store k new) k ≡ done new
get_instance-set_instance store k old new h =
    rw (get_elem?-set store.instances k old new (present-done _ old h)) refl

-- A write of the globals of one instance keeps what it should of each one.
set_instance-Keeps :
    (store : Store) (k i : ℕ) (old before : Instance) (globals : List ℕ)
    → length globals ≡ length old.globals
    → get_instance store k ≡ done old
    → get_instance store i ≡ done before
    → (now : Instance) × (get_instance (set_instance store k (record old { globals = globals })) i
        ≡ done now)
      × Keeps before now
set_instance-Keeps store k i old before globals n h g =
    let new : Instance = record old { globals = globals } in
    elim (set_cases store.instances k i before new (present-done _ before g)) [
      | inr e ↦ (
        before,
        rw e refl,
        record { same_module = refl; same_imports = refl; same_number = refl },
      )
      | inl (same, e) ↦
          let at_i : present (get_elem? store.instances i) ≡ done old =
            subst (λ n. present (get_elem? store.instances n) ≡ done old) same h in
          let equal : old ≡ before = cc (at_i, g) in
          (
            new,
            rw e refl,
            record {
              same_module = ap (λ x. x.module_of) equal;
              same_imports = ap (λ x. x.imported_globals) equal;
              same_number = n ∙ ap (λ x. length x.globals) equal;
            },
          )
    ]

pub write_value-read_value :
    (store : Store) (p : Option ValuePointer) (v : ℕ) (store' : Store)
    → write_value store p v ≡ done store'
    → read_value store' p ≡ done v
unfolding write_value read_value
write_value-read_value store none v store' h = cc (h)
write_value-read_value store (some (host_value i)) v store' h =
    let (old, e, r) = then-done (present (get_elem? store.host_values i)) _ store' h in
    let same : record store { host_values = set store.host_values i v } ≡ store' = cc (r) in
    let here = get_elem?-set store.host_values i old v (present-done _ old e) in
    rw (← same, here) refl
write_value-read_value store (some (global_value i index)) v store' h =
    let (old, e, r) = then-done (get_instance store i) _ store' h in
    let (before, e', r') = then-done (present (get_elem? old.globals index)) _ store' r in
    let new : Instance = record old { globals = set old.globals index v } in
    let same : set_instance store i new ≡ store' = cc (r') in
    let here = get_elem?-set old.globals index before v (present-done _ before e') in
    rw (← same, get_instance-set_instance store i old new e, here) refl

pub write_value-Keeps :
    (store : Store) (p : Option ValuePointer) (v i : ℕ) (instance : Instance) (store' : Store)
    → get_instance store i ≡ done instance
    → write_value store p v ≡ done store'
    → (now : Instance) × (get_instance store' i ≡ done now) × Keeps instance now
unfolding write_value
write_value-Keeps store none v i instance store' g h = cc (h)
write_value-Keeps store (some (host_value k)) v i instance store' g h =
    let (old, e, r) = then-done (present (get_elem? store.host_values k)) _ store' h in
    let same : record store { host_values = set store.host_values k v } ≡ store' = cc (r) in
    (
      instance,
      rw (← same) g,
      record { same_module = refl; same_imports = refl; same_number = refl },
    )
write_value-Keeps store (some (global_value k index)) v i instance store' g h =
    let (old, e, r) = then-done (get_instance store k) _ store' h in
    let (before, e', r') = then-done (present (get_elem? old.globals index)) _ store' r in
    let same : set_instance store k (record old { globals = set old.globals index v }) ≡ store' =
      cc (r') in
    subst (λ s. (now : Instance) × (get_instance s i ≡ done now) × Keeps instance now) same
      (set_instance-Keeps store k i old instance (set old.globals index v)
        (length-set old.globals index v) e g)

get_elem?-set_other {ℓ} :
    {A : Type ℓ} (xs : List A) (i k : ℕ) (v : A) → i ≢ k → get_elem? (set xs i v) k ≡ get_elem? xs k
get_elem?-set_other [] i k v n = refl
get_elem?-set_other (x ∷ xs) zero zero v n = absurd (n refl)
get_elem?-set_other (x ∷ xs) zero (suc k) v n = refl
get_elem?-set_other (x ∷ xs) (suc i) zero v n = refl
get_elem?-set_other (x ∷ xs) (suc i) (suc k) v n = get_elem?-set_other xs i k v (λ e. n (ap suc e))

-- What another pointer points to is as it was.
pub write_value_other :
    (store : Store) (p q : Option ValuePointer) (v : ℕ) (store' : Store)
    → p ≢ q
    → write_value store p v ≡ done store'
    → read_value store' q ≡ read_value store q
unfolding write_value read_value
write_value_other store p none v store' n h = refl
write_value_other store none (some q) v store' n h = cc (h)
write_value_other store (some (host_value i)) (some (host_value k)) v store' n h =
    let (old, e, r) = then-done (present (get_elem? store.host_values i)) _ store' h in
    let same : record store { host_values = set store.host_values i v } ≡ store' = cc (r) in
    rw
      (
        ← same,
        get_elem?-set_other store.host_values i k v (λ e. n (ap (λ m. some (host_value m)) e)),
      )
      refl
write_value_other store (some (host_value i)) (some (global_value k index)) v store' n h =
    let (old, e, r) = then-done (present (get_elem? store.host_values i)) _ store' h in
    let same : record store { host_values = set store.host_values i v } ≡ store' = cc (r) in
    rw (← same) refl
write_value_other store (some (global_value i index)) (some (host_value k)) v store' n h =
    let (old, e, r) = then-done (get_instance store i) _ store' h in
    let (before, e', r') = then-done (present (get_elem? old.globals index)) _ store' r in
    let same : set_instance store i (record old { globals = set old.globals index v }) ≡ store' =
      cc (r') in
    rw (← same) refl
write_value_other store (some (global_value i index)) (some (global_value k other)) v store' n h =
    let (old, e, r) = then-done (get_instance store i) _ store' h in
    let (before, e', r') = then-done (present (get_elem? old.globals index)) _ store' r in
    let new : Instance = record old { globals = set old.globals index v } in
    let same : set_instance store i new ≡ store' = cc (r') in
    elim (Bool-cases (i == k)) [
      | inr different ↦
          rw (← same, get_elem?-set_other store.instances i k new (ground (arith, different))) refl
      | inl equal ↦
          let at : i ≡ k = (==_iff _ _).0 equal in
          let found : get_instance store k ≡ done old =
            subst (λ m. get_instance store m ≡ done old) at e in
          let found' : get_instance (set_instance store i new) k ≡ done new =
            subst (λ m. get_instance (set_instance store i new) m ≡ done new) at
              (get_instance-set_instance store i old new e) in
          let others = get_elem?-set_other old.globals index other v (λ e.
            n (ap (λ m. some (global_value m index)) at ∙ ap (λ m. some (global_value k m)) e)) in
          rw (← same, found', found, others) refl
    ]
