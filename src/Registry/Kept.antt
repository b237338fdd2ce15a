-- ===== src/Registry/Kept.antt =====
-- src/schema_registry.cpp: what `apply_migration` makes of the nodes.
use stratavm.Base.{
  ℕ, ◌≡◌, ◌≢◌, refl, ap, sym, subst, ◌∙◌, Bool, true, false, Bool-cases, inl, inr, if-cases,
  if◌then◌else◌, ◌⊎◌, List, [], ◌∷◌, Option, none, some, Option-cases, leb, ltb, ◌==◌, ◌^◌, ◌/◌,
  ◌%◌, if-both, arith,
}
use stratavm.Base.Maps.{Map, nat_eq, lookup, insert, erase, lookup-insert, lookup-erase}
use stratavm.Status.{Result, ok, fault, ◌>>=◌, inactive_member, bad_conversion}
use stratavm.Format.{ValueType}
use stratavm.Value.{Value}
use stratavm.Node.{Node}
use stratavm.Registry.Conversion.{int_to_double, double_to_int, truncated_magnitude}
use stratavm.Registry.Migration.{
  MigrationKind, FieldMigration, MigrationPlan, as_int, convert, apply_field, apply_fields,
  apply_migration,
}

-- A value for which `P` holds, or a conversion that the standard leaves undefined, where `Q` holds.
pub data Applies {A : Type 0} (Q : Type 0) (P : A → Type 0) : Result A → Type 0 where
  applies : {a : A} → P a → Applies Q P (ok a)
  misreads : Q → Applies Q P (fault inactive_member)
  overflows : Q → Applies Q P (fault bad_conversion)

bind-Applies :
    {A B : Type 0} {O Q : Type 0} {P : A → Type 0} {R : B → Type 0} {m : Result A}
    {f : A → Result B}
    → (O → Q)
    → Applies O P m
    → ((a : A) → P a → Applies Q R (f a))
    → Applies Q R (m >>= f)
bind-Applies w (applies {a = a} p) k = k a p
bind-Applies w (misreads o) k = misreads (w o)
bind-Applies w (overflows o) k = overflows (w o)

map-Applies :
    {A : Type 0} {O Q : Type 0} {P R : A → Type 0} {m : Result A}
    → (O → Q)
    → ((a : A) → P a → R a)
    → Applies O P m
    → Applies Q R m
map-Applies w k (applies {a = a} p) = applies (k a p)
map-Applies w k (misreads o) = misreads (w o)
map-Applies w k (overflows o) = overflows (w o)

-- Another node but for its fields.
abbrev pub IsSame : Node → Node → Type 0
IsSame n m = record m { fields = n.fields } ≡ n

IsSame-trans : (a b c : Node) → IsSame a b → IsSame b c → IsSame a c
IsSame-trans a b c h k = ap {A = Node} {B = Node} (λ n. record n { fields = a.fields }) k ∙ h

-- The changes of type that are casts between int64_t and double.
abbrev pub IsCast : ValueType → ValueType → Type 0
IsCast ValueType.int ValueType.float = Unit
IsCast ValueType.float ValueType.int = Unit
IsCast _ _ = ⊥

-- The changes of type after which the field has a value.
abbrev pub is_converted : ValueType → ValueType → Bool
is_converted ValueType.int ValueType.float = true
is_converted ValueType.float ValueType.int = true
is_converted ValueType.atom ValueType.int = true
is_converted _ _ = false

-- What a field of each type becomes.
pub data Converted : ValueType → ValueType → Value → Value → Type 0 where
  to_float :
      {i : ℕ}
      → Converted ValueType.int ValueType.float (Value.int i) (Value.float (int_to_double i))
  no_number :
      {v : Value}
      → as_int v ≡ ok 0
      → Converted ValueType.int ValueType.float v (Value.float (int_to_double 0))
  to_int :
      {d i : ℕ}
      → double_to_int d ≡ ok i
      → Converted ValueType.float ValueType.int (Value.float d) (Value.int i)
  to_zero : {v : Value} → Converted ValueType.atom ValueType.int v (Value.int 0)
  dropped : {s t : ValueType} {v : Value} → is_converted s t ≡ false → Converted s t v Value.invalid

double_to_int-Applies : (bits : ℕ) → Applies Unit (λ _. Unit) (double_to_int bits)
unfolding double_to_int
double_to_int-Applies bits =
    let a = truncated_magnitude bits in
    if-both (Applies Unit (λ _. Unit)) (leb 1087 (bits / 2 ^ 52 % 2048)) (overflows tt) (
      if-both (Applies Unit (λ _. Unit)) (leb (2 ^ 63) bits)
        (if-both (Applies Unit (λ _. Unit)) (leb a (2 ^ 63)) (applies tt) (overflows tt))
        (if-both (Applies Unit (λ _. Unit)) (ltb a (2 ^ 63)) (applies tt) (overflows tt)))

cast_to_int :
    (d : ℕ) (m : Result ℕ)
    → double_to_int d ≡ m
    → Applies Unit (λ _. Unit) m
    → Applies Unit
        (Converted ValueType.float ValueType.int (Value.float d))
        (m >>= λ i. ok (Value.int i))
cast_to_int d _ e (applies _) = applies (to_int e)
cast_to_int d _ e (misreads _) = misreads tt
cast_to_int d _ e (overflows _) = overflows tt

convert-Applies :
    (s t : ValueType) (v : Value) → Applies (IsCast s t) (Converted s t v) (convert s t v)
unfolding convert
convert-Applies ValueType.int ValueType.float (Value.int i) = applies to_float
convert-Applies ValueType.int ValueType.float (Value.list _) = applies (no_number refl)
convert-Applies ValueType.int ValueType.float Value.invalid = applies (no_number refl)
convert-Applies ValueType.int ValueType.float (Value.float _) = misreads tt
convert-Applies ValueType.int ValueType.float (Value.atom _) = misreads tt
convert-Applies ValueType.int ValueType.float (Value.ref _) = misreads tt
convert-Applies ValueType.float ValueType.int (Value.float d) =
    cast_to_int d (double_to_int d) refl (double_to_int-Applies d)
convert-Applies ValueType.float ValueType.int (Value.list _) = misreads tt
convert-Applies ValueType.float ValueType.int Value.invalid = misreads tt
convert-Applies ValueType.float ValueType.int (Value.int _) = misreads tt
convert-Applies ValueType.float ValueType.int (Value.atom _) = misreads tt
convert-Applies ValueType.float ValueType.int (Value.ref _) = misreads tt
convert-Applies ValueType.atom ValueType.int v = applies to_zero
convert-Applies ValueType.int ValueType.int v = applies (dropped refl)
convert-Applies ValueType.int ValueType.atom v = applies (dropped refl)
convert-Applies ValueType.int ValueType.ref v = applies (dropped refl)
convert-Applies ValueType.int ValueType.list v = applies (dropped refl)
convert-Applies ValueType.int ValueType.invalid v = applies (dropped refl)
convert-Applies ValueType.float ValueType.float v = applies (dropped refl)
convert-Applies ValueType.float ValueType.atom v = applies (dropped refl)
convert-Applies ValueType.float ValueType.ref v = applies (dropped refl)
convert-Applies ValueType.float ValueType.list v = applies (dropped refl)
convert-Applies ValueType.float ValueType.invalid v = applies (dropped refl)
convert-Applies ValueType.atom ValueType.float v = applies (dropped refl)
convert-Applies ValueType.atom ValueType.atom v = applies (dropped refl)
convert-Applies ValueType.atom ValueType.ref v = applies (dropped refl)
convert-Applies ValueType.atom ValueType.list v = applies (dropped refl)
convert-Applies ValueType.atom ValueType.invalid v = applies (dropped refl)
convert-Applies ValueType.ref ValueType.int v = applies (dropped refl)
convert-Applies ValueType.ref ValueType.float v = applies (dropped refl)
convert-Applies ValueType.ref ValueType.atom v = applies (dropped refl)
convert-Applies ValueType.ref ValueType.ref v = applies (dropped refl)
convert-Applies ValueType.ref ValueType.list v = applies (dropped refl)
convert-Applies ValueType.ref ValueType.invalid v = applies (dropped refl)
convert-Applies ValueType.list ValueType.int v = applies (dropped refl)
convert-Applies ValueType.list ValueType.float v = applies (dropped refl)
convert-Applies ValueType.list ValueType.atom v = applies (dropped refl)
convert-Applies ValueType.list ValueType.ref v = applies (dropped refl)
convert-Applies ValueType.list ValueType.list v = applies (dropped refl)
convert-Applies ValueType.list ValueType.invalid v = applies (dropped refl)
convert-Applies ValueType.invalid ValueType.int v = applies (dropped refl)
convert-Applies ValueType.invalid ValueType.float v = applies (dropped refl)
convert-Applies ValueType.invalid ValueType.atom v = applies (dropped refl)
convert-Applies ValueType.invalid ValueType.ref v = applies (dropped refl)
convert-Applies ValueType.invalid ValueType.list v = applies (dropped refl)
convert-Applies ValueType.invalid ValueType.invalid v = applies (dropped refl)

-- What a migration makes of the field `f` of a node of a kind, which may be missing.
pub data Step (k f : ℕ) (m : FieldMigration) : Option Value → Option Value → Type 0 where
  other_kind : {o : Option Value} → m.kind_id ≢ k → Step k f m o o
  other_field : {o : Option Value} → m.field_idx ≢ f → Step k f m o o
  removes :
      {o : Option Value}
      → m.kind_id ≡ k
      → m.field_idx ≡ f
      → m.migration_kind ≡ MigrationKind.remove_field
      → Step k f m o none
  adds :
      m.kind_id ≡ k
      → m.field_idx ≡ f
      → m.migration_kind ≡ MigrationKind.add_field
      → Step k f m none (some m.default_value)
  is_there : {v : Value} → m.migration_kind ≡ MigrationKind.add_field → Step k f m (some v) (some v)
  renames : {o : Option Value} → m.migration_kind ≡ MigrationKind.rename_field → Step k f m o o
  is_missing : m.migration_kind ≡ MigrationKind.change_type → Step k f m none none
  changes :
      {v w : Value}
      → m.kind_id ≡ k
      → m.field_idx ≡ f
      → m.migration_kind ≡ MigrationKind.change_type
      → Converted m.old_type m.new_type v w
      → Step k f m (some v) (some w)

-- One migration after the other.
pub Steps : ℕ → ℕ → List FieldMigration → Option Value → Option Value → Type 0
Steps k f [] o p = p ≡ o
Steps k f (m ∷ ms) o p = (mid : Option Value) × Step k f m o mid × Steps k f ms mid p

-- A migration of a plan that changes a type by a cast.
pub Casts : List FieldMigration → Type 0
Casts [] = ⊥
Casts (m ∷ ms) =
    ((m.migration_kind ≡ MigrationKind.change_type) × IsCast m.old_type m.new_type) ⊎ Casts ms

-- A migration that sets, erases or keeps one field.
step_at :
    (m : FieldMigration) (k : ℕ) (before after : Map ℕ Value) (o : Option Value)
    → ((f : ℕ) → lookup f after ≡ (if m.field_idx == f then o else lookup f before))
    → Step k m.field_idx m (lookup m.field_idx before) o
    → (f : ℕ) → Step k f m (lookup f before) (lookup f after)
step_at m k before after o found s f = elim (Bool-cases (m.field_idx == f)) [
  | inl same ↦
      let e : m.field_idx ≡ f = ground (arith, same) in
      let there : lookup f after ≡ o = found f ∙ ground (arith, same) in
      subst (Step k f m (lookup f before)) (sym there)
        (subst (λ g. Step k g m (lookup g before) o) e s)
  | inr apart ↦
      let there : lookup f after ≡ lookup f before = found f ∙ ground (arith, apart) in
      subst (Step k f m (lookup f before)) (sym there) (other_field (ground (arith, apart)))
]

-- What one migration leaves of a node.
pub IsStepped : FieldMigration → Node → Node → Type 0
IsStepped m n n' =
    IsSame n n' × ((f : ℕ) → Step n.kind f m (lookup f n.fields) (lookup f n'.fields))

change-Applies :
    (k : MigrationKind) (m : FieldMigration) (n : Node)
    → m.migration_kind ≡ k
    → m.kind_id ≡ n.kind
    → Applies (Casts (m ∷ [])) (IsStepped m n) (apply_field m n)
unfolding apply_field IsStepped Casts
change-Applies k m n e h = go k e
  where
    idx : ℕ
    idx = m.field_idx

    -- What `apply_field` has computed.
    is :
        (r : Result Node)
        → apply_field m n ≡ r
        → Applies (Casts (m ∷ [])) (IsStepped m n) r
        → Applies (Casts (m ∷ [])) (IsStepped m n) (apply_field m n)
    is r eq a = subst (Applies (Casts (m ∷ [])) (IsStepped m n)) (sym eq) a

    stepped :
        (fields : Map ℕ Value) (o : Option Value)
        → ((f : ℕ) → lookup f fields ≡ (if idx == f then o else lookup f n.fields))
        → Step n.kind idx m (lookup idx n.fields) o
        → Applies (Casts (m ∷ [])) (IsStepped m n) (ok (record n { fields = fields }))
    stepped fields o found s = applies (refl, step_at m n.kind n.fields fields o found s)

    go :
        (k : MigrationKind)
        → m.migration_kind ≡ k
        → Applies (Casts (m ∷ [])) (IsStepped m n) (apply_field m n)
    go MigrationKind.remove_field e =
        is _ (rw (apply_field, e) refl)
          (stepped (erase idx n.fields) none (λ f. lookup-erase idx f n.fields) (removes h refl e))
    go MigrationKind.rename_field e =
        is _ (rw (apply_field, e) refl) (applies (refl, λ f. renames e))
    go MigrationKind.add_field e = elim (Option-cases (lookup idx n.fields)) [
      | inl free ↦ is _ (rw (apply_field, e, free) refl) (
          stepped (insert idx m.default_value n.fields) (some m.default_value)
            (λ f. lookup-insert idx f m.default_value n.fields) (rw free (adds h refl e)))
      | inr (v, there) ↦
          is _ (rw (apply_field, e, there) refl)
            (stepped n.fields (some v) (λ f. ground (arith, there)) (rw there (is_there e)))
    ]
    go MigrationKind.change_type e = elim (Option-cases (lookup idx n.fields)) [
      | inl free ↦
          is _ (rw (apply_field, e, free) refl)
            (stepped n.fields none (λ f. ground (arith, free)) (rw free (is_missing e)))
      | inr (old, there) ↦ is _ (rw (apply_field, e, there) refl) (
          bind-Applies (λ cast. inl (e, cast)) (convert-Applies m.old_type m.new_type old)
            λ v c.
              stepped (insert idx v n.fields) (some v) (λ f. lookup-insert idx f v n.fields)
                (rw there (changes h refl e c)))
    ]

one-Applies :
    (m : FieldMigration) (n : Node)
    → Applies
        (Casts (m ∷ []))
        (IsStepped m n)
        (if m.kind_id == n.kind then apply_field m n else ok n)
unfolding IsStepped
one-Applies m n =
    if-cases (Applies (Casts (m ∷ [])) (IsStepped m n)) (m.kind_id == n.kind)
      (λ same. change-Applies m.migration_kind m n refl (ground (arith, same)))
      λ apart. applies (refl, λ f. other_kind (ground (arith, apart)))

-- What a plan's migrations leave of a live node.
pub IsMigrated : List FieldMigration → Node → Node → Type 0
IsMigrated ms n n' =
    IsSame n n' × ((f : ℕ) → Steps n.kind f ms (lookup f n.fields) (lookup f n'.fields))

apply_fields-Applies :
    (ms : List FieldMigration) (n : Node) → Applies (Casts ms) (IsMigrated ms n) (apply_fields ms n)
unfolding apply_fields IsMigrated IsStepped Steps Casts
apply_fields-Applies [] n = applies (refl, λ f. refl)
apply_fields-Applies (m ∷ rest) n = bind-Applies first_casts (one-Applies m n) λ n' h.
    map-Applies (λ c. inr c)
      (λ n'' k. (
        IsSame-trans n n' n'' h.0 k.0,
        λ f. (
          lookup f n'.fields,
          h.1 f,
          subst (λ kd. Steps kd f rest (lookup f n'.fields) (lookup f n''.fields))
              (ap Node.kind h.0) (k.1 f),
        ),
      ))
      (apply_fields-Applies rest n')
  where
    first_casts : Casts (m ∷ []) → Casts (m ∷ rest)
    first_casts (inl c) = inl c
    first_casts (inr c) = absurd c

-- Node for node: a dead one as it was, a live one with each field as the plan's migrations on its kind
-- and that field leave it, one after the other, and the same otherwise.
pub AreMigrated : MigrationPlan → List Node → List Node → Type 0
AreMigrated plan [] [] = Unit
AreMigrated plan (n ∷ ns) (m ∷ ms) =
    ((n.alive ≡ true → IsMigrated plan.migrations n m) × (n.alive ≡ false → m ≡ n))
    × AreMigrated plan ns ms
AreMigrated plan _ _ = ⊥

-- Applying a plan to a node table gives as many nodes in the same order, the dead ones as they were, and
-- the live ones the same but for their fields, each field as the migrations on that kind and field leave
-- it: RemoveField erases it, AddField sets it if it is missing, ChangeType converts it. Only a plan that
-- changes Int to Float or Float to Int may instead cast a value that the standard does not let it cast.
pub apply_migration-Applies :
    (nodes : List Node) (plan : MigrationPlan)
    → Applies (Casts plan.migrations) (AreMigrated plan nodes) (apply_migration nodes plan)
unfolding apply_migration AreMigrated
apply_migration-Applies [] plan = applies tt
apply_migration-Applies (n ∷ rest) plan =
    bind-Applies (λ c. c)
      (if-cases (Applies (Casts plan.migrations) IsDone) n.alive
        (λ live.
          map-Applies (λ c. c) (λ m h. ((λ _. h), λ dead. cc))
            (apply_fields-Applies plan.migrations n))
        λ dead. applies ((λ live. cc), λ _. refl))
      λ m h. bind-Applies (λ c. c) (apply_migration-Applies rest plan) λ ms k. applies (h, k)
  where
    IsDone : Node → Type 0
    IsDone m = (n.alive ≡ true → IsMigrated plan.migrations n m) × (n.alive ≡ false → m ≡ n)
