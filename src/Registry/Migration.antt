-- ===== src/Registry/Migration.antt =====
-- src/schema_registry.cpp: `compute_migration` and `apply_migration`.
use stratavm.Base.{ℕ, suc, ◌==◌, if◌then◌else◌, List, [], ◌∷◌, ◌++◌, map, get_elem?, none, some}
use stratavm.Base.Maps.{Map, nat_eq, bytes_eq, lookup, erase}
use stratavm.Status.{Result, ok, err, fault, ◌>>=◌, not_found, out_of_range, inactive_member}
use stratavm.Format.{ValueType, invalid_id}
use stratavm.Value.{Value}
use stratavm.Atoms.{AtomPool, get}
use stratavm.Schema.{FieldDef, KindDef, Schema, kind, raw_of}
use stratavm.Node.{Node, set_field}
use stratavm.Registry.{SchemaVersion, SchemaRegistry, bytes_lt, insert_ordered, find}
use stratavm.Registry.Codec.{counted}
use stratavm.Registry.Conversion.{int_to_double, double_to_int}

pub data MigrationKind : Type 0 where
  add_field remove_field rename_field change_type : MigrationKind

pub record FieldMigration : Type 0 where
  pub migration_kind : MigrationKind
  pub kind_id : ℕ
  pub field_idx : ℕ
  pub old_name_atom : ℕ
  pub new_name_atom : ℕ
  pub old_type : ValueType
  pub new_type : ValueType
  pub default_value : Value

pub record MigrationPlan : Type 0 where
  pub from_version : ℕ
  pub to_version : ℕ
  pub migrations : List FieldMigration

-- The name of each element's atom, to its position; the last of a name stays.
unfoldable pub name_map : AtomPool → ℕ → List ℕ → Map (List ℕ) ℕ → Map (List ℕ) ℕ
name_map atoms i [] m = m
name_map atoms i (name ∷ rest) m =
    name_map atoms (suc i) rest
      (elim (get atoms name) [ some text ↦ insert_ordered bytes_lt text i m | none ↦ m ])

abbrev pub build_kind_name_map : Schema → AtomPool → Map (List ℕ) ℕ
build_kind_name_map schema atoms = name_map atoms 0 (map KindDef.name (counted schema.kinds)) []

abbrev pub build_field_name_map : KindDef → AtomPool → Map (List ℕ) ℕ
build_field_name_map k atoms = name_map atoms 0 (map FieldDef.name (counted k.fields)) []

-- What the loops push, by the kind they set, the position and the field.
abbrev pub removal : ℕ → ℕ → FieldDef → FieldMigration
removal kind_id fid fd = record {
  migration_kind = MigrationKind.remove_field;
  kind_id = kind_id;
  field_idx = fid;
  old_name_atom = fd.name;
  new_name_atom = invalid_id;
  old_type = fd.type;
  new_type = ValueType.invalid;
  default_value = Value.invalid;
}

abbrev pub addition : ℕ → ℕ → FieldDef → FieldMigration
addition kind_id fid fd = record {
  migration_kind = MigrationKind.add_field;
  kind_id = kind_id;
  field_idx = fid;
  old_name_atom = invalid_id;
  new_name_atom = fd.name;
  old_type = ValueType.invalid;
  new_type = fd.type;
  default_value = Value.invalid;
}

abbrev pub type_change : ℕ → ℕ → FieldDef → FieldDef → FieldMigration
type_change kind_id fid from to = record {
  migration_kind = MigrationKind.change_type;
  kind_id = kind_id;
  field_idx = fid;
  old_name_atom = from.name;
  new_name_atom = to.name;
  old_type = from.type;
  new_type = to.type;
  default_value = Value.invalid;
}

unfoldable pub each_field :
    (ℕ → FieldDef → FieldMigration) → ℕ → List FieldDef → List FieldMigration
each_field make fid [] = []
each_field make fid (fd ∷ rest) = make fid fd ∷ each_field make (suc fid) rest

-- `fields[fid]`
abbrev pub field_at : List FieldDef → ℕ → Result FieldDef
field_at fields fid = elim (get_elem? fields fid) [ some fd ↦ ok fd | none ↦ fault out_of_range ]

-- The named fields that the other kind does not have.
unfoldable pub missing_fields :
    (ℕ → FieldDef → FieldMigration)
    → List FieldDef
    → Map (List ℕ) ℕ
    → Map (List ℕ) ℕ
    → Result (List FieldMigration)
missing_fields make fields other [] = ok []
missing_fields make fields other ((name, fid) ∷ rest) =
    let later = missing_fields make fields other rest in
    elim (lookup name other) [
      | some _ ↦ later
      | none ↦ field_at fields fid >>= λ fd. later >>= λ ms. ok (make fid fd ∷ ms)
    ]

unfoldable pub changed_types :
    ℕ
    → List FieldDef
    → List FieldDef
    → Map (List ℕ) ℕ
    → Map (List ℕ) ℕ
    → Result (List FieldMigration)
changed_types kind_id from to to_fields [] = ok []
changed_types kind_id from to to_fields ((name, from_fid) ∷ rest) =
    let later = changed_types kind_id from to to_fields rest in
    elim (lookup name to_fields) [
      | none ↦ later
      | some to_fid ↦ field_at from from_fid >>= λ f. field_at to to_fid >>= λ t. later >>= λ ms.
          ok (if raw_of f.type == raw_of t.type then ms else type_change kind_id from_fid f t ∷ ms)
    ]

-- A kind of both versions.
unfoldable pub compare_kinds :
    ℕ → KindDef → AtomPool → KindDef → AtomPool → Result (List FieldMigration)
unfolding missing_fields changed_types name_map
compare_kinds kind_id from from_atoms to to_atoms =
    let from_fields = build_field_name_map from from_atoms in
    let to_fields = build_field_name_map to to_atoms in
    missing_fields (removal kind_id) from.fields to_fields from_fields >>= λ gone.
    missing_fields (addition kind_id) to.fields from_fields to_fields >>= λ new.
    changed_types kind_id from.fields to.fields to_fields from_fields >>= λ changed.
    ok (gone ++ (new ++ changed))

unfoldable pub from_kind :
    SchemaVersion → SchemaVersion → Map (List ℕ) ℕ → List ℕ → ℕ → Result (List FieldMigration)
unfolding compare_kinds each_field
from_kind from to to_kinds kind_name from_kid = elim (kind from.schema from_kid) [
  | none ↦ ok []
  | some from_kdef ↦ elim (lookup kind_name to_kinds) [
    | none ↦ ok (each_field (removal from_kid) 0 (counted from_kdef.fields))
    | some to_kid ↦ elim (kind to.schema to_kid) [
      | none ↦ ok []
      | some to_kdef ↦ compare_kinds from_kid from_kdef from.atoms to_kdef to.atoms
    ]
  ]
]

unfoldable pub old_kinds :
    SchemaVersion → SchemaVersion → Map (List ℕ) ℕ → Map (List ℕ) ℕ → Result (List FieldMigration)
unfolding from_kind
old_kinds from to to_kinds [] = ok []
old_kinds from to to_kinds ((kind_name, from_kid) ∷ rest) =
    from_kind from to to_kinds kind_name from_kid >>= λ ms.
    old_kinds from to to_kinds rest >>= λ more. ok (ms ++ more)

unfoldable pub new_kinds : SchemaVersion → Map (List ℕ) ℕ → Map (List ℕ) ℕ → List FieldMigration
unfolding each_field
new_kinds to from_kinds [] = []
new_kinds to from_kinds ((kind_name, to_kid) ∷ rest) =
    elim (lookup kind_name from_kinds) [
      | some _ ↦ []
      | none ↦ elim (kind to.schema to_kid) [
        | none ↦ []
        | some to_kdef ↦ each_field (addition invalid_id) 0 (counted to_kdef.fields)
      ]
    ]
    ++ new_kinds to from_kinds rest

unfoldable pub compute_migration : ℕ → ℕ → SchemaRegistry → Result MigrationPlan
unfolding old_kinds new_kinds name_map
compute_migration from_version to_version reg = elim (find from_version reg) [
  | none ↦ err not_found
  | some from ↦ elim (find to_version reg) [
    | none ↦ err not_found
    | some to ↦
        let from_kinds = build_kind_name_map from.schema from.atoms in
        let to_kinds = build_kind_name_map to.schema to.atoms in
        old_kinds from to to_kinds from_kinds >>= λ ms. ok (record {
          from_version = from_version;
          to_version = to_version;
          migrations = ms ++ new_kinds to from_kinds to_kinds;
        })
  ]
]

-- `as_int()` and `as_float()`: the constructors of other values than invalid ones and lists write
-- another member of the union.
abbrev pub as_int : Value → Result ℕ
as_int (Value.int v) = ok v
as_int (Value.list _) = ok 0
as_int Value.invalid = ok 0
as_int _ = fault inactive_member

abbrev pub as_float : Value → Result ℕ
as_float (Value.float v) = ok v
as_float _ = fault inactive_member

unfoldable pub convert : ValueType → ValueType → Value → Result Value
convert ValueType.atom ValueType.int old = ok (Value.int 0)
convert ValueType.int ValueType.float old = as_int old >>= λ v. ok (Value.float (int_to_double v))
convert ValueType.float ValueType.int old =
    as_float old >>= λ v. double_to_int v >>= λ i. ok (Value.int i)
convert _ _ old = ok Value.invalid

unfoldable pub apply_field : FieldMigration → Node → Result Node
unfolding convert
apply_field m node = elim m.migration_kind [
  | MigrationKind.remove_field ↦ ok (record node { fields = erase m.field_idx node.fields })
  | MigrationKind.add_field ↦ elim (lookup m.field_idx node.fields) [
    | none ↦ ok (set_field m.field_idx m.default_value node)
    | some _ ↦ ok node
  ]
  | MigrationKind.rename_field ↦ ok node
  | MigrationKind.change_type ↦ elim (lookup m.field_idx node.fields) [
    | none ↦ ok node
    | some old ↦ convert m.old_type m.new_type old >>= λ v. ok (set_field m.field_idx v node)
  ]
]

unfoldable pub apply_fields : List FieldMigration → Node → Result Node
unfolding apply_field
apply_fields [] node = ok node
apply_fields (m ∷ rest) node =
    (if m.kind_id == node.kind then apply_field m node else ok node) >>= apply_fields rest

unfoldable pub apply_migration : List Node → MigrationPlan → Result (List Node)
unfolding apply_fields
apply_migration [] plan = ok []
apply_migration (node ∷ rest) plan =
    (if node.alive then apply_fields plan.migrations node else ok node) >>= λ node'.
    apply_migration rest plan >>= λ more. ok (node' ∷ more)
