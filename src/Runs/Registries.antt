-- ===== src/Runs/Registries.antt =====
-- Runs of the schema registry.
use stratavm.Base.{◌+◌, ◌-◌, ◌^◌, ◌≡◌, refl, [], ◌∷◌, ◌++◌, length, arith}
use stratavm.Base.Maps.{nat_eq, lookup, insert, erase}
use stratavm.Status.{ok}
use stratavm.Format.{ValueType, default_limits}
use stratavm.Value.{Value}
use stratavm.Node.{Node, fresh}
use stratavm.Registry.Migration.{MigrationKind, FieldMigration, MigrationPlan, apply_migration}
use stratavm.Registry.Kept.{Applies, Casts, AreMigrated, apply_migration-Applies}
use stratavm.Reader.{reader_of, advanced}
use stratavm.Atoms.{intern}
use stratavm.Registry.{SchemaVersion, SchemaRegistry, insert_ordered, register_version}
use stratavm.Registry.Codec.{serialize, deserialize}
use stratavm.Registry.Conversion.{
  exponent, rounded, magnitude_to_double, int_to_double, truncated_magnitude, double_to_int,
}
use stratavm.Registry.Versions.{IsAscending, Registration, register_version-Registration}
use stratavm.Registry.RoundTrip.{LimitsFit, VersionFits, interned, deserialize-serialize}
use stratavm.Runs.{doc, pool, one_kind}

abbrev first : SchemaVersion
first = record { version_id = 3; description = doc; schema = one_kind; atoms = pool }

abbrev second : SchemaVersion
second = record first { version_id = 2 }

abbrev registry : SchemaRegistry
registry = record { versions = (3, first) ∷ [] }

registry-IsAscending : IsAscending registry.versions
unfolding IsAscending
registry-IsAscending = (tt, tt)

default_limits-LimitsFit : LimitsFit default_limits
default_limits-LimitsFit = record {
  texts = omega arith;
  atoms = omega arith;
  kinds = omega arith;
  fields = omega arith;
  sections = omega arith;
}

first-VersionFits : VersionFits default_limits (3, first)
unfolding interned intern lookup insert
first-VersionFits = record {
  keyed = refl;
  id_fits = omega arith;
  described = omega arith;
  texts_fit = (omega arith, (omega arith, tt));
  few_atoms = omega arith;
  is_interned = refl;
  kinds_fit = (
    record {
      name_fits = omega arith;
      fields_fit = (record { name_fits = omega arith; typed = λ e. cc; byte = omega arith }, tt);
      few = omega arith;
    },
    tt,
  );
  few_kinds = omega arith;
}

register_version-Registration_example :
    Registration second registry (register_version second registry)
register_version-Registration_example =
    register_version-Registration second registry registry-IsAscending

second_is_first :
    register_version second registry ≡ ok (record { versions = (2, second) ∷ (3, first) ∷ [] })
unfolding register_version insert_ordered lookup
second_is_first = refl

deserialize-serialize_example :
    deserialize default_limits (reader_of (serialize registry ++ []))
    ≡ ok (registry, advanced (length (serialize registry)) (reader_of (serialize registry ++ [])))
deserialize-serialize_example =
    deserialize-serialize default_limits default_limits-LimitsFit registry registry-IsAscending
      (first-VersionFits, tt) (omega arith) (reader_of (serialize registry ++ [])) [] refl

abbrev counter : Node
counter = record fresh { id = 0; kind = 4; fields = (0, Value.int 2) ∷ (1, Value.ref 0) ∷ [] }

abbrev to_float : FieldMigration
to_float = record {
  migration_kind = MigrationKind.change_type;
  kind_id = 4;
  field_idx = 0;
  old_name_atom = 0;
  new_name_atom = 0;
  old_type = ValueType.int;
  new_type = ValueType.float;
  default_value = Value.invalid;
}

abbrev plan : MigrationPlan
plan = record {
  from_version = 2;
  to_version = 3;
  migrations =
      to_float
      ∷ record to_float { migration_kind = MigrationKind.remove_field; field_idx = 1 }
      ∷ [];
}

apply_migration-Applies_example :
    Applies
      (Casts plan.migrations)
      (AreMigrated plan (counter ∷ []))
      (apply_migration (counter ∷ []) plan)
apply_migration-Applies_example = apply_migration-Applies (counter ∷ []) plan

counter_is_float :
    apply_migration (counter ∷ []) plan
    ≡ ok (record counter { fields = (0, Value.float 0x4000_0000_0000_0000) ∷ [] } ∷ [])
unfolding apply_migration lookup insert erase int_to_double magnitude_to_double exponent rounded
counter_is_float = refl

-- 2^53 + 1 rounds to 2^53, and -1 is converted and back.
doubles :
    (int_to_double (2 ^ 53 + 1) ≡ int_to_double (2 ^ 53))
    × (int_to_double (2 ^ 64 - 1) ≡ 0xbff0_0000_0000_0000)
    × (double_to_int (int_to_double (2 ^ 64 - 1)) ≡ ok (2 ^ 64 - 1))
unfolding int_to_double double_to_int magnitude_to_double truncated_magnitude exponent rounded
doubles = (refl, refl, refl)
