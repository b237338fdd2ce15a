-- ===== src/Registry/Codec.antt =====
-- src/schema_registry.cpp: `serialize` and `deserialize`.
use stratavm.Base.{ℕ, zero, suc, ◌%◌, not, ltb, List, [], ◌∷◌, ◌++◌, length, take}
use stratavm.Base.Maps.{Map}
use stratavm.Status.{bad_schema, limit_exceeded}
use stratavm.Format.{Limits, u32_mod, is_valid_value_type, value_type_of}
use stratavm.Reader.{
  Decoder, ◌>>=◌, ◌>>◌, return, lift, refuse_if, read_u8, read_u32, read_varint, read_varint_u32,
  read_lp_string,
}
use stratavm.Writer.{u32, varint, lp_string}
use stratavm.Atoms
use stratavm.Atoms.{AtomPool, intern, write_atoms}
use stratavm.Schema
use stratavm.Schema.{FieldDef, KindDef, Schema, add_kind, write_kinds}
use stratavm.Registry.{SchemaVersion, SchemaRegistry, new_registry, register_version}

-- The loops count up to a size cast to 32 bits.
abbrev pub counted : {A : Type 0} → List A → List A
counted xs = take (length xs % u32_mod) xs

unfoldable pub write_version : SchemaVersion → List ℕ
write_version sv =
    u32 sv.version_id
    ++ (lp_string sv.description
        ++ (varint (length sv.atoms.atoms)
            ++ (write_atoms (counted sv.atoms.atoms)
                ++ (varint (length sv.schema.kinds) ++ write_kinds (counted sv.schema.kinds)))))

unfoldable pub write_versions : Map ℕ SchemaVersion → List ℕ
unfolding write_version
write_versions [] = []
write_versions ((vid, sv) ∷ rest) = write_version sv ++ write_versions rest

unfoldable pub serialize : SchemaRegistry → List ℕ
unfolding write_versions
serialize reg = varint (length reg.versions) ++ write_versions reg.versions

unfoldable pub read_texts : Limits → ℕ → AtomPool → Decoder AtomPool
read_texts lim zero atoms = return atoms
read_texts lim (suc rounds) atoms = do
  text ← read_lp_string lim.max_atom_len
  read_texts lim rounds (intern text atoms).0

unfoldable pub read_field_defs : ℕ → Decoder (List FieldDef)
read_field_defs zero = return []
read_field_defs (suc rounds) = do
  name ← read_varint_u32
  type_raw ← read_u8
  refuse_if (not (is_valid_value_type type_raw)) bad_schema
  flags ← read_u8
  rest ← read_field_defs rounds
  return (record { name = name; type = value_type_of type_raw; flags = flags } ∷ rest)

unfoldable pub read_kind_defs : Limits → ℕ → Schema → Decoder Schema
unfolding read_field_defs
read_kind_defs lim zero schema = return schema
read_kind_defs lim (suc rounds) schema = do
  name ← read_varint_u32
  field_count ← read_varint
  refuse_if (ltb lim.max_fields_per_kind field_count) limit_exceeded
  fields ← read_field_defs field_count
  read_kind_defs lim rounds (add_kind (record { name = name; fields = fields }) schema).0

unfoldable pub read_version : Limits → Decoder SchemaVersion
unfolding read_texts read_kind_defs
read_version lim = do
  version_id ← read_u32
  description ← read_lp_string lim.max_atom_len
  atom_count ← read_varint
  refuse_if (ltb lim.max_atoms atom_count) limit_exceeded
  atoms ← read_texts lim atom_count Atoms.empty
  kind_count ← read_varint
  refuse_if (ltb lim.max_kinds kind_count) limit_exceeded
  schema ← read_kind_defs lim kind_count Schema.empty
  return (record {
    version_id = version_id;
    description = description;
    schema = schema;
    atoms = atoms;
  })

unfoldable pub read_versions : Limits → ℕ → SchemaRegistry → Decoder SchemaRegistry
unfolding read_version
read_versions lim zero reg = return reg
read_versions lim (suc rounds) reg = do
  sv ← read_version lim
  reg' ← lift (register_version sv reg)
  read_versions lim rounds reg'

unfoldable pub deserialize : Limits → Decoder SchemaRegistry
unfolding read_versions
deserialize lim = do
  version_count ← read_varint
  refuse_if (ltb lim.max_sections version_count) limit_exceeded
  read_versions lim version_count new_registry
