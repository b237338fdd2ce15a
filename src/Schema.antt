-- ===== src/Schema.antt =====
-- include/stratavm/schema.hpp and src/schema.cpp: the type table.
pub mod Safety
pub mod RoundTrip
use stratavm.Base.{
  ℕ, zero, suc, ◌+◌, ◌%◌, ◌/◌, Bool, true, false, not, ltb, ◌==◌, List, [], ◌∷◌, ◌++◌, length,
  get_elem?, Option, none, some,
}
use stratavm.Status.{limit_exceeded, bad_schema}
use stratavm.Format.{ValueType, Limits, u32_mod, is_valid_value_type, value_type_of}
use stratavm.Reader.{Decoder, ◌>>=◌, ◌>>◌, return, refuse_if, or_fail, read_u8, read_varint_u32}
use stratavm.Writer.{varint, u8}
use stratavm.Atoms.{AtomPool, get}

pub record FieldDef : Type 0 where
  pub name : ℕ
  pub type : ValueType
  pub flags : ℕ

-- `(flags & kFieldRequired) != 0`
abbrev pub is_required : FieldDef → Bool
is_required f = not (f.flags % 2 == 0)

abbrev pub is_indexed : FieldDef → Bool
is_indexed f = not (f.flags / 2 % 2 == 0)

pub record KindDef : Type 0 where
  pub name : ℕ
  pub fields : List FieldDef

abbrev pub field : KindDef → ℕ → Option FieldDef
field k id = get_elem? k.fields id

pub record Schema : Type 0 where
  pub kinds : List KindDef

abbrev pub empty : Schema
empty = record { kinds = [] }

abbrev pub kind : Schema → ℕ → Option KindDef
kind s id = get_elem? s.kinds id

abbrev type_or_invalid : Option FieldDef → ValueType
type_or_invalid none = ValueType.invalid
type_or_invalid (some f) = f.type

abbrev field_of : ℕ → Option KindDef → Option FieldDef
field_of id none = none
field_of id (some k) = field k id

unfoldable pub field_type : Schema → ℕ → ℕ → ValueType
field_type s kind_id field_id = type_or_invalid (field_of field_id (kind s kind_id))

unfoldable pub add_kind : KindDef → Schema → Schema × ℕ
add_kind k s = (record { kinds = s.kinds ++ k ∷ [] }, length s.kinds % u32_mod)

pub decode_fields : AtomPool → ℕ → Decoder (List FieldDef)
decode_fields atoms zero = return []
decode_fields atoms (suc rounds) = do
  name ← read_varint_u32
  _ ← or_fail (get atoms name) bad_schema
  type_raw ← read_u8
  refuse_if (not (is_valid_value_type type_raw)) bad_schema
  flags ← read_u8
  rest ← decode_fields atoms rounds
  return (record { name = name; type = value_type_of type_raw; flags = flags } ∷ rest)

pub decode_kinds : AtomPool → Limits → ℕ → Decoder (List KindDef)
decode_kinds atoms limits zero = return []
decode_kinds atoms limits (suc rounds) = do
  name ← read_varint_u32
  _ ← or_fail (get atoms name) bad_schema
  field_count ← read_varint_u32
  refuse_if (ltb limits.max_fields_per_kind field_count) limit_exceeded
  fields ← decode_fields atoms field_count
  rest ← decode_kinds atoms limits rounds
  return (record { name = name; fields = fields } ∷ rest)

unfoldable pub decode : AtomPool → Limits → Decoder Schema
decode atoms limits = do
  kind_count ← read_varint_u32
  refuse_if (ltb limits.max_kinds kind_count) limit_exceeded
  kinds ← decode_kinds atoms limits kind_count
  return (record { kinds = kinds })

-- The schema section as `ContainerBuilder::build_schema_section` writes it.
abbrev pub raw_of : ValueType → ℕ
raw_of ValueType.int = 0
raw_of ValueType.float = 1
raw_of ValueType.atom = 2
raw_of ValueType.ref = 3
raw_of ValueType.list = 4
raw_of ValueType.invalid = 0xff

unfoldable pub write_fields : List FieldDef → List ℕ
write_fields [] = []
write_fields (f ∷ rest) = varint f.name ++ (u8 (raw_of f.type) ++ (u8 f.flags ++ write_fields rest))

unfoldable pub write_kinds : List KindDef → List ℕ
write_kinds [] = []
write_kinds (k ∷ rest) =
    varint k.name ++ (varint (length k.fields) ++ (write_fields k.fields ++ write_kinds rest))

unfoldable pub build_schema_section : List KindDef → List ℕ
unfolding write_kinds write_fields
build_schema_section kinds = varint (length kinds) ++ write_kinds kinds
