-- ===== src/Format.antt =====
-- include/stratavm/format.hpp and src/journal.cpp: the constants, enumerations and limits that the
-- encoder and the decoder share.
use stratavm.Base.{ℕ, ◌^◌, Bool, ◌||◌, ◌==◌, if◌then◌else◌, List, [], ◌∷◌}

abbrev pub magic : List ℕ
magic = b'S' ∷ b'T' ∷ b'R' ∷ b'A' ∷ b'T' ∷ b'A' ∷ b'V' ∷ b'M' ∷ []

abbrev pub version_major : ℕ
version_major = 1

-- `kInvalidAtom`, `kInvalidNode` and `kInvalidKind`.
abbrev pub invalid_id : ℕ
invalid_id = 0xffff_ffff

abbrev pub u32_mod : ℕ
u32_mod = 2 ^ 32

-- Section tags, little-endian.
abbrev pub tag_atom : ℕ
tag_atom = 0x4d4f5441

abbrev pub tag_schema : ℕ
tag_schema = 0x414d4353

abbrev pub tag_heap : ℕ
tag_heap = 0x50414548

abbrev pub tag_journal : ℕ
tag_journal = 0x4c4e524a

abbrev pub tag_xref : ℕ
tag_xref = 0x46455258

abbrev pub tag_meta : ℕ
tag_meta = 0x4154454d

abbrev pub tag_unknown : ℕ
tag_unknown = 0

pub data ValueType : Type 0 where
  int float atom ref list invalid : ValueType

unfoldable pub is_valid_value_type : ℕ → Bool
is_valid_value_type raw = raw == 0 || raw == 1 || raw == 2 || raw == 3 || raw == 4

-- `static_cast<ValueType>(raw)`; a byte that names no enumerator is never read as a type.
unfoldable pub value_type_of : ℕ → ValueType
value_type_of raw =
    if raw == 0
    then ValueType.int
    else if raw == 1
    then ValueType.float
    else if raw == 2
    then ValueType.atom
    else if raw == 3
    then ValueType.ref
    else if raw == 4
    then ValueType.list
    else ValueType.invalid

pub data OpCode : Type 0 where
  new_node set_field begin_group end_group add_child link_ref drop_node snapshot set_meta nop :
      OpCode

unfoldable pub is_valid_opcode : ℕ → Bool
is_valid_opcode raw =
    raw == 1
    || raw == 2
    || raw == 3
    || raw == 4
    || raw == 5
    || raw == 6
    || raw == 7
    || raw == 8
    || raw == 9
    || raw == 10

-- `static_cast<OpCode>(raw)` for a valid byte.
unfoldable pub opcode_of : ℕ → OpCode
opcode_of raw =
    if raw == 1
    then OpCode.new_node
    else if raw == 2
    then OpCode.set_field
    else if raw == 3
    then OpCode.begin_group
    else if raw == 4
    then OpCode.end_group
    else if raw == 5
    then OpCode.add_child
    else if raw == 6
    then OpCode.link_ref
    else if raw == 7
    then OpCode.drop_node
    else if raw == 8
    then OpCode.snapshot
    else if raw == 9
    then OpCode.set_meta
    else OpCode.nop

pub record Limits : Type 0 where
  pub max_sections : ℕ
  pub max_atoms : ℕ
  pub max_atom_len : ℕ
  pub max_kinds : ℕ
  pub max_fields_per_kind : ℕ
  pub max_nodes : ℕ
  pub max_journal_ops : ℕ
  pub max_list_len : ℕ
  pub max_group_depth : ℕ
  pub max_value_depth : ℕ

abbrev pub default_limits : Limits
default_limits = record {
  max_sections = 64;
  max_atoms = 2 ^ 20;
  max_atom_len = 2 ^ 16;
  max_kinds = 2 ^ 16;
  max_fields_per_kind = 2 ^ 12;
  max_nodes = 2 ^ 22;
  max_journal_ops = 2 ^ 22;
  max_list_len = 2 ^ 20;
  max_group_depth = 256;
  max_value_depth = 32;
}
