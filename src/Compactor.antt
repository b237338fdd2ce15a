-- ===== src/Compactor.antt =====
-- include/stratavm/compactor.hpp and src/compactor.cpp: `JournalCompactor`, its operations decoded
-- and encoded. The value encoder is `encode_value` of Value.
pub mod Passes
pub mod Groups
pub mod Reencode
pub mod Compact
pub mod Settled
pub mod Brackets
pub mod Marking
pub mod Output
pub mod Decoded
use stratavm.Base.{
  ℕ, zero, suc, ◌+◌, ◌%◌, Bool, true, false, not, ◌==◌, if◌then◌else◌, List, [], ◌∷◌, ◌++◌, length,
  get_elem?, Option, none, some,
}
use stratavm.Status.{bad_opcode, group_underflow}
use stratavm.Format.{ValueType, OpCode, default_limits, is_valid_opcode, opcode_of, u32_mod}
use stratavm.Reader.{Decoder, ◌>>=◌, ◌>>◌, return, fail, refuse_if, read_u8, read_varint_u32}
use stratavm.Writer.{u8, varint}
use stratavm.Value
use stratavm.Value.{Value, encode_value}
use stratavm.Schema.{Schema, field_type}

pub record OpRecord : Type 0 where
  pub op : OpCode
  pub node_id : ℕ
  pub kind : ℕ
  pub name_atom : ℕ
  pub field_idx : ℕ
  pub value : Value
  pub target_atom : ℕ
  pub reserve_hint : ℕ
  pub group_children : List ℕ
  pub meta_key : ℕ
  pub meta_val : ℕ
  pub dead : Bool

abbrev pub blank : OpCode → OpRecord
blank op = record {
  op = op;
  node_id = 0;
  kind = 0;
  name_atom = 0;
  field_idx = 0;
  value = Value.invalid;
  target_atom = 0;
  reserve_hint = 0;
  group_children = [];
  meta_key = 0;
  meta_val = 0;
  dead = false;
}

-- What `decode_op` keeps between the operations; the innermost group comes first.
pub record Decoding : Type 0 where
  pub node_kinds : List ℕ
  pub group_stack : List OpRecord

unfoldable pub field_type_for : ℕ → ℕ → List ℕ → Schema → ValueType
field_type_for node_id field_idx node_kinds schema = elim (get_elem? node_kinds node_id) [
  | none ↦ ValueType.invalid
  | some kind_id ↦ field_type schema kind_id field_idx
]

-- A field that the schema does not know is read as an integer.
abbrev pub or_int : ValueType → ValueType
or_int ValueType.invalid = ValueType.int
or_int t = t

-- The child joins the innermost group, if one is open.
abbrev pub add_to_top : ℕ → List OpRecord → List OpRecord
add_to_top child [] = []
add_to_top child (top ∷ rest) =
    record top { group_children = top.group_children ++ child ∷ [] } ∷ rest

abbrev pub pop_group : Decoding → Decoder (OpRecord × Decoding)
pop_group s = elim s.group_stack [
  | [] ↦ fail group_underflow
  | top ∷ rest ↦ return (
    record (blank OpCode.end_group) {
      name_atom = top.name_atom;
      reserve_hint = top.reserve_hint;
      group_children = top.group_children;
    },
    record s { group_stack = rest },
  )
]

-- The switch of `decode_op`.
unfoldable pub decode_operands : Schema → Decoding → OpCode → Decoder (OpRecord × Decoding)
unfolding field_type_for
decode_operands schema s OpCode.new_node = do
  kind ← read_varint_u32
  name_atom ← read_varint_u32
  return (
    record (blank OpCode.new_node) {
      kind = kind;
      name_atom = name_atom;
      node_id = length s.node_kinds % u32_mod;
    },
    record s { node_kinds = s.node_kinds ++ kind ∷ [] },
  )
decode_operands schema s OpCode.set_field = do
  node_id ← read_varint_u32
  field_idx ← read_varint_u32
  value ←
      Value.decode default_limits (or_int (field_type_for node_id field_idx s.node_kinds schema))
  return (
    record (blank OpCode.set_field) { node_id = node_id; field_idx = field_idx; value = value },
    s,
  )
decode_operands schema s OpCode.begin_group = do
  owner_name_atom ← read_varint_u32
  reserve_hint ← read_varint_u32
  let rec : OpRecord = record (blank OpCode.begin_group) {
    name_atom = owner_name_atom;
    reserve_hint = reserve_hint;
  }
  return (rec, record s { group_stack = rec ∷ s.group_stack })
decode_operands schema s OpCode.end_group = pop_group s
decode_operands schema s OpCode.add_child = do
  child_name_atom ← read_varint_u32
  return (
    record (blank OpCode.add_child) { target_atom = child_name_atom },
    record s { group_stack = add_to_top child_name_atom s.group_stack },
  )
decode_operands schema s OpCode.link_ref = do
  src_node_id ← read_varint_u32
  field_idx ← read_varint_u32
  target_atom ← read_varint_u32
  return (
    record (blank OpCode.link_ref) {
      node_id = src_node_id;
      field_idx = field_idx;
      target_atom = target_atom;
    },
    s,
  )
decode_operands schema s OpCode.drop_node = do
  node_id ← read_varint_u32
  return (record (blank OpCode.drop_node) { node_id = node_id }, s)
decode_operands schema s OpCode.snapshot = do
  label_atom ← read_varint_u32
  return (record (blank OpCode.snapshot) { name_atom = label_atom }, s)
decode_operands schema s OpCode.set_meta = do
  key_atom ← read_varint_u32
  val_atom ← read_varint_u32
  return (record (blank OpCode.set_meta) { meta_key = key_atom; meta_val = val_atom }, s)
decode_operands schema s OpCode.nop = return (blank OpCode.nop, s)

unfoldable pub decode_op : Schema → Decoding → Decoder (OpRecord × Decoding)
unfolding decode_operands
decode_op schema s = do
  raw_op ← read_u8
  refuse_if (not (is_valid_opcode raw_op)) bad_opcode
  decode_operands schema s (opcode_of raw_op)

abbrev pub raw_of : OpCode → ℕ
raw_of OpCode.new_node = 1
raw_of OpCode.set_field = 2
raw_of OpCode.begin_group = 3
raw_of OpCode.end_group = 4
raw_of OpCode.add_child = 5
raw_of OpCode.link_ref = 6
raw_of OpCode.drop_node = 7
raw_of OpCode.snapshot = 8
raw_of OpCode.set_meta = 9
raw_of OpCode.nop = 10

abbrev pub operands : OpRecord → OpCode → List ℕ
operands rec OpCode.new_node = varint rec.kind ++ varint rec.name_atom
operands rec OpCode.set_field =
    varint rec.node_id ++ (varint rec.field_idx ++ encode_value rec.value)
operands rec OpCode.begin_group = varint rec.name_atom ++ varint (length rec.group_children)
operands rec OpCode.end_group = []
operands rec OpCode.add_child = varint rec.target_atom
operands rec OpCode.link_ref =
    varint rec.node_id ++ (varint rec.field_idx ++ varint rec.target_atom)
operands rec OpCode.drop_node = varint rec.node_id
operands rec OpCode.snapshot = varint rec.name_atom
operands rec OpCode.set_meta = varint rec.meta_key ++ varint rec.meta_val
operands rec OpCode.nop = []

unfoldable pub encode_op : OpRecord → List ℕ
encode_op rec = u8 (raw_of rec.op) ++ operands rec rec.op
