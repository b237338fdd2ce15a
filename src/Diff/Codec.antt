-- ===== src/Diff/Codec.antt =====
-- src/diff.cpp: the binary form of a diff.

use stratavm.Base.{ℕ, zero, suc, not, ◌||◌, ◌==◌, List, [], ◌∷◌, ◌++◌, length}
use stratavm.Status.{bad_value}
use stratavm.Format.{ValueType, is_valid_value_type, value_type_of}
use stratavm.Reader.{
  Decoder, ◌>>=◌, ◌>>◌, return, refuse_if, read_u8, read_svarint, read_f64, read_varint_u32,
}
use stratavm.Writer.{u8, varint, svarint, f64}
use stratavm.Value.{Value, type_of, write_refs, read_refs}
use stratavm.Schema.{raw_of}
use stratavm.Diff.{FieldChange, NodeChange, GraphDiff, no_changes, push_change}

-- `emit_value_payload`, and `write_value` behind the type byte.
unfoldable pub emit_value_payload : Value → List ℕ
emit_value_payload (Value.int v) = svarint v
emit_value_payload (Value.float v) = f64 v
emit_value_payload (Value.atom v) = varint v
emit_value_payload (Value.ref v) = varint v
emit_value_payload (Value.list items) = varint (length items) ++ write_refs items
emit_value_payload Value.invalid = []

unfoldable pub write_value : Value → List ℕ
unfolding emit_value_payload
write_value v = u8 (raw_of (type_of v)) ++ emit_value_payload v

-- The list's length has no limit.
unfoldable pub read_payload : ValueType → Decoder Value
read_payload ValueType.int = do v ← read_svarint; return (Value.int v)
read_payload ValueType.float = do v ← read_f64; return (Value.float v)
read_payload ValueType.atom = do v ← read_varint_u32; return (Value.atom v)
read_payload ValueType.ref = do v ← read_varint_u32; return (Value.ref v)
read_payload ValueType.list = do
  count ← read_varint_u32
  items ← read_refs count
  return (Value.list items)
read_payload ValueType.invalid = return Value.invalid

unfoldable pub read_value : Decoder Value
unfolding read_payload
read_value = do
  type_byte ← read_u8
  refuse_if (not (is_valid_value_type type_byte || type_byte == 0xff)) bad_value
  read_payload (value_type_of type_byte)

unfoldable pub write_field_changes : List FieldChange → List ℕ
unfolding write_value
write_field_changes [] = []
write_field_changes (fc ∷ rest) =
    varint fc.field_idx
    ++ (write_value fc.before ++ (write_value fc.after ++ write_field_changes rest))

unfoldable pub write_change : NodeChange → List ℕ
unfolding write_field_changes
write_change nc =
    u8 nc.change
    ++ (varint nc.name
        ++ (varint nc.before_id
            ++ (varint nc.after_id
                ++ (varint nc.kind
                    ++ (varint (length nc.field_changes)
                        ++ (write_field_changes nc.field_changes
                            ++ (varint (length nc.children_added)
                                ++ (write_refs nc.children_added
                                    ++ (varint (length nc.children_removed)
                                        ++ write_refs nc.children_removed)))))))))

unfoldable pub write_changes : List NodeChange → List ℕ
unfolding write_change
write_changes [] = []
write_changes (nc ∷ rest) = write_change nc ++ write_changes rest

unfoldable pub serialize_diff : GraphDiff → List ℕ
unfolding write_changes
serialize_diff diff = varint (length diff.changes) ++ write_changes diff.changes

unfoldable pub read_field_changes : ℕ → Decoder (List FieldChange)
unfolding read_value
read_field_changes zero = return []
read_field_changes (suc rounds) = do
  fidx ← read_varint_u32
  before ← read_value
  after ← read_value
  rest ← read_field_changes rounds
  return (record { field_idx = fidx; before = before; after = after } ∷ rest)

unfoldable pub read_change : Decoder NodeChange
unfolding read_field_changes
read_change = do
  kind_byte ← read_u8
  name ← read_varint_u32
  before_id ← read_varint_u32
  after_id ← read_varint_u32
  kind_id ← read_varint_u32
  fc_count ← read_varint_u32
  field_changes ← read_field_changes fc_count
  ca_count ← read_varint_u32
  children_added ← read_refs ca_count
  cr_count ← read_varint_u32
  children_removed ← read_refs cr_count
  return (record {
    change = kind_byte;
    before_id = before_id;
    after_id = after_id;
    name = name;
    kind = kind_id;
    field_changes = field_changes;
    children_added = children_added;
    children_removed = children_removed;
  })

unfoldable pub read_changes : ℕ → GraphDiff → Decoder GraphDiff
unfolding read_change
read_changes zero diff = return diff
read_changes (suc rounds) diff = do nc ← read_change; read_changes rounds (push_change nc diff)

unfoldable pub deserialize_diff : Decoder GraphDiff
unfolding read_changes
deserialize_diff = do change_count ← read_varint_u32; read_changes change_count no_changes
