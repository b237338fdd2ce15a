-- ===== src/Value.antt =====
-- include/stratavm/value.hpp and src/value.cpp: tagged field values and their schema-driven decoder;
-- `encode_value` of src/compactor.cpp writes them.
pub mod RoundTrip
pub mod Safety
use stratavm.Base.{ℕ, zero, suc, ltb, List, [], ◌∷◌, ◌++◌, length}
use stratavm.Status.{bad_value, limit_exceeded}
use stratavm.Format.{ValueType, Limits}
use stratavm.Reader.{
  Decoder, ◌>>=◌, ◌>>◌, return, fail, refuse_if, read_svarint, read_f64, read_varint_u32,
}
use stratavm.Writer.{varint, svarint, f64}

-- The tag with its payload. An int64_t and a double are 64-bit patterns.
pub data Value : Type 0 where
  int : ℕ → Value
  float : ℕ → Value
  atom : ℕ → Value
  ref : ℕ → Value
  list : List ℕ → Value
  invalid : Value

abbrev pub type_of : Value → ValueType
type_of (Value.int v) = ValueType.int
type_of (Value.float v) = ValueType.float
type_of (Value.atom v) = ValueType.atom
type_of (Value.ref v) = ValueType.ref
type_of (Value.list v) = ValueType.list
type_of Value.invalid = ValueType.invalid

pub read_refs : ℕ → Decoder (List ℕ)
read_refs zero = return []
read_refs (suc n) = do target ← read_varint_u32; items ← read_refs n; return (target ∷ items)

unfoldable pub decode : Limits → ValueType → Decoder Value
unfolding read_refs
decode limits ValueType.int = do v ← read_svarint; return (Value.int v)
decode limits ValueType.float = do v ← read_f64; return (Value.float v)
decode limits ValueType.atom = do v ← read_varint_u32; return (Value.atom v)
decode limits ValueType.ref = do v ← read_varint_u32; return (Value.ref v)
decode limits ValueType.list = do
  n ← read_varint_u32
  refuse_if (ltb limits.max_list_len n) limit_exceeded
  items ← read_refs n
  return (Value.list items)
decode limits ValueType.invalid = fail bad_value

pub write_refs : List ℕ → List ℕ
write_refs [] = []
write_refs (nid ∷ rest) = varint nid ++ write_refs rest

-- `JournalCompactor::encode_value`.
unfoldable pub encode_value : Value → List ℕ
unfolding write_refs
encode_value (Value.int v) = svarint v
encode_value (Value.float v) = f64 v
encode_value (Value.atom v) = varint v
encode_value (Value.ref v) = varint v
encode_value (Value.list items) = varint (length items) ++ write_refs items
encode_value Value.invalid = svarint 0
