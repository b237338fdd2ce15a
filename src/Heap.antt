-- ===== src/Heap.antt =====
-- include/stratavm/heap.hpp and src/heap.cpp: the decoder of the initial heap.
pub mod Safety
use stratavm.Base.{ℕ, zero, suc, ◌+◌, not, ltb, ◌==◌, length}
use stratavm.Status.{limit_exceeded, bad_heap, kind_out_of_range, atom_out_of_range}
use stratavm.Status.{field_out_of_range}
use stratavm.Format.{Limits}
use stratavm.Reader.{Decoder, ◌>>=◌, ◌>>◌, return, refuse_if, or_fail, recode, read_varint_u32}
use stratavm.Value
use stratavm.Atoms.{AtomPool, lacks}
use stratavm.Schema.{Schema, KindDef, kind, field}
use stratavm.Node.{Node, fresh, set_field}
use stratavm.Table
use stratavm.Table.{Allocator, Table}

-- `HeapImage`, its one member.
abbrev pub HeapImage : Type 0
HeapImage = Table Node

unfoldable pub decode_fields : Limits → KindDef → ℕ → Node → Decoder Node
decode_fields limits k zero node = return node
decode_fields limits k (suc rounds) node = do
  field_idx ← read_varint_u32
  fd ← or_fail (field k field_idx) field_out_of_range
  v ← recode bad_heap (Value.decode limits fd.type)
  decode_fields limits k rounds (set_field field_idx v node)

-- One round of the loop over nodes.
unfoldable pub decode_node : Schema → AtomPool → Limits → ℕ → Decoder Node
decode_node schema atoms limits i = do
  on_disk_id ← read_varint_u32
  refuse_if (not (on_disk_id == i)) bad_heap
  kind_id ← read_varint_u32
  k ← or_fail (kind schema kind_id) kind_out_of_range
  name ← read_varint_u32
  refuse_if (lacks atoms name) atom_out_of_range
  field_count ← read_varint_u32
  refuse_if (ltb (length k.fields) field_count) bad_heap
  decode_fields limits k field_count (record fresh { id = i; kind = kind_id; name = name })

unfoldable pub decode_nodes :
    Allocator → Schema → AtomPool → Limits → ℕ → ℕ → HeapImage → Decoder HeapImage
decode_nodes alloc schema atoms limits zero i out = return out
decode_nodes alloc schema atoms limits (suc rounds) i out = do
  node ← decode_node schema atoms limits i
  decode_nodes alloc schema atoms limits rounds (i + 1) (Table.push_back alloc node out)

unfoldable pub decode_heap : Allocator → Schema → AtomPool → Limits → Decoder HeapImage
decode_heap alloc schema atoms limits = do
  node_count ← read_varint_u32
  refuse_if (ltb limits.max_nodes node_count) limit_exceeded
  decode_nodes alloc schema atoms limits node_count 0 (Table.reserve alloc node_count Table.empty)
