-- ===== src/Builder.antt =====
-- include/stratavm/builder.hpp and src/builder.cpp: `ContainerBuilder`, which collects the parts of a
-- container. A method takes the builder and returns it; `heap_[node]` past the end is a fault.
pub mod Serialize
pub mod Layout
pub mod Readback
pub mod RoundTrip
use stratavm.Base.{
  ℕ, ◌+◌, ◌%◌, Bool, true, false, List, [], ◌∷◌, ◌++◌, length, get_elem?, set, Option, some, none,
}
use stratavm.Base.Maps.{Map, bytes_eq, lookup, insert}
use stratavm.Status.{Result, ok, fault, out_of_range}
use stratavm.Format.{invalid_id, u32_mod}
use stratavm.Writer.{u8, varint, svarint, f64}
use stratavm.Schema.{FieldDef, KindDef}
use stratavm.Value.{write_refs}

-- A field of a heap node, its value encoded already.
pub record FieldValue : Type 0 where
  pub field : ℕ
  pub bytes : List ℕ

pub record HeapNodeSpec : Type 0 where
  pub kind : ℕ
  pub name : ℕ
  pub fields : List FieldValue

pub record ContainerBuilder : Type 0 where
  pub atoms : List (List ℕ)
  pub atom_index : Map (List ℕ) ℕ
  pub kinds : List KindDef
  pub heap : List HeapNodeSpec
  pub journal_body : List ℕ
  pub journal_ops : ℕ
  pub xref : List (ℕ × ℕ)
  pub meta : List (ℕ × ℕ)
  pub emit_xref : Bool
  pub emit_meta : Bool
  pub header_flags : ℕ

abbrev pub new_builder : ContainerBuilder
new_builder = record {
  atoms = [];
  atom_index = [];
  kinds = [];
  heap = [];
  journal_body = [];
  journal_ops = 0;
  xref = [];
  meta = [];
  emit_xref = false;
  emit_meta = false;
  header_flags = 0;
}

-- Interns `text`.
unfoldable pub atom : List ℕ → ContainerBuilder → ContainerBuilder × ℕ
atom text b =
    let id = length b.atoms % u32_mod in
    elim (lookup text b.atom_index) [
      | some found ↦ (b, found)
      | none ↦
          (record b { atoms = b.atoms ++ text ∷ []; atom_index = insert text id b.atom_index }, id)
    ]

unfoldable pub define_kind : ℕ → List FieldDef → ContainerBuilder → ContainerBuilder × ℕ
define_kind name fields b = (
  record b { kinds = b.kinds ++ record { name = name; fields = fields } ∷ [] },
  length b.kinds % u32_mod,
)

unfoldable pub heap_node : ℕ → ℕ → ContainerBuilder → ContainerBuilder × ℕ
heap_node kind name b = (
  record b { heap = b.heap ++ record { kind = kind; name = name; fields = [] } ∷ [] },
  length b.heap % u32_mod,
)

abbrev pub enc_int : ℕ → List ℕ
enc_int v = svarint v

abbrev pub enc_float : ℕ → List ℕ
enc_float v = f64 v

abbrev pub enc_atom : ℕ → List ℕ
enc_atom v = varint v

abbrev pub enc_ref : ℕ → List ℕ
enc_ref v = varint v

unfoldable pub enc_list : List ℕ → List ℕ
enc_list v = varint (length v) ++ write_refs v

-- `heap_[node].fields.push_back({field, bytes})`
unfoldable pub heap_field : ℕ → ℕ → List ℕ → ContainerBuilder → Result ContainerBuilder
heap_field node field bytes b = elim (get_elem? b.heap node) [
  | some spec ↦ ok (record b {
    heap =
        set b.heap node
          (record spec { fields = spec.fields ++ record { field = field; bytes = bytes } ∷ [] });
  })
  | none ↦ fault out_of_range
]

abbrev pub heap_int : ℕ → ℕ → ℕ → ContainerBuilder → Result ContainerBuilder
heap_int node field v = heap_field node field (enc_int v)

abbrev pub heap_float : ℕ → ℕ → ℕ → ContainerBuilder → Result ContainerBuilder
heap_float node field v = heap_field node field (enc_float v)

abbrev pub heap_atom : ℕ → ℕ → ℕ → ContainerBuilder → Result ContainerBuilder
heap_atom node field v = heap_field node field (enc_atom v)

abbrev pub heap_ref : ℕ → ℕ → ℕ → ContainerBuilder → Result ContainerBuilder
heap_ref node field v = heap_field node field (enc_ref v)

abbrev pub heap_list : ℕ → ℕ → List ℕ → ContainerBuilder → Result ContainerBuilder
heap_list node field v = heap_field node field (enc_list v)

-- An opcode with its operands, and `journal_ops_++`.
unfoldable pub emit : ℕ → List ℕ → ContainerBuilder → ContainerBuilder
emit opcode operands b = record b {
  journal_body = b.journal_body ++ (u8 opcode ++ operands);
  journal_ops = (b.journal_ops + 1) % u32_mod;
}

-- Returns `kInvalidNode`: the builder does not know the id that replay will give.
abbrev pub op_new_node : ℕ → ℕ → ContainerBuilder → ContainerBuilder × ℕ
op_new_node kind name b = (emit 1 (varint kind ++ varint name) b, invalid_id)

abbrev pub emit_set_field : ℕ → ℕ → List ℕ → ContainerBuilder → ContainerBuilder
emit_set_field node field value_bytes = emit 2 (varint node ++ (varint field ++ value_bytes))

abbrev pub op_set_int : ℕ → ℕ → ℕ → ContainerBuilder → ContainerBuilder
op_set_int node field v = emit_set_field node field (enc_int v)

abbrev pub op_set_float : ℕ → ℕ → ℕ → ContainerBuilder → ContainerBuilder
op_set_float node field v = emit_set_field node field (enc_float v)

abbrev pub op_set_atom : ℕ → ℕ → ℕ → ContainerBuilder → ContainerBuilder
op_set_atom node field v = emit_set_field node field (enc_atom v)

abbrev pub op_set_ref : ℕ → ℕ → ℕ → ContainerBuilder → ContainerBuilder
op_set_ref node field v = emit_set_field node field (enc_ref v)

abbrev pub op_set_list : ℕ → ℕ → List ℕ → ContainerBuilder → ContainerBuilder
op_set_list node field v = emit_set_field node field (enc_list v)

abbrev pub op_begin_group : ℕ → ℕ → ContainerBuilder → ContainerBuilder
op_begin_group owner_name reserve_hint = emit 3 (varint owner_name ++ varint reserve_hint)

abbrev pub op_add_child : ℕ → ContainerBuilder → ContainerBuilder
op_add_child child_name = emit 5 (varint child_name)

abbrev pub op_end_group : ContainerBuilder → ContainerBuilder
op_end_group = emit 4 []

abbrev pub op_link_ref : ℕ → ℕ → ℕ → ContainerBuilder → ContainerBuilder
op_link_ref src field target_name = emit 6 (varint src ++ (varint field ++ varint target_name))

abbrev pub op_drop_node : ℕ → ContainerBuilder → ContainerBuilder
op_drop_node node = emit 7 (varint node)

abbrev pub op_snapshot : ℕ → ContainerBuilder → ContainerBuilder
op_snapshot label = emit 8 (varint label)

abbrev pub op_set_meta : ℕ → ℕ → ContainerBuilder → ContainerBuilder
op_set_meta key value = emit 9 (varint key ++ varint value)

abbrev pub op_nop : ContainerBuilder → ContainerBuilder
op_nop = emit 10 []

abbrev pub xref_entry : ℕ → ℕ → ContainerBuilder → ContainerBuilder
xref_entry name node b = record b { xref = b.xref ++ (name, node) ∷ []; emit_xref = true }

abbrev pub set_emit_xref : Bool → ContainerBuilder → ContainerBuilder
set_emit_xref on b = record b { emit_xref = on }

abbrev pub set_emit_meta : Bool → ContainerBuilder → ContainerBuilder
set_emit_meta on b = record b { emit_meta = on }

abbrev pub set_header_flags : ℕ → ContainerBuilder → ContainerBuilder
set_header_flags flags b = record b { header_flags = flags }

abbrev pub journal_op_count : ContainerBuilder → ℕ
journal_op_count b = b.journal_ops

abbrev pub meta_entry : ℕ → ℕ → ContainerBuilder → ContainerBuilder
meta_entry key value b = record b { meta = b.meta ++ (key, value) ∷ []; emit_meta = true }
