-- ===== src/Heap/Safety.antt =====
-- src/heap.cpp on arbitrary bytes.
use stratavm.Base.{
  ℕ, zero, suc, ◌+◌, ◌≤◌, ◌≡◌, refl, sym, subst, true, false, not, ltb, ltb→le, ◌==◌, List, [], ◌∷◌,
  ◌++◌, length, length-append, get_elem?, last_or_before, inl, inr, some, arith,
}
use stratavm.Status.{
  limit_exceeded, bad_heap, kind_out_of_range, atom_out_of_range, field_out_of_range,
}
use stratavm.Format.{Limits}
use stratavm.Reader.Bounds.{
  Safe, bind-Safe, return-Safe, refuse_if-Safe, or_fail-Safe, recode-Safe, Safe-imp,
}
use stratavm.Reader.Words.{read_varint_u32-Safe}
use stratavm.Value.{Value}
use stratavm.Value.Safety.{decode-Safe}
use stratavm.Atoms.{AtomPool, lacks}
use stratavm.Schema.{Schema, KindDef, kind, field}
use stratavm.Node.{Node, set_field}
use stratavm.Table
use stratavm.Table.{Allocator, Table}
use stratavm.Heap.{HeapImage, decode_fields, decode_node, decode_nodes, decode_heap}

-- A node of the heap: its id is its position, its kind is in the schema and its name, if it has one,
-- in the pool; it is alive and has no edges yet.
pub record IsLoaded (schema : Schema) (atoms : AtomPool) (i : ℕ) (n : Node) : Type 0 where
  pub id_ok : n.id ≡ i
  pub kind_ok : (k : KindDef) × (kind schema n.kind ≡ some k)
  pub name_ok : lacks atoms n.name ≡ false
  pub live : n.alive ≡ true
  pub real : n.placeholder ≡ false
  pub no_refs : n.refs ≡ []
  pub no_children : n.children ≡ []

abbrev pub AreLoaded : Schema → AtomPool → List Node → Type 0
AreLoaded schema atoms items =
    (i : ℕ) (n : Node) → get_elem? items i ≡ some n → IsLoaded schema atoms i n

set_field-IsLoaded :
    (schema : Schema) (atoms : AtomPool) (i f : ℕ) (v : Value) (n : Node)
    → IsLoaded schema atoms i n
    → IsLoaded schema atoms i (set_field f v n)
set_field-IsLoaded schema atoms i f v n h = record {
  id_ok = h.id_ok;
  kind_ok = h.kind_ok;
  name_ok = h.name_ok;
  live = h.live;
  real = h.real;
  no_refs = h.no_refs;
  no_children = h.no_children;
}

decode_fields-Safe :
    (schema : Schema) (atoms : AtomPool) (limits : Limits) (k : KindDef) (i rounds : ℕ) (n : Node)
    → IsLoaded schema atoms i n
    → Safe (decode_fields limits k rounds n) (IsLoaded schema atoms i)
unfolding decode_fields
decode_fields-Safe schema atoms limits k i zero n h = return-Safe n h
decode_fields-Safe schema atoms limits k i (suc rounds) n h =
    bind-Safe read_varint_u32-Safe λ field_idx _.
      bind-Safe (or_fail-Safe (field k field_idx) field_out_of_range) λ fd _.
        bind-Safe (recode-Safe bad_heap (decode-Safe limits fd.type)) λ v _.
          decode_fields-Safe schema atoms limits k i rounds (set_field field_idx v n)
            (set_field-IsLoaded schema atoms i field_idx v n h)

decode_node-Safe :
    (schema : Schema) (atoms : AtomPool) (limits : Limits) (i : ℕ)
    → Safe (decode_node schema atoms limits i) (IsLoaded schema atoms i)
unfolding decode_node
decode_node-Safe schema atoms limits i = bind-Safe read_varint_u32-Safe λ on_disk_id _.
    bind-Safe (refuse_if-Safe (not (on_disk_id == i)) bad_heap) λ _ _.
      bind-Safe read_varint_u32-Safe λ kind_id _.
        bind-Safe (or_fail-Safe (kind schema kind_id) kind_out_of_range) λ k known.
          bind-Safe read_varint_u32-Safe λ name _.
            bind-Safe (refuse_if-Safe (lacks atoms name) atom_out_of_range) λ _ named.
              bind-Safe read_varint_u32-Safe λ field_count _.
                bind-Safe (refuse_if-Safe (ltb (length k.fields) field_count) bad_heap) λ _ _.
                  decode_fields-Safe schema atoms limits k i field_count _ (record {
                    id_ok = refl;
                    kind_ok = (k, known);
                    name_ok = named;
                    live = refl;
                    real = refl;
                    no_refs = refl;
                    no_children = refl;
                  })

added-AreLoaded :
    (schema : Schema) (atoms : AtomPool) (items : List Node) (x : Node)
    → AreLoaded schema atoms items
    → IsLoaded schema atoms (length items) x
    → AreLoaded schema atoms (items ++ x ∷ [])
added-AreLoaded schema atoms items x h new i n e = elim (last_or_before items x i n e) [
  | inl old ↦ h i n old
  | inr (last, same) ↦
      subst (λ j. IsLoaded schema atoms j n) (sym last)
        (subst (IsLoaded schema atoms (length items)) same new)
]

decode_nodes-Safe :
    (alloc : Allocator) (schema : Schema) (atoms : AtomPool) (limits : Limits) (rounds i : ℕ)
    (out : HeapImage)
    → AreLoaded schema atoms out.items
    → length out.items ≡ i
    → Safe
        (decode_nodes alloc schema atoms limits rounds i out)
        (λ t. AreLoaded schema atoms t.items × (length t.items ≡ rounds + i))
unfolding decode_nodes Table.push_back
decode_nodes-Safe alloc schema atoms limits zero i out h len = return-Safe out (h, omega arith)
decode_nodes-Safe alloc schema atoms limits (suc rounds) i out h len =
    bind-Safe (decode_node-Safe schema atoms limits i) λ node new.
      Safe-imp (λ t k. (k.0, omega (arith, k.1)))
        (decode_nodes-Safe alloc schema atoms limits rounds (i + 1) (Table.push_back alloc node out)
          (added-AreLoaded schema atoms out.items node h
            (subst (λ j. IsLoaded schema atoms j node) (sym len) new))
          (omega (arith, length-append out.items (node ∷ []))))

-- On any bytes, the heap's decoder indexes nothing out of range, and a heap that it accepts has at most
-- `max_nodes` nodes, each alive, with its position for id, a kind of the schema, no name or one of the
-- pool, and no edges.
pub decode_heap-AreLoaded :
    (alloc : Allocator) (schema : Schema) (atoms : AtomPool) (limits : Limits)
    → Safe
        (decode_heap alloc schema atoms limits)
        (λ t. AreLoaded schema atoms t.items × (length t.items ≤ limits.max_nodes))
unfolding decode_heap Table.reserve
decode_heap-AreLoaded alloc schema atoms limits = bind-Safe read_varint_u32-Safe λ count _.
    bind-Safe (refuse_if-Safe (ltb limits.max_nodes count) limit_exceeded) λ _ few.
      Safe-imp (λ t k. (k.0, omega (arith, k.1, ltb→le _ _ few)))
        (decode_nodes-Safe alloc schema atoms limits count 0 (Table.reserve alloc count Table.empty)
          (λ i n e. cc) refl)
