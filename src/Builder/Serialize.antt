-- ===== src/Builder/Serialize.antt =====
-- src/builder.cpp: the section payloads and the assembly of the container.
use stratavm.Base.{ℕ, suc, ◌%◌, Bool, List, [], ◌∷◌, ◌++◌, length, if◌then◌else◌}
use stratavm.Format.{
  magic, version_major, tag_atom, tag_schema, tag_heap, tag_journal, tag_xref, tag_meta, u32_mod,
}
use stratavm.Writer.{u8, u16, u32, varint, patch_u32}
use stratavm.Atoms.{build_atom_section}
use stratavm.Schema.{build_schema_section}
use stratavm.Builder.{ContainerBuilder, HeapNodeSpec, FieldValue}

pub write_field_values : List FieldValue → List ℕ
write_field_values [] = []
write_field_values (fv ∷ rest) = varint fv.field ++ (fv.bytes ++ write_field_values rest)

pub write_heap_nodes : ℕ → List HeapNodeSpec → List ℕ
write_heap_nodes i [] = []
write_heap_nodes i (n ∷ rest) =
    varint i
    ++ (varint n.kind
        ++ (varint n.name
            ++ (varint (length n.fields)
                ++ (write_field_values n.fields ++ write_heap_nodes (suc i) rest))))

unfoldable pub build_heap_section : List HeapNodeSpec → List ℕ
unfolding write_heap_nodes write_field_values
build_heap_section heap = varint (length heap) ++ write_heap_nodes 0 heap

unfoldable pub build_journal_section : ContainerBuilder → List ℕ
build_journal_section b = varint b.journal_ops ++ b.journal_body

unfoldable pub write_pairs : List (ℕ × ℕ) → List ℕ
write_pairs [] = []
write_pairs ((a, b) ∷ rest) = varint a ++ (varint b ++ write_pairs rest)

-- The XREF and the META section have one form.
unfoldable pub build_pair_section : List (ℕ × ℕ) → List ℕ
unfolding write_pairs
build_pair_section entries = varint (length entries) ++ write_pairs entries

pub record Built : Type 0 where
  pub tag : ℕ
  pub payload : List ℕ

-- The sections of given payloads; the flags say whether the last two are there.
abbrev pub assembled : Bool → Bool → (atom schema heap journal xref meta : List ℕ) → List Built
assembled emit_xref emit_meta atom schema heap journal xref meta =
    record { tag = tag_atom; payload = atom }
    ∷ record { tag = tag_schema; payload = schema }
    ∷ record { tag = tag_heap; payload = heap }
    ∷ record { tag = tag_journal; payload = journal }
    ∷ ((if emit_xref then record { tag = tag_xref; payload = xref } ∷ [] else [])
        ++ (if emit_meta then record { tag = tag_meta; payload = meta } ∷ [] else []))

unfoldable pub sections : ContainerBuilder → List Built
sections b =
    assembled b.emit_xref b.emit_meta (build_atom_section b.atoms) (build_schema_section b.kinds)
      (build_heap_section b.heap) (build_journal_section b) (build_pair_section b.xref)
      (build_pair_section b.meta)

unfoldable pub write_header : ContainerBuilder → ℕ → List ℕ
write_header b count =
    magic ++ (u8 version_major ++ (u8 0 ++ (u16 b.header_flags ++ u32 (count % u32_mod))))

-- One entry up to its offset: the tag, version 1, a reserved byte, no flags.
abbrev pub entry_head : ℕ → List ℕ
entry_head tag = u32 tag ++ (u8 1 ++ (u8 0 ++ u16 0))

-- The directory behind `out`, with zeros for offsets and lengths, and where these stand.
unfoldable pub write_entries : List Built → List ℕ → List ℕ × List (ℕ × ℕ)
write_entries [] out = (out, [])
write_entries (s ∷ rest) out =
    let head = out ++ entry_head s.tag in
    let offset_slot = length head in
    let length_slot = length (head ++ u32 0) in
    let (done, slots) = write_entries rest (head ++ u32 0 ++ u32 0) in
    (done, (offset_slot, length_slot) ∷ slots)

-- Appends the payloads and patches the directory.
unfoldable pub place_payloads : List Built → List (ℕ × ℕ) → List ℕ → List ℕ
place_payloads (s ∷ rest) ((offset_slot, length_slot) ∷ slots) out =
    let offset = length out % u32_mod in
    let placed = patch_u32 (out ++ s.payload) offset_slot offset in
    place_payloads rest slots (patch_u32 placed length_slot (length s.payload % u32_mod))
place_payloads _ _ out = out

unfoldable pub serialize : ContainerBuilder → List ℕ
unfolding write_entries place_payloads
serialize b =
    let built = sections b in
    let (out, slots) = write_entries built (write_header b (length built)) in
    place_payloads built slots out
