-- ===== src/Runs/Containers.antt =====
-- Runs of the builder, the compactor and the field index.
use stratavm.Base.{ℕ, ◌^◌, ◌<◌, ◌≡◌, refl, ltb→lt, [], ◌∷◌, List, length, arith, All}
use stratavm.Status.{ok}
use stratavm.Format.{OpCode, default_limits, tag_schema}
use stratavm.Reader.{reader_of, advanced}
use stratavm.Value.{Value}
use stratavm.Schema
use stratavm.Section
use stratavm.Section.{SectionTable, find}
use stratavm.Loader.{in_section}
use stratavm.Node.{Node, fresh}
use stratavm.Builder.{ContainerBuilder, new_builder, emit, op_nop, xref_entry}
use stratavm.Atoms.{build_atom_section}
use stratavm.Schema.{build_schema_section}
use stratavm.Writer.{lp_string, varint, u8, u16, u32, patch_u32}
use stratavm.Builder.Serialize.{
  serialize, sections, write_header, build_heap_section, build_journal_section, build_pair_section,
  write_entries, place_payloads,
}
use stratavm.Builder.Readback.{IsPlaced}
use stratavm.Builder.RoundTrip.{decode-serialize, schema-serialize}
use stratavm.Compactor.{OpRecord, blank}
use stratavm.Reader.Bounds.{Safe}
use stratavm.Compactor.Compact.{compact}
use stratavm.Compactor.Decoded.{compact-Safe}
use stratavm.Compactor.Reencode.{CompactionResult, reencode}
use stratavm.Compactor.Settled.{IsUnmarked}
use stratavm.Compactor.Output.{IsWritten, reencode-IsWritten}
use stratavm.FieldIndex.{build, lookup_int, lookup_atom, lookup_has_field}
use stratavm.FieldIndex.Lookups.{select, has_int, has_atom, at_field, entries, build-select}
use stratavm.Runs.{pool, one_kind}
use stratavm.Runs.Codecs.{one_kind-SchemaOk}

-- Two atoms, a kind, an opcode and an entry of the cross-reference section.
abbrev built : ContainerBuilder
built = xref_entry 0 0 (
    op_nop
      (record new_builder { atoms = pool.atoms; atom_index = pool.index; kinds = one_kind.kinds }))

built_small : length (serialize built) < 2 ^ 32
unfolding serialize sections emit write_header build_atom_section build_schema_section
    build_heap_section build_journal_section build_pair_section lp_string varint u8 u16 u32
    patch_u32 write_entries place_payloads
built_small = ltb→lt (length (serialize built)) (2 ^ 32) refl

built_flags : built.header_flags < 2 ^ 16
unfolding emit
built_flags = omega arith

decode-serialize_example :
    (t : SectionTable) × (taken : ℕ) × (Section.decode
        (length (serialize built))
        default_limits
        (reader_of (serialize built))
      ≡ ok (t, advanced taken (reader_of (serialize built))))
    × (t.header.flags ≡ built.header_flags)
    × All (IsPlaced (serialize built) t) (sections built)
decode-serialize_example =
    decode-serialize built default_limits built_small built_flags (omega arith)

schema-serialize_example :
    (t : SectionTable) × (taken : ℕ) × (Section.decode
        (length (serialize built))
        default_limits
        (reader_of (serialize built))
      ≡ ok (t, advanced taken (reader_of (serialize built))))
    × (in_section
          (advanced taken (reader_of (serialize built)))
          (find t tag_schema)
          Schema.empty
          (Schema.decode pool default_limits)
        ≡ ok (record { kinds = built.kinds }))
unfolding emit
schema-serialize_example =
    schema-serialize built default_limits built_small built_flags (omega arith) pool (omega arith)
      (omega arith) (omega arith) one_kind-SchemaOk

-- A Nop, a group with a child, and two writes of one field.
abbrev journal : List OpRecord
journal =
    blank OpCode.nop
    ∷ blank OpCode.new_node
    ∷ blank OpCode.begin_group
    ∷ blank OpCode.add_child
    ∷ blank OpCode.end_group
    ∷ record (blank OpCode.set_field) { value = Value.int 1 }
    ∷ record (blank OpCode.set_field) { value = Value.int 2 }
    ∷ []

journal-IsUnmarked : All IsUnmarked journal
journal-IsUnmarked = (refl, (refl, (refl, (refl, (refl, (refl, (refl, tt)))))))

reencode-IsWritten_example :
    (out : CompactionResult) × (reencode journal ≡ ok out) × IsWritten journal out
reencode-IsWritten_example =
    reencode-IsWritten journal (ltb→lt (length journal) (2 ^ 32) refl) journal-IsUnmarked
      (tt, (tt, (refl, (tt, (tt, (tt, (tt, tt)))))))

compact-Safe_example :
    Safe
      (compact one_kind)
      (λ out. (ops : List OpRecord) × (reencode ops ≡ ok out) × IsWritten ops out)
compact-Safe_example = compact-Safe one_kind

abbrev indexed : List Node
indexed =
    record fresh { id = 0; kind = 2; name = 0; fields = (1, Value.int 7) ∷ (3, Value.atom 4) ∷ [] }
    ∷ record fresh { id = 1; kind = 2; name = 0; fields = (1, Value.int 7) ∷ [] }
    ∷ []

build-select_example :
    (lookup_int (build indexed) 2 1 7 ≡ select (has_int 2 1 7) (entries indexed))
    × (lookup_atom (build indexed) 2 1 7 ≡ select (has_atom 2 1 7) (entries indexed))
    × (lookup_has_field (build indexed) 2 1 ≡ select (at_field 2 1) (entries indexed))
    × ((build indexed).entry_count ≡ length (entries indexed))
build-select_example = build-select indexed 2 1 7
