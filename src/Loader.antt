-- ===== src/Loader.antt =====
-- include/stratavm/loader.hpp and src/loader.cpp: the whole pipeline, from a file's bytes to the
-- reconstructed graph.
pub mod Safety
use stratavm.Base.{
  ℕ, zero, suc, ◌||◌, ltb, List, [], length, Bool, true, false, Option, none, some, if◌then◌else◌,
}
use stratavm.Base.Maps.{Map, nat_eq, insert}
use stratavm.Status.{Result, ok, err, limit_exceeded, atom_out_of_range}
use stratavm.Status.{◌>>=◌ as ◌>>>=◌}
use stratavm.Format.{Limits, tag_atom, tag_schema, tag_heap, tag_journal, tag_xref, tag_meta}
use stratavm.Reader.{
  ByteReader, Decoder, ◌>>=◌, ◌>>◌, return, refuse_if, or_fail, reader_of, window, read_varint_u32,
}
use stratavm.Atoms
use stratavm.Atoms.{AtomPool, get, lacks}
use stratavm.Schema
use stratavm.Schema.{Schema}
use stratavm.Section
use stratavm.Section.{SectionEntry, SectionTable, find}
use stratavm.Heap.{decode_heap}
use stratavm.Table.{Allocator}
use stratavm.Vm.{ReplayVm, Context, initial, seed, run, node_count}
use stratavm.Xref
use stratavm.Xref.{XrefIndex, decode_and_reconcile}
use stratavm.Validator.{ValidationReport, validate_graph}

pub record LoadOptions : Type 0 where
  pub limits : Limits
  pub run_journal : Bool
  pub strict_validation : Bool

pub record LoadedContainer : Type 0 where
  pub atoms : AtomPool
  pub schema : Schema
  pub sections : SectionTable
  pub vm : ReplayVm
  pub xref : XrefIndex
  pub report : ValidationReport
  pub section_meta : Map ℕ ℕ
  pub xref_warnings : ℕ
  pub journal_ran : Bool

unfoldable pub decode_meta : AtomPool → ℕ → Map ℕ ℕ → Decoder (Map ℕ ℕ)
decode_meta atoms zero out = return out
decode_meta atoms (suc rounds) out = do
  key ← read_varint_u32
  value ← read_varint_u32
  _ ← or_fail (get atoms key) atom_out_of_range
  refuse_if (lacks atoms value) atom_out_of_range
  decode_meta atoms rounds (insert key value out)

unfoldable pub decode_meta_section : AtomPool → Limits → Decoder (Map ℕ ℕ)
decode_meta_section atoms limits = do
  count ← read_varint_u32
  refuse_if (ltb limits.max_atoms count) limit_exceeded
  decode_meta atoms count []

-- `if (e = sections.find(tag))`: decode in the section's window, or keep what there was.
unfoldable pub in_section :
    {A : Type 0} → ByteReader → Option SectionEntry → A → Decoder A → Result A
in_section base none kept m = ok kept
in_section base (some e) kept m = window base e.offset e.len >>>= λ r. m r >>>= λ s. ok s.0

-- `options.run_journal` and the journal's section: the machine, and whether it ran.
unfoldable pub replay :
    Bool → Context → ByteReader → Option SectionEntry → ReplayVm → Result (ReplayVm × Bool)
replay false c base e vm = ok (vm, false)
replay true c base e vm = in_section base e (vm, false) (do vm' ← run c vm; return (vm', true))

unfoldable pub load : Allocator → LoadOptions → List ℕ → Result LoadedContainer
load alloc options bytes =
    let limits = options.limits in
    Section.decode (length bytes) limits (reader_of bytes) >>>= λ (sections, base).
    in_section base (find sections tag_atom) Atoms.empty (Atoms.decode limits) >>>= λ atoms.
    in_section base (find sections tag_schema) Schema.empty (Schema.decode atoms limits)
    >>>= λ schema.
        in_section base (find sections tag_heap) initial
          (do heap ← decode_heap alloc schema atoms limits; return (seed heap initial))
        >>>= λ seeded.
            replay options.run_journal
              (record { alloc = alloc; schema = schema; atoms = atoms; limits = limits }) base
              (find sections tag_journal) seeded
            >>>= λ (vm, journal_ran).
                let xref = Xref.build vm.nodes.items in
                in_section base (find sections tag_xref) 0
                  (decode_and_reconcile xref atoms limits (node_count vm) 0)
                >>>= λ xref_warnings.
                    in_section base (find sections tag_meta) [] (decode_meta_section atoms limits)
                    >>>= λ section_meta.
                        validate_graph vm.nodes.items schema options.strict_validation
                        >>>= λ report. ok (record {
                          atoms = atoms;
                          schema = schema;
                          sections = sections;
                          vm = vm;
                          xref = xref;
                          report = report;
                          section_meta = section_meta;
                          xref_warnings = xref_warnings;
                          journal_ran = journal_ran;
                        })
