-- ===== src/Loader/Safety.antt =====
-- src/loader.cpp on arbitrary files.
use stratavm.Base.{
  ℕ, zero, suc, ◌-◌, ◌≤◌, ◌≡◌, refl, Bool, true, false, ◌||◌, ltb, Bool-cases, inl, inr, List, [],
  drop, length, All, All-take, All-drop, Option, some, none, arith,
}
use stratavm.Base.Maps.{Map, nat_eq, insert}
use stratavm.Status.{
  Contained, gives, Ensures, returns, refuses, bind-Contained, Ensures-Contained, limit_exceeded,
  atom_out_of_range,
}
use stratavm.Format.{Limits, tag_atom, tag_schema, tag_heap, tag_journal, tag_xref, tag_meta}
use stratavm.Reader.{ByteReader, Decoder, return, ◌>>=◌, reader_of, window}
use stratavm.Reader.Bounds.{
  IsByte, IsValid, Safe, bind-Safe, return-Safe, refuse_if-Safe, or_fail-Safe, Safe-imp,
}
use stratavm.Reader.Words.{read_varint_u32-Safe}
use stratavm.Reader.Tame.{Tame, Safe-Tame, bind-Tame}
use stratavm.Atoms
use stratavm.Atoms.{AtomPool, get, lacks}
use stratavm.Atoms.Invariant.{IsIndexed, empty-IsIndexed, decode-IsIndexed}
use stratavm.Schema
use stratavm.Schema.{Schema}
use stratavm.Schema.Safety.{SchemaOk, decode-Counted}
use stratavm.Section.{SectionEntry, find}
use stratavm.Section.Directory.{DirectoryOk, decode-DirectoryOk}
use stratavm.Heap.{decode_heap}
use stratavm.Heap.Safety.{decode_heap-AreLoaded}
use stratavm.Table.{Allocator}
use stratavm.Vm.{ReplayVm, Context, initial, seed, node_count}
use stratavm.Vm.Kept.{IsInRange}
use stratavm.Vm.Seed.{seed-IsInRange, initial-IsInRange}
use stratavm.Vm.GroupSafety.{run-Tame}
use stratavm.Xref
use stratavm.Xref.{XrefIndex, decode_and_reconcile}
use stratavm.Xref.Safety.{decode_and_reconcile-Safe}
use stratavm.Validator.Bounds.{validate_graph-SoftOk}
use stratavm.Loader.{
  LoadOptions, LoadedContainer, decode_meta, decode_meta_section, in_section, replay, load,
}

decode_meta-Safe :
    (atoms : AtomPool) (rounds : ℕ) (out : Map ℕ ℕ)
    → Safe (decode_meta atoms rounds out) (λ _. Unit {0})
unfolding decode_meta
decode_meta-Safe atoms zero out = return-Safe out tt
decode_meta-Safe atoms (suc rounds) out = bind-Safe read_varint_u32-Safe λ key _.
    bind-Safe read_varint_u32-Safe λ value _.
      bind-Safe (or_fail-Safe (get atoms key) atom_out_of_range) λ _ _.
        bind-Safe (refuse_if-Safe (lacks atoms value) atom_out_of_range)
          λ _ _. decode_meta-Safe atoms rounds (insert key value out)

decode_meta_section-Safe :
    (atoms : AtomPool) (limits : Limits) → Safe (decode_meta_section atoms limits) (λ _. Unit {0})
unfolding decode_meta_section
decode_meta_section-Safe atoms limits =
    bind-Safe read_varint_u32-Safe
      λ count _. bind-Safe (refuse_if-Safe _ limit_exceeded) λ _ _. decode_meta-Safe atoms count []

-- A window of a valid reader is a valid reader.
window-Ensures :
    (base : ByteReader) (offset len : ℕ) → IsValid base → Ensures IsValid (window base offset len)
unfolding window
window-Ensures base offset len h =
    elim (Bool-cases (ltb (length base.data_of) offset || ltb (length base.data_of - offset) len)) [
      | inl out ↦ rw out refuses
      | inr in_file ↦ rw in_file (
          returns (record {
            within = omega arith;
            bytes =
                All-take IsByte len (drop offset base.data_of)
                  (All-drop IsByte offset base.data_of h.bytes);
          }))
    ]

in_section-Contained {κ} :
    {A : Type 0} {P : A → Type κ} (base : ByteReader) (e : Option SectionEntry) (kept : A)
    (m : Decoder A)
    → IsValid base
    → P kept
    → Tame m P
    → Contained P (in_section base e kept m)
unfolding in_section
in_section-Contained base none kept m v p h = gives p
in_section-Contained base (some e) kept m v p h =
    bind-Contained (Ensures-Contained (window-Ensures base e.offset e.len v))
      λ r v'. bind-Contained (h.at r v') λ s q. gives q.0

-- A machine between opcodes, with no group open.
abbrev AtRest : ReplayVm → Type 0
AtRest vm = IsInRange vm × (vm.frames ≡ [])

seed-AtRest :
    (alloc : Allocator) (schema : Schema) (atoms : AtomPool) (limits : Limits)
    → Safe (do heap ← decode_heap alloc schema atoms limits; return (seed heap initial)) AtRest
unfolding seed
seed-AtRest alloc schema atoms limits =
    bind-Safe (decode_heap-AreLoaded alloc schema atoms limits)
      λ heap h. return-Safe _ (seed-IsInRange schema atoms heap h.0, refl)

replay-Contained :
    (test : Bool) (c : Context) (base : ByteReader) (e : Option SectionEntry) (vm : ReplayVm)
    → IsValid base
    → AtRest vm
    → Contained (λ s. AtRest s.0) (replay test c base e vm)
unfolding replay
replay-Contained false c base e vm v h = gives h
replay-Contained true c base e vm v h =
    in_section-Contained base e (vm, false) _ v h
      (bind-Tame (run-Tame c vm h.0) λ vm' k. Safe-Tame (return-Safe _ (k.0.in_range, k.1)))

-- What a loaded container is: a directory whose windows lie in the file, an atom pool whose reverse map
-- finds the first atom of each text, a schema whose names are in the pool, a machine with no group open
-- whose ids, edges, children and names are in range, the index of its nodes, and no more warnings than
-- `max_nodes`.
pub record LoadedOk (options : LoadOptions) (file_size : ℕ) (lc : LoadedContainer) : Type 0 where
  pub directory_ok : DirectoryOk file_size lc.sections.entries
  pub atoms_ok : IsIndexed lc.atoms
  pub schema_ok : SchemaOk lc.atoms options.limits lc.schema
  pub vm_ok : IsInRange lc.vm
  pub no_frames : lc.vm.frames ≡ []
  pub xref_is : lc.xref ≡ Xref.build lc.vm.nodes.items
  pub few_warnings : lc.xref_warnings ≤ options.limits.max_nodes

-- Loading any file, under any options and any growth of the node table, indexes nothing out of range:
-- it fails with a code, follows a stale owner pointer, or gives a container that is `LoadedOk`.
pub load-Contained :
    (alloc : Allocator) (options : LoadOptions) (bytes : List ℕ)
    → All IsByte bytes
    → Contained (LoadedOk options (length bytes)) (load alloc options bytes)
unfolding load
load-Contained alloc options bytes small =
    let limits = options.limits in
    bind-Contained
      (Ensures-Contained (
        (decode-DirectoryOk (length bytes) limits).at (reader_of bytes)
          (record { within = omega arith; bytes = small })))
      λ (sections, base) directory.
        let v = directory.1.valid in
        bind-Contained
          (in_section-Contained base (find sections tag_atom) Atoms.empty _ v empty-IsIndexed
            (Safe-Tame (Safe-imp (λ p k. k.0) (decode-IsIndexed limits))))
          λ atoms atoms_ok.
            bind-Contained
              (in_section-Contained base (find sections tag_schema) Schema.empty _ v
                (record { kinds_ok = tt; few = omega arith }, tt)
                (Safe-Tame (decode-Counted atoms limits)))
              λ schema (schema_ok, counted).
                bind-Contained
                  (in_section-Contained base (find sections tag_heap) initial _ v
                    (initial-IsInRange, refl) (Safe-Tame (seed-AtRest alloc schema atoms limits)))
                  λ seeded rest.
                    bind-Contained
                      (replay-Contained options.run_journal _ base (find sections tag_journal)
                        seeded v rest)
                      λ (vm, journal_ran) rest'.
                        bind-Contained
                          (in_section-Contained base (find sections tag_xref) 0 _ v (omega arith)
                            (Safe-Tame (decode_and_reconcile-Safe _ atoms limits (node_count vm))))
                          λ xref_warnings few.
                            bind-Contained
                              (in_section-Contained base (find sections tag_meta) [] _ v tt
                                (Safe-Tame (decode_meta_section-Safe atoms limits)))
                              λ section_meta _.
                                let (rep, made, _) =
                                  validate_graph-SoftOk vm.nodes.items schema
                                    options.strict_validation counted in
                                rw made (
                                  gives (record {
                                    directory_ok = directory.0.0;
                                    atoms_ok = atoms_ok;
                                    schema_ok = schema_ok;
                                    vm_ok = rest'.0;
                                    no_frames = rest'.1;
                                    xref_is = refl;
                                    few_warnings = few;
                                  }))
