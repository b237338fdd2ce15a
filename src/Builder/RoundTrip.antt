-- ===== src/Builder/RoundTrip.antt =====
-- src/section.cpp after src/builder.cpp: the directory of a built container.
use stratavm.Base.{
  ℕ, ◌+◌, ◌*◌, ◌%◌, ◌^◌, ◌≤◌, ◌<◌, ◌≡◌, refl, ap, sym, subst, ◌∙◌, Bool, true, false, List, [], ◌∷◌,
  ◌++◌, length, length-append, append_assoc, append-nil, All, le→ltb, arith,
}
use stratavm.Status.{ok, bad_magic, unsupported_version, limit_exceeded}
use stratavm.Format.{Limits, magic, version_major, u32_mod, tag_schema}
use stratavm.Reader.{reader_of, advanced, window}
use stratavm.Reader.Reads.{
  Reads, bind-Reads, bind_last-Reads, refuse_if-Reads, return-Reads, read_bytes-Reads,
}
use stratavm.Writer.{u8, u16, u32}
use stratavm.Writer.Fixed.{u8-Reads, u16-Reads, u32-Reads}
use stratavm.Section
use stratavm.Section.{
  FileHeader, SectionEntry, SectionTable, decode_entries, outside, has_tag, find, find_entry,
}
use stratavm.Builder.{ContainerBuilder}
use stratavm.Builder.Serialize.{
  Built, sections, write_header, serialize, assembled, build_heap_section, build_journal_section,
  build_pair_section,
}
use stratavm.Loader.{in_section}
use stratavm.Atoms.{AtomPool, build_atom_section}
use stratavm.Schema
use stratavm.Schema.RoundTrip.{decode-build_schema_section}
use stratavm.Schema.Safety.{SchemaOk}
use stratavm.Schema.{build_schema_section}
use stratavm.Builder.Readback.{AreNew, Windows, Windows_lem, IsPlaced, decode_entries-Reads}
use stratavm.Builder.Layout.{
  entries_from, entry_bytes, directory, payloads, first_payload, serialize_lem, length-entry,
  length-write_header,
}

module _ (atom schema heap journal xref meta : List ℕ) where
  assembled-AreNew :
      (x m : Bool) (at : ℕ)
      → AreNew [] (entries_from at (assembled x m atom schema heap journal xref meta))
  unfolding AreNew entries_from has_tag
  assembled-AreNew false false at = (refl, (refl, (refl, (refl, tt))))
  assembled-AreNew true false at = (refl, (refl, (refl, (refl, (refl, tt)))))
  assembled-AreNew false true at = (refl, (refl, (refl, (refl, (refl, tt)))))
  assembled-AreNew true true at = (refl, (refl, (refl, (refl, (refl, (refl, tt))))))

  assembled-tags :
      (x m : Bool) → All (λ s. s.tag < 2 ^ 32) (assembled x m atom schema heap journal xref meta)
  assembled-tags false false = (omega arith, (omega arith, (omega arith, (omega arith, tt))))
  assembled-tags true false =
      (omega arith, (omega arith, (omega arith, (omega arith, (omega arith, tt)))))
  assembled-tags false true =
      (omega arith, (omega arith, (omega arith, (omega arith, (omega arith, tt)))))
  assembled-tags true true =
      (omega arith, (omega arith, (omega arith, (omega arith, (omega arith, (omega arith, tt))))))

  assembled-count : (x m : Bool) → length (assembled x m atom schema heap journal xref meta) ≤ 6
  assembled-count false false = omega arith
  assembled-count true false = omega arith
  assembled-count false true = omega arith
  assembled-count true true = omega arith

  assembled-IsPlaced :
      (x m : Bool) (at : ℕ) (file : List ℕ) (h : FileHeader)
      → Windows file at (assembled x m atom schema heap journal xref meta)
      → All
          (IsPlaced file (record {
            header = h;
            entries = entries_from at (assembled x m atom schema heap journal xref meta);
          }))
          (assembled x m atom schema heap journal xref meta)
  unfolding Windows entries_from find_entry
  assembled-IsPlaced false false at file h (w0, (w1, (w2, (w3, _)))) =
      ((_, refl, w0), ((_, refl, w1), ((_, refl, w2), ((_, refl, w3), tt))))
  assembled-IsPlaced true false at file h (w0, (w1, (w2, (w3, (w4, _))))) =
      ((_, refl, w0), ((_, refl, w1), ((_, refl, w2), ((_, refl, w3), ((_, refl, w4), tt)))))
  assembled-IsPlaced false true at file h (w0, (w1, (w2, (w3, (w4, _))))) =
      ((_, refl, w0), ((_, refl, w1), ((_, refl, w2), ((_, refl, w3), ((_, refl, w4), tt)))))
  assembled-IsPlaced true true at file h (w0, (w1, (w2, (w3, (w4, (w5, _)))))) = (
    (_, refl, w0),
    ((_, refl, w1), ((_, refl, w2), ((_, refl, w3), ((_, refl, w4), ((_, refl, w5), tt))))),
  )

length-directory :
    (at : ℕ) (ss : List Built) → length (directory (entries_from at ss)) ≡ 16 * length ss
unfolding directory entries_from
length-directory at [] = refl
length-directory at (s ∷ rest) = omega (
  arith,
  length-append (entry_bytes _) (directory (entries_from (at + length s.payload) rest)),
  length-directory (at + length s.payload) rest,
  length-entry s.tag (at % u32_mod) (length s.payload % u32_mod),
)

on_sections :
    (b : ContainerBuilder) (P : List Built → Type 0)
    → ((atom schema heap journal xref meta : List ℕ) (x m : Bool)
        → P (assembled x m atom schema heap journal xref meta))
    → P (sections b)
unfolding sections
on_sections b P h =
    h (build_atom_section b.atoms) (build_schema_section b.kinds) (build_heap_section b.heap)
      (build_journal_section b) (build_pair_section b.xref) (build_pair_section b.meta) b.emit_xref
      b.emit_meta

module _ (b : ContainerBuilder) (limits : Limits) where
  abbrev file_size : ℕ
  file_size = length (serialize b)

  abbrev start : ℕ
  start = first_payload (sections b)

  abbrev front : List ℕ
  front = write_header b (length (sections b)) ++ directory (entries_from start (sections b))

  abbrev table : SectionTable
  table = record {
    header = record {
      version_major = version_major;
      version_minor = 0;
      flags = b.header_flags;
      section_count = length (sections b);
    };
    entries = entries_from start (sections b);
  }

  count_fits : length (sections b) ≤ 6
  count_fits = on_sections b (λ ss. length ss ≤ 6) assembled-count

  header-Reads :
      file_size < 2 ^ 32
      → b.header_flags < 2 ^ 16
      → 6 ≤ limits.max_sections
      → start + length (payloads (sections b)) ≤ file_size
      → Reads (Section.decode file_size limits) front table
  unfolding Section.decode write_header
  header-Reads small flags room fits =
      subst (λ bytes. Reads (Section.decode file_size limits) bytes table) regroup
        (bind-Reads _ _ magic _ magic _ (read_bytes-Reads magic) (
          bind-Reads _ _ [] _ tt _ (refuse_if-Reads bad_magic _ refl) (
            bind-Reads _ _ (u8 version_major) _ version_major _
              (u8-Reads version_major (omega arith))
              (bind-Reads _ _ (u8 0) _ 0 _ (u8-Reads 0 (omega arith)) (
                bind-Reads _ _ (u16 b.header_flags) _ b.header_flags _
                  (u16-Reads b.header_flags flags)
                  (bind-Reads _ _ (u32 count) _ count _
                    (u32-Reads count (omega (arith, count_fits)))
                    (bind-Reads _ _ [] _ tt _ (refuse_if-Reads unsupported_version _ refl) (
                      bind-Reads _ _ [] _ tt _
                        (refuse_if-Reads limit_exceeded _
                          (le→ltb _ _ (omega (arith, count_fits, room))))
                        (bind_last-Reads _ _ entries _ _
                          (decode_entries-Reads file_size small (sections b) start []
                            (on_sections b (All (λ s. s.tag < 2 ^ 32)) assembled-tags) fits
                            (on_sections b (λ ss. AreNew [] (entries_from start ss))
                              λ a s h j x m e f. assembled-AreNew a s h j x m e f start))
                          (return-Reads table))))))))))
    where
      count : ℕ
      count = length (sections b)

      entries : List ℕ
      entries = directory (entries_from start (sections b))

      regroup :
          magic ++ (u8 version_major ++ (u8 0 ++ (u16 b.header_flags ++ (u32 count ++ entries))))
          ≡ front
      regroup =
          ap
            (λ n.
              magic ++ (u8 version_major ++ (u8 0 ++ (u16 b.header_flags ++ (u32 n ++ entries)))))
            {y = count % u32_mod} (omega (arith, count_fits))
          ∙ (simp append_assoc)

-- On a built container of less than 4 GiB whose header flags fit 16 bits, a directory decoder that
-- allows 6 sections returns those flags and, for each section that the builder makes, a first entry
-- of its tag whose window is the section's payload.
pub decode-serialize :
    (b : ContainerBuilder) (limits : Limits)
    → length (serialize b) < 2 ^ 32
    → b.header_flags < 2 ^ 16
    → 6 ≤ limits.max_sections
    → (t : SectionTable) × (taken : ℕ) × (Section.decode
          (length (serialize b))
          limits
          (reader_of (serialize b))
        ≡ ok (t, advanced taken (reader_of (serialize b))))
      × (t.header.flags ≡ b.header_flags)
      × All (IsPlaced (serialize b) t) (sections b)
decode-serialize b limits small flags room = (
  table b limits,
  length (front b limits),
  header-Reads b limits small flags room (omega (arith, total)) (reader_of (serialize b))
      (payloads (sections b)) laid_out,
  refl,
  placed (SectionTable.header (table b limits)) windows,
)
  where
    laid_out : serialize b ≡ front b limits ++ payloads (sections b)
    laid_out =
        serialize_lem b
        ∙ sym (
            append_assoc (write_header b (length (sections b)))
              (directory (entries_from (start b limits) (sections b))) (payloads (sections b)))

    front_length : length (front b limits) ≡ start b limits
    front_length = omega (
      arith,
      length-append (write_header b (length (sections b)))
          (directory (entries_from (start b limits) (sections b))),
      length-write_header b (length (sections b)),
      length-directory (start b limits) (sections b),
    )

    total : length (serialize b) ≡ start b limits + length (payloads (sections b))
    total = omega (
      arith,
      ap length laid_out,
      length-append (front b limits) (payloads (sections b)),
      front_length,
    )

    windows : Windows (serialize b) (start b limits) (sections b)
    windows =
        subst (λ file. Windows file (start b limits) (sections b)) (sym laid_out)
          (subst (λ n. Windows (front b limits ++ payloads (sections b)) n (sections b))
            front_length
            (Windows_lem (length (serialize b)) small (sections b) (front b limits)
              (omega (arith, ap length laid_out))))

    placed :
        (h : FileHeader)
        → Windows (serialize b) (start b limits) (sections b)
        → All
            (IsPlaced
              (serialize b)
              (record { header = h; entries = entries_from (start b limits) (sections b) }))
            (sections b)
    placed h =
        on_sections b
          (λ ss.
            Windows (serialize b) (start b limits) ss
            → All
                (IsPlaced (serialize b)
                  (record { header = h; entries = entries_from (start b limits) ss }))
                ss)
          λ a sc hp j xr me x m.
            assembled-IsPlaced a sc hp j xr me x m (start b limits) (serialize b) h

-- A built container of less than 4 GiB whose header flags fit 16 bits, and whose kinds satisfy what
-- `Schema::decode` checks against a pool and 32-bit limits, gives its kinds back: the directory is
-- accepted, and the loader's stage that decodes the schema returns them.
pub schema-serialize :
    (b : ContainerBuilder) (limits : Limits)
    → length (serialize b) < 2 ^ 32
    → b.header_flags < 2 ^ 16
    → 6 ≤ limits.max_sections
    → (atoms : AtomPool) → length atoms.atoms < 2 ^ 32
    → limits.max_fields_per_kind < 2 ^ 32
    → limits.max_kinds < 2 ^ 32
    → SchemaOk atoms limits (record { kinds = b.kinds })
    → (t : SectionTable) × (taken : ℕ) × (Section.decode
          (length (serialize b))
          limits
          (reader_of (serialize b))
        ≡ ok (t, advanced taken (reader_of (serialize b))))
      × (in_section
            (advanced taken (reader_of (serialize b)))
            (find t tag_schema)
            Schema.empty
            (Schema.decode atoms limits)
          ≡ ok (record { kinds = b.kinds }))
unfolding in_section sections window
schema-serialize b limits small flags room atoms few_atoms few_fields few_kinds good =
    let (t, taken, decoded, _, placed) = decode-serialize b limits small flags room in
    let (e, found, win) = placed.1.0 in (t, taken, decoded, rw (found, win, read))
  where
    read :
        Schema.decode atoms limits (reader_of (build_schema_section b.kinds))
        ≡ ok (
          record { kinds = b.kinds },
          advanced
              (length (build_schema_section b.kinds))
              (reader_of (build_schema_section b.kinds)),
        )
    read =
        decode-build_schema_section atoms limits few_atoms (record { kinds = b.kinds }) few_fields
          few_kinds good (reader_of (build_schema_section b.kinds)) []
          (sym (append-nil (build_schema_section b.kinds)))
