-- ===== src/Section/Directory.antt =====
-- src/section.cpp: the directory on arbitrary bytes.
use stratavm.Base.{
  ℕ, zero, suc, ◌+◌, ◌≤◌, ◌<◌, ◌≡◌, ◌≢◌, sym, ap, inl, inr, ◌∙◌, false, not, ◌&&◌, ltb→le, ◌==◌,
  List, [], ◌∷◌, ◌++◌, length, length-append, get_elem?, lt_of_get_elem?, last_or_before, All,
  All-append, All-get, some, arith,
}
use stratavm.Status.{
  bad_magic, unsupported_version, limit_exceeded, bad_section_table, duplicate_section,
}
use stratavm.Format.{Limits, version_major, tag_unknown}
use stratavm.Reader.Bounds.{Safe, Safe-imp, bind-Safe, return-Safe, refuse_if-Safe, read_u8-Safe}
use stratavm.Reader.Words.{read_u16-Safe, read_u32-Safe, read_bytes-Safe}
use stratavm.Section.{SectionEntry, has_tag, outside, decode_entries, decode}
use native.Mathlib.Decide.{ℕ_discrete}

-- The window lies in the file.
abbrev pub FitsFile : ℕ → SectionEntry → Type 0
FitsFile file_size e = e.offset + e.len ≤ file_size

-- Two entries have the same tag only if it is 0.
abbrev pub AreDistinct : List SectionEntry → Type 0
AreDistinct entries =
    (i j : ℕ) (a b : SectionEntry)
    → i < j
    → get_elem? entries i ≡ some a
    → get_elem? entries j ≡ some b
    → a.tag ≡ b.tag
    → a.tag ≡ tag_unknown

pub record DirectoryOk (file_size : ℕ) (entries : List SectionEntry) : Type 0 where
  pub windows : All (FitsFile file_size) entries
  pub distinct : AreDistinct entries

inside :
    (file_size : ℕ) (e : SectionEntry)
    → outside file_size e.offset e.len ≡ false
    → FitsFile file_size e
inside file_size e h = ground arith

has_tag-All :
    (tag : ℕ) (entries : List SectionEntry)
    → has_tag tag entries ≡ false
    → All (λ e. e.tag ≢ tag) entries
unfolding has_tag
has_tag-All tag [] h = tt
has_tag-All tag (e ∷ rest) h = (ground arith, has_tag-All tag rest (ground arith))

module _ (entries : List SectionEntry) (e : SectionEntry) where
  added-AreDistinct :
      AreDistinct entries
      → (not (e.tag == tag_unknown) && has_tag e.tag entries) ≡ false
      → AreDistinct (entries ++ e ∷ [])
  added-AreDistinct h new i j a b less at_i at_j same = elim (last_or_before entries e j b at_j) [
    | inl old ↦ elim (last_or_before entries e i a at_i) [
      | inl old' ↦ h i j a b less old' old same
      | inr (last, _) ↦ absurd (omega (arith, lt_of_get_elem? entries j old))
    ]
    | inr (last, is_e) ↦ elim (last_or_before entries e i a at_i) [
      | inl old' ↦ elim (ℕ_discrete e.tag tag_unknown) [
        | yes zero_tag ↦ same ∙ ap SectionEntry.tag (sym is_e) ∙ zero_tag
        | no known ↦ absurd (
            All-get (λ x. x.tag ≢ e.tag) entries i (has_tag-All e.tag entries (fresh_tag known))
              old' (same ∙ ap SectionEntry.tag (sym is_e)))
      ]
      | inr (last', _) ↦ absurd (omega arith)
    ]
  ]
    where
      fresh_tag : e.tag ≢ tag_unknown → has_tag e.tag entries ≡ false
      fresh_tag known = ground arith

decode_entries-Safe :
    (file_size rounds : ℕ) (entries : List SectionEntry)
    → DirectoryOk file_size entries
    → Safe
        (decode_entries file_size rounds entries)
        (λ out. DirectoryOk file_size out × (length out ≡ rounds + length entries))
unfolding decode_entries
decode_entries-Safe file_size zero entries h = return-Safe entries (h, omega arith)
decode_entries-Safe file_size (suc rounds) entries h = bind-Safe read_u32-Safe λ tag _.
    bind-Safe read_u8-Safe λ version _. bind-Safe read_u8-Safe λ reserved _.
      bind-Safe read_u16-Safe λ flags _. bind-Safe read_u32-Safe λ offset _.
        bind-Safe read_u32-Safe λ len _. bind-Safe (refuse_if-Safe _ bad_section_table) λ _ fits.
          bind-Safe (refuse_if-Safe _ duplicate_section) λ _ new.
            let e : SectionEntry = record {
              tag = tag;
              version = version;
              flags = flags;
              offset = offset;
              len = len;
            } in
            Safe-imp (λ out k. (k.0, omega (arith, k.1, length-append entries (e ∷ []))))
              (decode_entries-Safe file_size rounds (entries ++ e ∷ []) (record {
                windows =
                    All-append (FitsFile file_size) entries (e ∷ []) h.windows
                      (inside file_size e fits, tt);
                distinct = added-AreDistinct entries e h.distinct new;
              }))

-- On any bytes, the directory's decoder indexes nothing out of range, and a directory that it accepts
-- is of the known major version and has as many entries as its header says, no more than
-- `max_sections`, whose windows lie in the file and of which two have the same tag only if it is 0.
pub decode-DirectoryOk :
    (file_size : ℕ) (limits : Limits)
    → Safe (decode file_size limits) (λ t.
      DirectoryOk file_size t.entries
      × (length t.entries ≡ t.header.section_count)
      × (t.header.section_count ≤ limits.max_sections)
      × (t.header.version_major ≡ version_major))
unfolding decode
decode-DirectoryOk file_size limits = bind-Safe (read_bytes-Safe 8) λ found _.
    bind-Safe (refuse_if-Safe _ bad_magic) λ _ _. bind-Safe read_u8-Safe λ major _.
      bind-Safe read_u8-Safe λ minor _. bind-Safe read_u16-Safe λ flags _.
        bind-Safe read_u32-Safe λ section_count _.
          bind-Safe (refuse_if-Safe _ unsupported_version) λ _ known.
            bind-Safe (refuse_if-Safe _ limit_exceeded) λ _ few.
              bind-Safe
                (decode_entries-Safe file_size section_count []
                  (record { windows = tt; distinct = λ i j a b _ e. cc }))
                λ entries h. return-Safe _ (h.0, omega (arith, h.1), ltb→le _ _ few, ground arith)
