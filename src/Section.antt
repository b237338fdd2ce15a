-- ===== src/Section.antt =====
-- include/stratavm/section.hpp and src/section.cpp: the file header and the section directory.
-- A section's tag is kept as its number; `SectionEntry::kind` casts it and changes nothing.
pub mod Directory
use stratavm.Base.{
  ℕ, zero, suc, ◌-◌, Bool, true, false, not, ◌||◌, ◌&&◌, ltb, ◌==◌, List, [], ◌∷◌, ◌++◌, length,
  Option, none, some, if◌then◌else◌,
}
use stratavm.Base.Maps.{bytes_beq}
use stratavm.Status.{
  bad_magic, unsupported_version, limit_exceeded, bad_section_table, duplicate_section,
}
use stratavm.Format.{Limits, magic, version_major, tag_unknown}
use stratavm.Reader.{
  Decoder, ◌>>=◌, ◌>>◌, return, refuse_if, read_u8, read_u16, read_u32, read_bytes,
}

pub record FileHeader : Type 0 where
  pub version_major : ℕ
  pub version_minor : ℕ
  pub flags : ℕ
  pub section_count : ℕ

pub record SectionEntry : Type 0 where
  pub tag : ℕ
  pub version : ℕ
  pub flags : ℕ
  pub offset : ℕ
  pub len : ℕ

pub record SectionTable : Type 0 where
  pub header : FileHeader
  pub entries : List SectionEntry

unfoldable pub has_tag : ℕ → List SectionEntry → Bool
has_tag tag [] = false
has_tag tag (prev ∷ rest) = prev.tag == tag || has_tag tag rest

-- `e.offset > file_size || e.length > file_size - e.offset`
abbrev pub outside : ℕ → ℕ → ℕ → Bool
outside file_size offset len = ltb file_size offset || ltb (file_size - offset) len

-- The loop over the directory, with `rounds` entries left and `entries` read.
unfoldable pub decode_entries : ℕ → ℕ → List SectionEntry → Decoder (List SectionEntry)
unfolding has_tag
decode_entries file_size zero entries = return entries
decode_entries file_size (suc rounds) entries = do
  tag ← read_u32
  version ← read_u8
  reserved ← read_u8
  flags ← read_u16
  offset ← read_u32
  len ← read_u32
  refuse_if (outside file_size offset len) bad_section_table
  refuse_if (not (tag == tag_unknown) && has_tag tag entries) duplicate_section
  let e : SectionEntry = record {
    tag = tag;
    version = version;
    flags = flags;
    offset = offset;
    len = len;
  }
  decode_entries file_size rounds (entries ++ e ∷ [])

unfoldable pub decode : ℕ → Limits → Decoder SectionTable
decode file_size limits = do
  found ← read_bytes 8
  refuse_if (not (bytes_beq found magic)) bad_magic
  major ← read_u8
  minor ← read_u8
  flags ← read_u16
  section_count ← read_u32
  refuse_if (not (major == version_major)) unsupported_version
  refuse_if (ltb limits.max_sections section_count) limit_exceeded
  entries ← decode_entries file_size section_count []
  return (record {
    header = record {
      version_major = major;
      version_minor = minor;
      flags = flags;
      section_count = section_count;
    };
    entries = entries;
  })

unfoldable pub find_entry : ℕ → List SectionEntry → Option SectionEntry
find_entry tag [] = none
find_entry tag (e ∷ rest) = if e.tag == tag then some e else find_entry tag rest

abbrev pub find : SectionTable → ℕ → Option SectionEntry
find t tag = find_entry tag t.entries
