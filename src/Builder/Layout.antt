-- ===== src/Builder/Layout.antt =====
-- src/builder.cpp: where the assembly leaves the directory and the payloads.
use stratavm.Base.{
  ℕ, suc, ◌+◌, ◌*◌, ◌%◌, ◌≡◌, refl, ap, sym, ◌∙◌, List, [], ◌∷◌, ◌++◌, length, length-append,
  append-nil, append_assoc, arith,
}
use stratavm.Format.{magic, version_major, u32_mod}
use stratavm.Writer.{u8, u16, u32, patch_u32}
use stratavm.Writer.Patch.{patch_u32_lem, length-u32, length-u16, length-u8}
use stratavm.Section.{SectionEntry}
use stratavm.Builder.{ContainerBuilder}
use stratavm.Builder.Serialize.{
  Built, entry_head, write_entries, place_payloads, sections, write_header, serialize,
}

-- What the directory says of sections whose payloads stand one after the other from `at` on.
unfoldable pub entries_from : ℕ → List Built → List SectionEntry
entries_from at [] = []
entries_from at (s ∷ rest) =
    record {
      tag = s.tag;
      version = 1;
      flags = 0;
      offset = at % u32_mod;
      len = length s.payload % u32_mod;
    }
    ∷ entries_from (at + length s.payload) rest

abbrev pub entry_bytes : SectionEntry → List ℕ
entry_bytes e = entry_head e.tag ++ (u32 e.offset ++ u32 e.len)

unfoldable pub directory : List SectionEntry → List ℕ
directory [] = []
directory (e ∷ rest) = entry_bytes e ++ directory rest

unfoldable pub payloads : List Built → List ℕ
payloads [] = []
payloads (s ∷ rest) = s.payload ++ payloads rest

-- An entry of the directory before its offset and length are known.
abbrev blank : Built → List ℕ
blank s = entry_head s.tag ++ (u32 0 ++ u32 0)

blanks : List Built → List ℕ
blanks [] = []
blanks (s ∷ rest) = blank s ++ blanks rest

slots_from : ℕ → List Built → List (ℕ × ℕ)
slots_from at [] = []
slots_from at (s ∷ rest) = (at + 8, at + 12) ∷ slots_from (at + 16) rest

length-entry_head : (tag : ℕ) → length (entry_head tag) ≡ 8
length-entry_head tag = omega (
  arith,
  length-append (u32 tag) (u8 1 ++ (u8 0 ++ u16 0)),
  length-append (u8 1) (u8 0 ++ u16 0),
  length-append (u8 0) (u16 0),
  length-u32 tag,
  length-u8 1,
  length-u8 0,
  length-u16 0,
)

write_entries_lem :
    (ss : List Built) (out : List ℕ)
    → write_entries ss out ≡ (out ++ blanks ss, slots_from (length out) ss)
unfolding write_entries blanks slots_from
write_entries_lem [] out = λ i. (sym (append-nil out) i, [])
write_entries_lem (s ∷ rest) out =
    let head = out ++ entry_head s.tag in
    let zeros = u32 0 in
    ap (λ r. (r.0, (length head, length (head ++ zeros)) ∷ r.1))
      (write_entries_lem rest (head ++ zeros ++ zeros))
    ∙ λ i. (regroup i, (at_head i, at_offset i) ∷ slots_from (at_length i) rest)
  where
    regroup :
        out ++ entry_head s.tag ++ u32 0 ++ u32 0 ++ blanks rest ≡ out ++ (blank s ++ blanks rest)
    regroup = simp append_assoc

    at_head : length (out ++ entry_head s.tag) ≡ length out + 8
    at_head = omega (arith, length-append out (entry_head s.tag), length-entry_head s.tag)

    at_offset : length (out ++ entry_head s.tag ++ u32 0) ≡ length out + 12
    at_offset =
        omega (arith, length-append (out ++ entry_head s.tag) (u32 0), at_head, length-u32 0)

    at_length : length (out ++ entry_head s.tag ++ u32 0 ++ u32 0) ≡ length out + 16
    at_length =
        omega
          (arith, length-append (out ++ entry_head s.tag ++ u32 0) (u32 0), at_offset, length-u32 0)

pub length-entry : (tag offset len : ℕ) → length (entry_head tag ++ (u32 offset ++ u32 len)) ≡ 16
length-entry tag offset len = omega (
  arith,
  length-append (entry_head tag) (u32 offset ++ u32 len),
  length-append (u32 offset) (u32 len),
  length-entry_head tag,
  length-u32 offset,
  length-u32 len,
)

length-blanks : (ss : List Built) → length (blanks ss) ≡ 16 * length ss
unfolding blanks
length-blanks [] = refl
length-blanks (s ∷ rest) = omega (
  arith,
  length-append (blank s) (blanks rest),
  length-blanks rest,
  length-append (entry_head s.tag) (u32 0 ++ u32 0),
  length-append (u32 0) (u32 0),
  length-entry_head s.tag,
  length-u32 0,
)

-- One round of the loop over the payloads.
module _ (front back payload : List ℕ) (tag offset len : ℕ) where
  front_head : length (front ++ entry_head tag) ≡ length front + 8
  front_head = omega (arith, length-append front (entry_head tag), length-entry_head tag)

  patch_entry :
      patch_u32
        (patch_u32
          (front ++ (entry_head tag ++ (u32 0 ++ u32 0) ++ back) ++ payload)
          (length front + 8)
          offset)
        (length front + 12)
        len
      ≡ front ++ (entry_head tag ++ (u32 offset ++ u32 len)) ++ (back ++ payload)
  patch_entry =
      ap (λ out. patch_u32 (patch_u32 out (length front + 8) offset) (length front + 12) len) before
      ∙ ap (λ out. patch_u32 out (length front + 12) len)
          (patch_u32_lem (front ++ entry_head tag) (u32 0) (u32 0 ++ (back ++ payload)) _ offset
              front_head (length-u32 0)
            ∙ between)
      ∙ patch_u32_lem (front ++ entry_head tag ++ u32 offset) (u32 0) (back ++ payload) _ len
          reached (length-u32 0)
      ∙ after
    where
      before :
          front ++ (entry_head tag ++ (u32 0 ++ u32 0) ++ back) ++ payload
          ≡ front ++ entry_head tag ++ (u32 0 ++ (u32 0 ++ (back ++ payload)))
      before = simp append_assoc

      between :
          front ++ entry_head tag ++ (u32 offset ++ (u32 0 ++ (back ++ payload)))
          ≡ front ++ entry_head tag ++ u32 offset ++ (u32 0 ++ (back ++ payload))
      between = simp append_assoc

      reached : length (front ++ entry_head tag ++ u32 offset) ≡ length front + 12
      reached = omega (
        arith,
        length-append (front ++ entry_head tag) (u32 offset),
        front_head,
        length-u32 offset,
      )

      after :
          front ++ entry_head tag ++ u32 offset ++ (u32 len ++ (back ++ payload))
          ≡ front ++ (entry_head tag ++ (u32 offset ++ u32 len)) ++ (back ++ payload)
      after = simp append_assoc

place_payloads_lem :
    (ss : List Built) (front back : List ℕ)
    → place_payloads ss (slots_from (length front) ss) (front ++ (blanks ss ++ back))
      ≡ front
        ++ (directory (entries_from (length front + (16 * length ss + length back)) ss)
            ++ (back ++ payloads ss))
unfolding place_payloads slots_from blanks directory entries_from payloads
place_payloads_lem [] front back = ap (λ b. front ++ b) (sym (append-nil back))
place_payloads_lem (s ∷ rest) front back =
    ap
      (λ out.
        place_payloads rest (slots_from (length front + 16) rest)
          (patch_u32 (patch_u32 out (length front + 8) offset) (length front + 12) len))
      (ap (λ more. front ++ more ++ s.payload) (append_assoc (blank s) (blanks rest) back))
    ∙ ap (place_payloads rest (slots_from (length front + 16) rest))
        (patch_entry front (blanks rest ++ back) s.payload s.tag offset len)
    ∙ (λ i. place_payloads rest (slots_from (start i) rest) (around i))
    ∙ place_payloads_lem rest (front ++ entry) (back ++ s.payload)
    ∙ ap
        (λ n.
          front
          ++ entry
          ++ (directory (entries_from n rest) ++ (back ++ s.payload ++ payloads rest)))
        further
    ∙ ap
        (λ n.
          front
          ++ (entry_head s.tag ++ (u32 n ++ u32 len))
          ++ (tail ++ (back ++ s.payload ++ payloads rest)))
        at_offset
    ∙ regroup _
  where
    offset : ℕ
    offset = length (front ++ (blank s ++ blanks rest ++ back)) % u32_mod

    len : ℕ
    len = length s.payload % u32_mod

    entry : List ℕ
    entry = entry_head s.tag ++ (u32 offset ++ u32 len)

    at : ℕ
    at = length front + (16 * suc (length rest) + length back)

    tail : List ℕ
    tail = directory (entries_from (at + length s.payload) rest)

    start : length front + 16 ≡ length (front ++ entry)
    start = omega (arith, length-append front entry, length-entry s.tag offset len)

    around :
        front ++ entry ++ (blanks rest ++ back ++ s.payload)
        ≡ front ++ entry ++ (blanks rest ++ (back ++ s.payload))
    around = simp append_assoc

    further :
        length (front ++ entry) + (16 * length rest + length (back ++ s.payload))
        ≡ at + length s.payload
    further = omega (arith, start, length-append back s.payload)

    at_offset : offset ≡ at % u32_mod
    at_offset =
        ap (λ n. n % u32_mod)
          (omega (
            arith,
            length-append front (blanks (s ∷ rest) ++ back),
            length-append (blanks (s ∷ rest)) back,
            length-blanks (s ∷ rest),
          ))

    regroup :
        (e : List ℕ)
        → front ++ e ++ (tail ++ (back ++ s.payload ++ payloads rest))
          ≡ front ++ (e ++ tail ++ (back ++ (s.payload ++ payloads rest)))
    regroup e = simp append_assoc

pub length-write_header : (b : ContainerBuilder) (count : ℕ) → length (write_header b count) ≡ 16
unfolding write_header
length-write_header b count = omega (
  arith,
  length-append magic tail,
  length-append (u8 version_major) (u8 0 ++ words),
  length-append (u8 0) words,
  length-append (u16 b.header_flags) (u32 (count % u32_mod)),
  length-u8 version_major,
  length-u8 0,
  length-u16 b.header_flags,
  length-u32 (count % u32_mod),
)
  where
    words : List ℕ
    words = u16 b.header_flags ++ u32 (count % u32_mod)

    tail : List ℕ
    tail = u8 version_major ++ (u8 0 ++ words)

-- Where the payloads start.
abbrev pub first_payload : List Built → ℕ
first_payload ss = 16 + 16 * length ss

pub serialize_lem :
    (b : ContainerBuilder)
    → serialize b
      ≡ write_header b (length (sections b))
        ++ (directory (entries_from (first_payload (sections b)) (sections b))
            ++ payloads (sections b))
unfolding serialize
serialize_lem b =
    ap (λ r. place_payloads ss r.1 r.0) (write_entries_lem ss header)
    ∙ ap (λ more. place_payloads ss (slots_from (length header) ss) (header ++ more))
        (sym (append-nil (blanks ss)))
    ∙ place_payloads_lem ss header []
    ∙ ap (λ n. header ++ (directory (entries_from n ss) ++ payloads ss))
        (omega (arith, length-write_header b (length ss)))
  where
    ss : List Built
    ss = sections b

    header : List ℕ
    header = write_header b (length ss)
