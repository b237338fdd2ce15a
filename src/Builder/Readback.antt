-- ===== src/Builder/Readback.antt =====
-- src/section.cpp after src/builder.cpp: the entries of a directory and their windows.
use stratavm.Base.{
  ℕ, suc, ◌+◌, ◌%◌, ◌^◌, ◌≤◌, ◌<◌, ◌≡◌, refl, sym, subst, false, not, ◌&&◌, ◌==◌, List, [], ◌∷◌,
  ◌++◌, length, length-append, append_assoc, append-nil, take_exact, drop_exact, All, some, arith,
}
use stratavm.Status.{ok, bad_section_table, duplicate_section}
use stratavm.Format.{tag_unknown, u32_mod}
use stratavm.Reader.{reader_of, window}
use stratavm.Reader.Reads.{Reads, bind-Reads, refuse_if-Reads, return_as-Reads}
use stratavm.Writer.{u8, u16, u32}
use stratavm.Writer.Fixed.{u8-Reads, u16-Reads, u32-Reads}
use stratavm.Section.{SectionEntry, SectionTable, decode_entries, outside, has_tag, find}
use stratavm.Builder.Serialize.{Built}
use stratavm.Builder.Layout.{entries_from, entry_bytes, directory, payloads}

-- The tag of no entry is 0 or occurs before, in `acc` or the list.
unfoldable pub AreNew : List SectionEntry → List SectionEntry → Type 0
AreNew acc [] = Unit
AreNew acc (e ∷ rest) =
    ((not (e.tag == tag_unknown) && has_tag e.tag acc) ≡ false) × AreNew (acc ++ e ∷ []) rest

entry-Reads :
    (file_size rounds : ℕ) (e : SectionEntry) (acc out : List SectionEntry) (more : List ℕ)
    → e.tag < 2 ^ 32
    → e.version ≡ 1
    → e.flags ≡ 0
    → e.offset + e.len ≤ file_size
    → file_size < 2 ^ 32
    → (not (e.tag == tag_unknown) && has_tag e.tag acc) ≡ false
    → Reads (decode_entries file_size rounds (acc ++ e ∷ [])) more out
    → Reads (decode_entries file_size (suc rounds) acc) (entry_bytes e ++ more) out
unfolding decode_entries
entry-Reads file_size rounds e acc out more tag_fits one none_set inside small new rest =
    subst (λ bytes. Reads (decode_entries file_size (suc rounds) acc) bytes out) regroup
      (bind-Reads _ _ (u32 e.tag) _ e.tag _ (u32-Reads e.tag tag_fits) (
        bind-Reads _ _ (u8 1) _ 1 _ (u8-Reads 1 (omega arith)) (
          bind-Reads _ _ (u8 0) _ 0 _ (u8-Reads 0 (omega arith)) (
            bind-Reads _ _ (u16 0) _ 0 _ (u16-Reads 0 (omega arith)) (
              bind-Reads _ _ (u32 e.offset) _ e.offset _ (u32-Reads e.offset (omega arith)) (
                bind-Reads _ _ (u32 e.len) _ e.len _ (u32-Reads e.len (omega arith)) (
                  bind-Reads _ _ [] _ tt _ (refuse_if-Reads bad_section_table _ (ground arith)) (
                    bind-Reads _ _ [] _ tt _ (refuse_if-Reads duplicate_section _ new) (
                      subst (λ x. Reads (decode_entries file_size rounds (acc ++ x ∷ [])) more out)
                        (λ i. record e { version = one i; flags = none_set i }) rest)))))))))
  where
    regroup :
        u32 e.tag ++ (u8 1 ++ (u8 0 ++ (u16 0 ++ (u32 e.offset ++ (u32 e.len ++ more)))))
        ≡ entry_bytes e ++ more
    regroup = simp append_assoc

-- What the builder writes is read back as the same section: the directory's first entry of its tag is
-- the window of its payload.
abbrev pub IsPlaced : List ℕ → SectionTable → Built → Type 0
IsPlaced file t s =
    (e : SectionEntry) × (find t s.tag ≡ some e)
    × (window (reader_of file) e.offset e.len ≡ ok (reader_of s.payload))

-- The windows that the entries give of a file whose payloads start at `at`.
unfoldable pub Windows : List ℕ → ℕ → List Built → Type 0
Windows file at [] = Unit
Windows file at (s ∷ rest) =
    (window (reader_of file) (at % u32_mod) (length s.payload % u32_mod) ≡ ok (reader_of s.payload))
    × Windows file (at + length s.payload) rest

-- The payloads end inside the file.
module _ (file_size : ℕ) (small : file_size < 2 ^ 32) where
  pub decode_entries-Reads :
      (ss : List Built) (at : ℕ) (acc : List SectionEntry)
      → All (λ s. s.tag < 2 ^ 32) ss
      → at + length (payloads ss) ≤ file_size
      → AreNew acc (entries_from at ss)
      → Reads
          (decode_entries file_size (length ss) acc)
          (directory (entries_from at ss))
          (acc ++ entries_from at ss)
  unfolding decode_entries directory AreNew entries_from payloads
  decode_entries-Reads [] at acc tags fits new = return_as-Reads acc _ (sym (append-nil acc))
  decode_entries-Reads (s ∷ rest) at acc (tag_fits, tags) fits (new, more) =
      entry-Reads file_size (length rest) _ acc _ _ tag_fits refl refl
        (omega (arith, fits, length-append s.payload (payloads rest))) small new
        (subst (Reads _ _) (append_assoc acc (_ ∷ []) (entries_from (at + length s.payload) rest)) (
          decode_entries-Reads rest (at + length s.payload) _ tags
            (omega (arith, fits, length-append s.payload (payloads rest))) more))

  window_lem :
      (front bytes back : List ℕ)
      → length (front ++ (bytes ++ back)) ≤ file_size
      → window
          (reader_of (front ++ (bytes ++ back)))
          (length front % u32_mod)
          (length bytes % u32_mod)
        ≡ ok (reader_of bytes)
  unfolding window
  window_lem front bytes back h =
      rw (small_front, small_bytes, fits, drop_exact front (bytes ++ back), take_exact bytes back)
    where
      total : length (front ++ (bytes ++ back)) ≡ length front + (length bytes + length back)
      total = omega (arith, length-append front (bytes ++ back), length-append bytes back)

      small_front : length front % u32_mod ≡ length front
      small_front = omega (arith, total, h, small)

      small_bytes : length bytes % u32_mod ≡ length bytes
      small_bytes = omega (arith, total, h, small)

      fits : outside (length (front ++ (bytes ++ back))) (length front) (length bytes) ≡ false
      fits = ground (arith, total)

  pub Windows_lem :
      (ss : List Built) (front : List ℕ)
      → length (front ++ payloads ss) ≤ file_size
      → Windows (front ++ payloads ss) (length front) ss
  unfolding Windows payloads
  Windows_lem [] front h = tt
  Windows_lem (s ∷ rest) front h = (
    window_lem front s.payload (payloads rest) h,
    subst (λ file. Windows file (length front + length s.payload) rest)
        (append_assoc front s.payload (payloads rest))
        (subst (λ n. Windows (front ++ s.payload ++ payloads rest) n rest)
          (length-append front s.payload)
          (Windows_lem rest (front ++ s.payload) (
            subst (λ file. length file ≤ file_size)
              (sym (append_assoc front s.payload (payloads rest))) h))),
  )
