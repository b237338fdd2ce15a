-- ===== src/Registry/RoundTrip.antt =====
-- src/schema_registry.cpp: `deserialize` after `serialize`.
use stratavm.Base.{
  ℕ, ◌<◌, ◌≤◌, ◌^◌, ◌≡◌, ◌≢◌, refl, subst, sym, ap, le→ltb, List, [], ◌∷◌, ◌++◌, append_assoc,
  append-nil, length, take, All, All-append, arith,
}
use stratavm.Base.Maps.{Map}
use stratavm.Status.{ok, bad_schema, limit_exceeded}
use stratavm.Format.{ValueType, Limits}
use stratavm.Reader.Reads.{
  Reads, bind-Reads, bind_last-Reads, refuse_if-Reads, return-Reads, return_as-Reads,
}
use stratavm.Writer.{varint, u8, u32, lp_string}
use stratavm.Writer.RoundTrip.{varint-Reads, varint_u32-Reads, lp_string-Reads}
use stratavm.Writer.Fixed.{u8-Reads, u32-Reads}
use stratavm.Atoms
use stratavm.Atoms.{AtomPool, intern, write_atoms}
use stratavm.Schema
use stratavm.Schema.{FieldDef, KindDef, Schema, add_kind, raw_of, write_fields, write_kinds}
use stratavm.Schema.RoundTrip.{raw_of-valid, value_type_of-raw_of, raw_of-lt}
use stratavm.Registry.{SchemaVersion, SchemaRegistry, register_version}
use stratavm.Registry.Versions.{IsAscending, insert_ordered_last, lookup_above}
use stratavm.Registry.Codec.{
  counted, write_version, write_versions, serialize, read_texts, read_field_defs, read_kind_defs,
  read_version, read_versions, deserialize,
}

-- Texts interned one after the other.
unfoldable pub interned : List (List ℕ) → AtomPool → AtomPool
interned [] p = p
interned (s ∷ rest) p = interned rest (intern s p).0

pub record FieldFits (f : FieldDef) : Type 0 where
  pub name_fits : f.name < 2 ^ 32
  pub typed : f.type ≢ ValueType.invalid
  pub byte : f.flags < 256

pub record KindFits (lim : Limits) (k : KindDef) : Type 0 where
  pub name_fits : k.name < 2 ^ 32
  pub fields_fit : All FieldFits k.fields
  pub few : length k.fields ≤ lim.max_fields_per_kind

-- A version under its id, within the limits, whose pool is its texts interned in order.
pub record VersionFits (lim : Limits) (entry : ℕ × SchemaVersion) : Type 0 where
  pub keyed : entry.0 ≡ entry.1.version_id
  pub id_fits : entry.1.version_id < 2 ^ 32
  pub described : length entry.1.description ≤ lim.max_atom_len
  pub texts_fit : All (λ s. length s ≤ lim.max_atom_len) entry.1.atoms.atoms
  pub few_atoms : length entry.1.atoms.atoms ≤ lim.max_atoms
  pub is_interned : interned entry.1.atoms.atoms Atoms.empty ≡ entry.1.atoms
  pub kinds_fit : All (KindFits lim) entry.1.schema.kinds
  pub few_kinds : length entry.1.schema.kinds ≤ lim.max_kinds

-- Limits that fit the fields which hold the counts.
pub record LimitsFit (lim : Limits) : Type 0 where
  pub texts : lim.max_atom_len < 2 ^ 64
  pub atoms : lim.max_atoms < 2 ^ 32
  pub kinds : lim.max_kinds < 2 ^ 32
  pub fields : lim.max_fields_per_kind < 2 ^ 64
  pub sections : lim.max_sections < 2 ^ 64

take_all : {A : Type 0} (xs : List A) → take (length xs) xs ≡ xs
take_all [] = refl
take_all (x ∷ xs) = ap (λ ys. x ∷ ys) (take_all xs)

counted_small : {A : Type 0} (xs : List A) → length xs < 2 ^ 32 → counted xs ≡ xs
counted_small xs h = subst (λ n. take n xs ≡ xs) {x = length xs} (omega (arith, h)) (take_all xs)

field_defs-Reads :
    (fields : List FieldDef)
    → All FieldFits fields
    → Reads (read_field_defs (length fields)) (write_fields fields) fields
unfolding read_field_defs write_fields
field_defs-Reads [] h = return-Reads []
field_defs-Reads (f ∷ rest) (ok_f, ok_rest) =
    bind-Reads _ _ (varint f.name) _ f.name _ (varint_u32-Reads f.name ok_f.name_fits) (
      bind-Reads _ _ (u8 (raw_of f.type)) _ (raw_of f.type) _
        (u8-Reads (raw_of f.type) (raw_of-lt f.type))
        (bind-Reads _ _ [] _ tt _ (refuse_if-Reads bad_schema _ (raw_of-valid f.type ok_f.typed)) (
          bind-Reads _ _ (u8 f.flags) _ f.flags _ (u8-Reads f.flags ok_f.byte) (
            bind_last-Reads _ _ (write_fields rest) rest _ (field_defs-Reads rest ok_rest) (
              return_as-Reads _ (f ∷ rest)
                λ i. record f { type = value_type_of-raw_of f.type i } ∷ rest)))))

module _ (lim : Limits) (fit : LimitsFit lim) where
  texts-Reads :
      (texts : List (List ℕ)) (p : AtomPool)
      → All (λ s. length s ≤ lim.max_atom_len) texts
      → Reads (read_texts lim (length texts) p) (write_atoms texts) (interned texts p)
  unfolding read_texts write_atoms interned
  texts-Reads [] p h = return-Reads p
  texts-Reads (s ∷ rest) p (short, h) =
      bind-Reads _ _ (lp_string s) _ s _
        (lp_string-Reads _ s short (omega (arith, short, fit.texts)))
        (texts-Reads rest (intern s p).0 h)

  kind_defs-Reads :
      (pre kinds : List KindDef)
      → All (KindFits lim) kinds
      → Reads
          (read_kind_defs lim (length kinds) (record { kinds = pre }))
          (write_kinds kinds)
          (record { kinds = pre ++ kinds })
  unfolding read_kind_defs write_kinds add_kind
  kind_defs-Reads pre [] h = return_as-Reads _ _ (λ i. record { kinds = sym (append-nil pre) i })
  kind_defs-Reads pre (k ∷ rest) (ok_k, ok_rest) =
      bind-Reads _ _ (varint k.name) _ k.name _ (varint_u32-Reads k.name ok_k.name_fits) (
        bind-Reads _ _ (varint (length k.fields)) _ (length k.fields) _
          (varint-Reads (length k.fields) (omega (arith, ok_k.few, fit.fields)))
          (bind-Reads _ _ [] _ tt _ (refuse_if-Reads limit_exceeded _ (le→ltb _ _ ok_k.few)) (
            bind-Reads _ _ (write_fields k.fields) _ k.fields _
              (field_defs-Reads k.fields ok_k.fields_fit)
              (subst
                (λ ks.
                  Reads (read_kind_defs lim (length rest) (record { kinds = pre ++ k ∷ [] }))
                    (write_kinds rest) (record { kinds = ks }))
                (append_assoc pre (k ∷ []) rest) (kind_defs-Reads (pre ++ k ∷ []) rest ok_rest)))))

  version-Reads :
      (entry : ℕ × SchemaVersion)
      → VersionFits lim entry
      → Reads (read_version lim) (write_version entry.1) entry.1
  unfolding read_version write_version
  version-Reads (vid, sv) h =
      bind-Reads _ _ (u32 sv.version_id) _ sv.version_id _ (u32-Reads _ h.id_fits) (
        bind-Reads _ _ (lp_string sv.description) _ sv.description _
          (lp_string-Reads _ sv.description h.described (omega (arith, h.described, fit.texts)))
          (bind-Reads _ _ (varint (length sv.atoms.atoms)) _ _ _
            (varint-Reads _ (omega (arith, h.few_atoms, fit.atoms)))
            (bind-Reads _ _ [] _ tt _ (refuse_if-Reads limit_exceeded _ (le→ltb _ _ h.few_atoms)) (
              bind-Reads _ _ (write_atoms (counted sv.atoms.atoms)) _ sv.atoms _ texts (
                bind-Reads _ _ (varint (length sv.schema.kinds)) _ _ _
                  (varint-Reads _ (omega (arith, h.few_kinds, fit.kinds)))
                  (bind-Reads _ _ [] _ tt _
                    (refuse_if-Reads limit_exceeded _ (le→ltb _ _ h.few_kinds))
                    (bind_last-Reads _ _ (write_kinds (counted sv.schema.kinds)) sv.schema _ kinds
                      (return-Reads sv))))))))
    where
      texts :
          Reads
            (read_texts lim (length sv.atoms.atoms) Atoms.empty)
            (write_atoms (counted sv.atoms.atoms))
            sv.atoms
      texts = rw (counted_small sv.atoms.atoms (omega (arith, h.few_atoms, fit.atoms))) (
          subst
            (Reads (read_texts lim (length sv.atoms.atoms) Atoms.empty)
              (write_atoms sv.atoms.atoms))
            h.is_interned (texts-Reads sv.atoms.atoms Atoms.empty h.texts_fit))

      kinds :
          Reads
            (read_kind_defs lim (length sv.schema.kinds) Schema.empty)
            (write_kinds (counted sv.schema.kinds))
            sv.schema
      kinds =
          rw (counted_small sv.schema.kinds (omega (arith, h.few_kinds, fit.kinds)))
            (kind_defs-Reads [] sv.schema.kinds h.kinds_fit)

  -- Every id of `pre` is below every id of `rest`.
  AreBelow : Map ℕ SchemaVersion → Map ℕ SchemaVersion → Type 0
  AreBelow pre rest = All (λ p. All (λ q. q.0 < p.0) pre) rest

  AreBelow-append :
      (pre rest : Map ℕ SchemaVersion) (entry : ℕ × SchemaVersion)
      → AreBelow pre rest
      → All (λ p. entry.0 < p.0) rest
      → AreBelow (pre ++ entry ∷ []) rest
  unfolding AreBelow
  AreBelow-append pre [] entry h k = tt
  AreBelow-append pre (p ∷ rest) entry (h, hs) (k, ks) =
      (All-append _ pre (entry ∷ []) h (k, tt), AreBelow-append pre rest entry hs ks)

  registers_last :
      (pre : Map ℕ SchemaVersion) (entry : ℕ × SchemaVersion)
      → VersionFits lim entry
      → All (λ q. q.0 < entry.0) pre
      → register_version entry.1 (record { versions = pre })
        ≡ ok (record { versions = pre ++ entry ∷ [] })
  unfolding register_version
  registers_last pre (vid, sv) h below =
      rw
        (
          register_version,
          lookup_above sv.version_id pre under,
          insert_ordered_last sv.version_id sv pre under,
          h.keyed,
        )
        refl
    where
      under : All (λ q. q.0 < sv.version_id) pre
      under = subst (λ n. All (λ q. q.0 < n) pre) h.keyed below

  versions-Reads :
      (pre rest : Map ℕ SchemaVersion)
      → AreBelow pre rest
      → IsAscending rest
      → All (VersionFits lim) rest
      → Reads
          (read_versions lim (length rest) (record { versions = pre }))
          (write_versions rest)
          (record { versions = pre ++ rest })
  unfolding read_versions write_versions AreBelow IsAscending
  versions-Reads pre [] b a h =
      return_as-Reads _ _ (λ i. record { versions = sym (append-nil pre) i })
  versions-Reads pre (entry ∷ rest) (b, bs) (above, a) (k, h) =
      bind-Reads _ _ (write_version entry.1) _ entry.1 _ (version-Reads entry k) (
        bind-Reads _ _ [] _ (record { versions = pre ++ entry ∷ [] }) _
          (rw (registers_last pre entry k b) (return-Reads _))
          (subst
            (λ vs.
              Reads (read_versions lim (length rest) (record { versions = pre ++ entry ∷ [] }))
                (write_versions rest) (record { versions = vs }))
            (append_assoc pre (entry ∷ []) rest)
            (versions-Reads (pre ++ entry ∷ []) rest (AreBelow-append pre rest entry bs above) a
              h)))

  AreBelow-nil : (rest : Map ℕ SchemaVersion) → AreBelow [] rest
  unfolding AreBelow
  AreBelow-nil [] = tt
  AreBelow-nil (p ∷ rest) = (tt, AreBelow-nil rest)

  -- A registry whose ids ascend, of no more versions than max_sections, each of which fits the limits and
  -- has a pool that is its texts interned in order, is read back from the bytes that `serialize` writes,
  -- whatever follows, where the limits fit the fields that hold the counts.
  pub deserialize-serialize :
      (reg : SchemaRegistry)
      → IsAscending reg.versions
      → All (VersionFits lim) reg.versions
      → length reg.versions ≤ lim.max_sections
      → Reads (deserialize lim) (serialize reg) reg
  unfolding deserialize serialize
  deserialize-serialize reg a h few =
      bind-Reads _ _ (varint (length reg.versions)) _ (length reg.versions) _
        (varint-Reads (length reg.versions) (omega (arith, few, fit.sections)))
        (bind-Reads _ _ [] _ tt _ (refuse_if-Reads limit_exceeded _ (le→ltb _ _ few))
          (versions-Reads [] reg.versions (AreBelow-nil reg.versions) a h))
