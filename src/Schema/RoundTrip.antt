-- ===== src/Schema/RoundTrip.antt =====
-- `Schema::decode` of src/schema.cpp after `build_schema_section` of src/builder.cpp.
use stratavm.Base.{
  ℕ, ◌<◌, ◌^◌, ◌≡◌, ◌≢◌, refl, not, false, le→ltb, List, [], ◌∷◌, length, get_elem?-lt, All, arith,
}
use stratavm.Status.{bad_schema, limit_exceeded}
use stratavm.Format.{ValueType, Limits, is_valid_value_type, value_type_of}
use stratavm.Reader.{or_fail}
use stratavm.Reader.Reads.{
  Reads, bind-Reads, bind_last-Reads, refuse_if-Reads, return-Reads, return_as-Reads, or_fail-Reads,
}
use stratavm.Writer.{varint, u8}
use stratavm.Writer.RoundTrip.{varint_u32-Reads}
use stratavm.Writer.Fixed.{u8-Reads}
use stratavm.Atoms.{AtomPool, get}
use stratavm.Schema.{
  FieldDef, KindDef, Schema, decode_fields, decode_kinds, decode, raw_of, write_fields, write_kinds,
  build_schema_section,
}
use stratavm.Schema.Safety.{FieldOk, KindOk, SchemaOk, IsNamed}

pub raw_of-valid :
    (t : ValueType) → t ≢ ValueType.invalid → not (is_valid_value_type (raw_of t)) ≡ false
unfolding is_valid_value_type
raw_of-valid ValueType.int h = refl
raw_of-valid ValueType.float h = refl
raw_of-valid ValueType.atom h = refl
raw_of-valid ValueType.ref h = refl
raw_of-valid ValueType.list h = refl
raw_of-valid ValueType.invalid h = absurd (h refl)

pub value_type_of-raw_of : (t : ValueType) → value_type_of (raw_of t) ≡ t
unfolding value_type_of
value_type_of-raw_of ValueType.int = refl
value_type_of-raw_of ValueType.float = refl
value_type_of-raw_of ValueType.atom = refl
value_type_of-raw_of ValueType.ref = refl
value_type_of-raw_of ValueType.list = refl
value_type_of-raw_of ValueType.invalid = refl

pub raw_of-lt : (t : ValueType) → raw_of t < 256
raw_of-lt ValueType.int = omega arith
raw_of-lt ValueType.float = omega arith
raw_of-lt ValueType.atom = omega arith
raw_of-lt ValueType.ref = omega arith
raw_of-lt ValueType.list = omega arith
raw_of-lt ValueType.invalid = omega arith

module _ (atoms : AtomPool) (limits : Limits) (fits : length atoms.atoms < 2 ^ 32) where
  named-Reads :
      (name : ℕ)
      → IsNamed atoms name
      → (text : List ℕ) × Reads (or_fail (get atoms name) bad_schema) [] text
  named-Reads name h =
      let (text, e) = get_elem?-lt atoms.atoms name h in
      (text, or_fail-Reads (get atoms name) bad_schema text e)

  fields-Reads :
      (fields : List FieldDef)
      → All (FieldOk atoms) fields
      → Reads (decode_fields atoms (length fields)) (write_fields fields) fields
  unfolding decode_fields write_fields
  fields-Reads [] h = return-Reads []
  fields-Reads (f ∷ rest) (ok_f, ok_rest) =
      let (text, named) = named-Reads f.name ok_f.named in
      bind-Reads _ _ (varint f.name) _ f.name _
        (varint_u32-Reads f.name (omega (arith, ok_f.named)))
        (bind-Reads _ _ [] _ text _ named (
          bind-Reads _ _ (u8 (raw_of f.type)) _ (raw_of f.type) _
            (u8-Reads (raw_of f.type) (raw_of-lt f.type))
            (bind-Reads _ _ [] _ tt _
              (refuse_if-Reads bad_schema _ (raw_of-valid f.type ok_f.typed))
              (bind-Reads _ _ (u8 f.flags) _ f.flags _ (u8-Reads f.flags ok_f.byte) (
                bind_last-Reads _ _ (write_fields rest) rest _ (fields-Reads rest ok_rest) (
                  return_as-Reads _ (f ∷ rest)
                    λ i. record f { type = value_type_of-raw_of f.type i } ∷ rest))))))

  kinds-Reads :
      (kinds : List KindDef)
      → limits.max_fields_per_kind < 2 ^ 32
      → All (KindOk atoms limits) kinds
      → Reads (decode_kinds atoms limits (length kinds)) (write_kinds kinds) kinds
  unfolding decode_kinds write_kinds
  kinds-Reads [] lim h = return-Reads []
  kinds-Reads (k ∷ rest) lim (ok_k, ok_rest) =
      let (text, named) = named-Reads k.name ok_k.named in
      let count : ℕ = length k.fields in
      bind-Reads _ _ (varint k.name) _ k.name _
        (varint_u32-Reads k.name (omega (arith, ok_k.named)))
        (bind-Reads _ _ [] _ text _ named (
          bind-Reads _ _ (varint count) _ count _ (varint_u32-Reads count (omega (arith, ok_k.few)))
            (bind-Reads _ _ [] _ tt _ (refuse_if-Reads limit_exceeded _ (le→ltb _ _ ok_k.few)) (
              bind-Reads _ _ (write_fields k.fields) _ k.fields _
                (fields-Reads k.fields ok_k.fields_ok)
                (bind_last-Reads _ _ (write_kinds rest) rest _ (kinds-Reads rest lim ok_rest)
                  (return-Reads (k ∷ rest)))))))

  -- A schema that satisfies what `decode` checks is read back from the section that the builder
  -- writes for its kinds, where counts and limits fit 32 bits.
  pub decode-build_schema_section :
      (s : Schema)
      → limits.max_fields_per_kind < 2 ^ 32
      → limits.max_kinds < 2 ^ 32
      → SchemaOk atoms limits s
      → Reads (decode atoms limits) (build_schema_section s.kinds) s
  unfolding decode build_schema_section
  decode-build_schema_section s lim_f lim_k h =
      bind-Reads _ _ (varint (length s.kinds)) _ (length s.kinds) _
        (varint_u32-Reads (length s.kinds) (omega (arith, h.few)))
        (bind-Reads _ _ [] _ tt _ (refuse_if-Reads limit_exceeded _ (le→ltb _ _ h.few)) (
          bind_last-Reads _ _ (write_kinds s.kinds) s.kinds _ (kinds-Reads s.kinds lim_f h.kinds_ok)
            (return-Reads s)))
