-- ===== src/Runs/Codecs.antt =====
-- Runs of the readers and writers on concrete inputs.
use stratavm.Base.{◌+◌, ◌-◌, ◌^◌, ◌≡◌, ◌≤◌, refl, [], ◌∷◌, ◌++◌, length, arith}
use stratavm.Base.Maps.{nat_eq}
use stratavm.Status.{ok, Ensures}
use stratavm.Format.{ValueType, default_limits}
use stratavm.Reader.{reader_of, read_varint, read_svarint, read_lp_string, read_u64, advanced}
use stratavm.Reader.Bounds.{Safe}
use stratavm.Reader.Words.{IsVarint, read_varint-Ensures}
use stratavm.Reader.Reads.{Reads}
use stratavm.Writer.{varint, svarint, lp_string, u64}
use stratavm.Writer.RoundTrip.{varint-Reads, svarint-Reads, lp_string-Reads}
use stratavm.Writer.Fixed.{u64-Reads}
use stratavm.Value
use stratavm.Value.{Value, encode_value}
use stratavm.Value.RoundTrip.{decode-encode_value}
use stratavm.Atoms
use stratavm.Atoms.{AtomPool, intern}
use stratavm.Atoms.Invariant.{IsIndexed, Interned, empty-IsIndexed, intern_lem, decode-IsIndexed}
use stratavm.Schema
use stratavm.Schema.{Schema, build_schema_section}
use stratavm.Schema.Safety.{SchemaOk, decode-SchemaOk}
use stratavm.Schema.RoundTrip.{decode-build_schema_section}
use stratavm.Runs.{reader_of-IsValid, doc, pool, one_kind}

varint-Reads_example :
    read_varint (reader_of (varint 300 ++ 7 ∷ []))
    ≡ ok (300, advanced (length (varint 300)) (reader_of (varint 300 ++ 7 ∷ [])))
varint-Reads_example =
    varint-Reads 300 (omega arith) (reader_of (varint 300 ++ 7 ∷ [])) (7 ∷ []) refl

svarint-Reads_example :
    read_svarint (reader_of (svarint (2 ^ 64 - 1) ++ []))
    ≡ ok (
      2 ^ 64 - 1,
      advanced (length (svarint (2 ^ 64 - 1))) (reader_of (svarint (2 ^ 64 - 1) ++ [])),
    )
svarint-Reads_example =
    svarint-Reads (2 ^ 64 - 1) (omega arith) (reader_of (svarint (2 ^ 64 - 1) ++ [])) [] refl

lp_string-Reads_example :
    read_lp_string 16 (reader_of (lp_string doc ++ []))
    ≡ ok (doc, advanced (length (lp_string doc)) (reader_of (lp_string doc ++ [])))
lp_string-Reads_example =
    lp_string-Reads 16 doc (omega arith) (omega arith) (reader_of (lp_string doc ++ [])) [] refl

u64-Reads_example :
    read_u64 (reader_of (u64 (2 ^ 40 + 5) ++ []))
    ≡ ok (2 ^ 40 + 5, advanced (length (u64 (2 ^ 40 + 5))) (reader_of (u64 (2 ^ 40 + 5) ++ [])))
u64-Reads_example =
    u64-Reads (2 ^ 40 + 5) (omega arith) (reader_of (u64 (2 ^ 40 + 5) ++ [])) [] refl

decode-encode_value_example :
    Reads
      (Value.decode default_limits ValueType.list)
      (encode_value (Value.list (1 ∷ 2 ∷ [])))
      (Value.list (1 ∷ 2 ∷ []))
decode-encode_value_example =
    decode-encode_value default_limits (Value.list (1 ∷ 2 ∷ []))
      (omega arith, omega arith, (omega arith, (omega arith, tt))) (λ e. cc)

pub one_kind-SchemaOk : SchemaOk pool default_limits one_kind
one_kind-SchemaOk = record {
  kinds_ok = (
    record {
      named = omega arith;
      fields_ok = (record { named = omega arith; typed = λ e. cc; byte = omega arith }, tt);
      few = omega arith;
    },
    tt,
  );
  few = omega arith;
}

decode-build_schema_section_example :
    Reads (Schema.decode pool default_limits) (build_schema_section one_kind.kinds) one_kind
decode-build_schema_section_example =
    decode-build_schema_section pool default_limits (omega arith) one_kind (omega arith)
      (omega arith) one_kind-SchemaOk

decode-IsIndexed_example :
    Safe (Atoms.decode default_limits) (λ p. IsIndexed p × (length p.atoms ≤ 2 ^ 20))
decode-IsIndexed_example = decode-IsIndexed default_limits

decode-SchemaOk_example : Safe (Schema.decode pool default_limits) (SchemaOk pool default_limits)
decode-SchemaOk_example = decode-SchemaOk pool default_limits

intern_lem_example : Interned doc Atoms.empty (intern doc Atoms.empty)
intern_lem_example = intern_lem doc Atoms.empty empty-IsIndexed (omega arith)

read_varint-Ensures_example :
    Ensures (IsVarint (reader_of (0xac ∷ 2 ∷ [])) 10) (read_varint (reader_of (0xac ∷ 2 ∷ [])))
read_varint-Ensures_example =
    read_varint-Ensures (reader_of (0xac ∷ 2 ∷ [])) (reader_of-IsValid (0xac ∷ 2 ∷ []) refl)
