-- ===== src/Schema/Safety.antt =====
-- `Schema::decode` of src/schema.cpp on arbitrary bytes.
use stratavm.Base.{
  ℕ, zero, suc, ◌≤◌, ◌<◌, ◌≢◌, ◌≡◌, refl, not, ltb, ltb→le, [], length, lt_of_get_elem?, All,
  All-map, ap, ◌^◌, arith, false,
}
use stratavm.Status.{bad_schema, limit_exceeded}
use stratavm.Format.{ValueType, Limits, is_valid_value_type, value_type_of}
use stratavm.Reader.Bounds.{Safe, Safe-imp, bind-Safe, return-Safe, refuse_if-Safe, or_fail-Safe}
use stratavm.Reader.Words.{read_varint_u32-Safe}
use stratavm.Reader.Bounds.{read_u8-Safe}
use stratavm.Atoms.{AtomPool, get}
use stratavm.Schema.{FieldDef, KindDef, Schema, decode_fields, decode_kinds, decode}

abbrev pub IsNamed : AtomPool → ℕ → Type 0
IsNamed atoms name = name < length atoms.atoms

pub record FieldOk (atoms : AtomPool) (f : FieldDef) : Type 0 where
  pub named : IsNamed atoms f.name
  pub typed : f.type ≢ ValueType.invalid
  pub byte : f.flags < 256

pub record KindOk (atoms : AtomPool) (limits : Limits) (k : KindDef) : Type 0 where
  pub named : IsNamed atoms k.name
  pub fields_ok : All (FieldOk atoms) k.fields
  pub few : length k.fields ≤ limits.max_fields_per_kind

pub record SchemaOk (atoms : AtomPool) (limits : Limits) (s : Schema) : Type 0 where
  pub kinds_ok : All (KindOk atoms limits) s.kinds
  pub few : length s.kinds ≤ limits.max_kinds

value_type_of-typed :
    (raw : ℕ) → not (is_valid_value_type raw) ≡ false → value_type_of raw ≢ ValueType.invalid
unfolding is_valid_value_type value_type_of
value_type_of-typed raw h e = ground arith

decode_fields-Safe :
    (atoms : AtomPool) (rounds : ℕ)
    → Safe (decode_fields atoms rounds) (λ fs. (length fs ≡ rounds) × All (FieldOk atoms) fs)
unfolding decode_fields
decode_fields-Safe atoms zero = return-Safe [] (refl, tt)
decode_fields-Safe atoms (suc rounds) = bind-Safe read_varint_u32-Safe λ name _.
    bind-Safe (or_fail-Safe (get atoms name) bad_schema) λ _ found. bind-Safe read_u8-Safe λ raw _.
      bind-Safe (refuse_if-Safe (not (is_valid_value_type raw)) bad_schema) λ _ valid.
        bind-Safe read_u8-Safe λ flags byte. bind-Safe (decode_fields-Safe atoms rounds) λ rest h.
          return-Safe _ (
            ap suc h.0,
            (
              record {
                named = lt_of_get_elem? atoms.atoms name found;
                typed = value_type_of-typed raw valid;
                byte = byte;
              },
              h.1,
            ),
          )

-- A kind whose fields a 32-bit word counts, as the section's words do.
abbrev pub IsCounted : KindDef → Type 0
IsCounted k = length k.fields < 2 ^ 32

decode_kinds-Safe :
    (atoms : AtomPool) (limits : Limits) (rounds : ℕ)
    → Safe
        (decode_kinds atoms limits rounds)
        (λ ks. (length ks ≡ rounds) × All (λ k. KindOk atoms limits k × IsCounted k) ks)
unfolding decode_kinds
decode_kinds-Safe atoms limits zero = return-Safe [] (refl, tt)
decode_kinds-Safe atoms limits (suc rounds) = bind-Safe read_varint_u32-Safe λ name _.
    bind-Safe (or_fail-Safe (get atoms name) bad_schema) λ _ found.
      bind-Safe read_varint_u32-Safe λ count word.
        bind-Safe (refuse_if-Safe (ltb limits.max_fields_per_kind count) limit_exceeded) λ _ few.
          bind-Safe (decode_fields-Safe atoms count) λ fields f.
            bind-Safe (decode_kinds-Safe atoms limits rounds) λ rest h. return-Safe _ (
              ap suc h.0,
              (
                (
                  record {
                    named = lt_of_get_elem? atoms.atoms name found;
                    fields_ok = f.1;
                    few = omega (arith, f.0, ltb→le _ _ few);
                  },
                  omega (arith, f.0, word),
                ),
                h.1,
              ),
            )

pub decode-Counted :
    (atoms : AtomPool) (limits : Limits)
    → Safe (decode atoms limits) (λ s. SchemaOk atoms limits s × All IsCounted s.kinds)
unfolding decode
decode-Counted atoms limits = bind-Safe read_varint_u32-Safe λ count _.
    bind-Safe (refuse_if-Safe (ltb limits.max_kinds count) limit_exceeded) λ _ few.
      bind-Safe (decode_kinds-Safe atoms limits count) λ kinds h. return-Safe _ (
        record {
          kinds_ok = All-map _ _ kinds (λ k both. both.0) h.1;
          few = omega (arith, h.0, ltb→le _ _ few);
        },
        All-map _ _ kinds (λ k both. both.1) h.1,
      )

-- On any bytes, a schema that `decode` returns names only atoms of the pool, gives every field a
-- valid type, and keeps the limits on kinds and fields.
pub decode-SchemaOk :
    (atoms : AtomPool) (limits : Limits) → Safe (decode atoms limits) (SchemaOk atoms limits)
decode-SchemaOk atoms limits = Safe-imp (λ s both. both.0) (decode-Counted atoms limits)
