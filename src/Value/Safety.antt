-- ===== src/Value/Safety.antt =====
-- `Value::decode` of src/value.cpp on arbitrary bytes.
use stratavm.Base.{ℕ, zero, suc, ltb, ltb→le, ◌≡◌, refl, [], ◌∷◌, length, All, ap, arith}
use stratavm.Status.{bad_value, limit_exceeded}
use stratavm.Format.{ValueType, Limits}
use stratavm.Reader.Bounds.{Safe, bind-Safe, return-Safe, fail-Safe, refuse_if-Safe}
use stratavm.Reader.Words.{read_svarint-Safe, read_f64-Safe, read_varint_u32-Safe}
use stratavm.Value.{Value, type_of, read_refs, decode}
use stratavm.Value.RoundTrip.{IsU32, Fits}

read_refs-Safe : (n : ℕ) → Safe (read_refs n) (λ items. (length items ≡ n) × All IsU32 items)
unfolding read_refs
read_refs-Safe zero = return-Safe [] (refl, tt)
read_refs-Safe (suc n) = bind-Safe read_varint_u32-Safe λ ref h.
    bind-Safe (read_refs-Safe n) λ items k. return-Safe (ref ∷ items) (ap suc k.0, (h, k.1))

-- On any bytes a value is refused, or has the declared type and fits it.
pub decode-Safe :
    (limits : Limits) (declared : ValueType)
    → Safe (decode limits declared) (λ v. (type_of v ≡ declared) × Fits limits v)
unfolding decode
decode-Safe limits ValueType.int =
    bind-Safe read_svarint-Safe λ v h. return-Safe (Value.int v) (refl, h)
decode-Safe limits ValueType.float =
    bind-Safe read_f64-Safe λ v h. return-Safe (Value.float v) (refl, h)
decode-Safe limits ValueType.atom =
    bind-Safe read_varint_u32-Safe λ v h. return-Safe (Value.atom v) (refl, h)
decode-Safe limits ValueType.ref =
    bind-Safe read_varint_u32-Safe λ v h. return-Safe (Value.ref v) (refl, h)
decode-Safe limits ValueType.list = bind-Safe read_varint_u32-Safe λ n h.
    bind-Safe (refuse_if-Safe (ltb limits.max_list_len n) limit_exceeded) λ _ short.
      bind-Safe (read_refs-Safe n) λ items k.
        return-Safe (Value.list items)
          (refl, (omega (arith, k.0, ltb→le _ _ short), omega (arith, k.0), k.1))
decode-Safe limits ValueType.invalid = fail-Safe bad_value
