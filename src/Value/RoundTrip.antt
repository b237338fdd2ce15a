-- ===== src/Value/RoundTrip.antt =====
-- `Value::decode` of src/value.cpp after `encode_value` of src/compactor.cpp.
use stratavm.Base.{ℕ, ◌^◌, ◌≤◌, ◌<◌, le→ltb, List, [], ◌∷◌, length, All, ◌≢◌, refl}
use stratavm.Status.{limit_exceeded}
use stratavm.Format.{Limits}
use stratavm.Reader.Reads.{Reads, bind-Reads, bind_last-Reads, refuse_if-Reads, return-Reads}
use stratavm.Writer.{varint, svarint, f64}
use stratavm.Writer.RoundTrip.{varint_u32-Reads, svarint-Reads}
use stratavm.Writer.Fixed.{f64-Reads}
use stratavm.Value.{Value, type_of, read_refs, decode, write_refs, encode_value}

abbrev pub IsU32 : ℕ → Type 0
IsU32 v = v < 2 ^ 32

-- The payload fits its C++ type, and a list the decode limit.
abbrev pub Fits : Limits → Value → Type 0
Fits limits (Value.int v) = v < 2 ^ 64
Fits limits (Value.float v) = v < 2 ^ 64
Fits limits (Value.atom v) = IsU32 v
Fits limits (Value.ref v) = IsU32 v
Fits limits (Value.list items) =
    (length items ≤ limits.max_list_len) × IsU32 (length items) × All IsU32 items
Fits limits Value.invalid = Unit {0}

pub refs-Reads :
    (items : List ℕ) → All IsU32 items → Reads (read_refs (length items)) (write_refs items) items
unfolding read_refs write_refs
refs-Reads [] h = return-Reads []
refs-Reads (x ∷ items) h =
    bind-Reads _ _ (varint x) (write_refs items) x (x ∷ items) (varint_u32-Reads x h.0) (
      bind_last-Reads _ _ (write_refs items) items (x ∷ items) (refs-Reads items h.1)
        (return-Reads (x ∷ items)))

-- A value other than the invalid one that fits its type is read back from `encode_value`'s bytes at that type, whatever follows.
pub decode-encode_value :
    (limits : Limits) (v : Value)
    → Fits limits v
    → v ≢ Value.invalid
    → Reads (decode limits (type_of v)) (encode_value v) v
unfolding decode encode_value
decode-encode_value limits (Value.int v) h n =
    bind_last-Reads _ _ (svarint v) v (Value.int v) (svarint-Reads v h) (return-Reads (Value.int v))
decode-encode_value limits (Value.float v) h n =
    bind_last-Reads _ _ (f64 v) v (Value.float v) (f64-Reads v h) (return-Reads (Value.float v))
decode-encode_value limits (Value.atom v) h n =
    bind_last-Reads _ _ (varint v) v (Value.atom v) (varint_u32-Reads v h)
      (return-Reads (Value.atom v))
decode-encode_value limits (Value.ref v) h n =
    bind_last-Reads _ _ (varint v) v (Value.ref v) (varint_u32-Reads v h)
      (return-Reads (Value.ref v))
decode-encode_value limits (Value.list items) h n =
    bind-Reads _ _ (varint (length items)) (write_refs items) (length items) (Value.list items)
      (varint_u32-Reads (length items) h.1)
      (bind-Reads _ _ [] (write_refs items) tt (Value.list items)
        (refuse_if-Reads limit_exceeded _ (le→ltb _ _ h.0))
        (bind_last-Reads _ _ (write_refs items) items (Value.list items) (refs-Reads items h.2)
          (return-Reads (Value.list items))))
decode-encode_value limits Value.invalid h n = absurd (n refl)
