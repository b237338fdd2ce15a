-- ===== src/Reader.antt =====
-- include/stratavm/byte_reader.hpp: a cursor over bytes. `data_of` is the window that `data_` and
-- `size_` span, `pos` is `pos_`. A decoder takes the reader and returns its value with the reader
-- behind it. Words are numbers; an int64_t or a double is its 64-bit pattern.
pub mod Reads
pub mod Bounds
pub mod Words
pub mod Tame
use stratavm.Base.{
  ℕ, zero, suc, ◌+◌, ◌-◌, ◌*◌, ◌/◌, ◌%◌, ◌^◌, bit_and, bit_or, bit_xor, Bool, true, false,
  if◌then◌else◌, ltb, ◌==◌, List, length, get_elem?, take, drop, some, none, Option, ◌||◌,
}
use stratavm.Status.{Code, Result, ok, err, fault, truncated, bad_value, limit_exceeded}
use stratavm.Status.{out_of_range}

pub record ByteReader : Type 0 where
  pub data_of : List ℕ
  pub pos : ℕ

abbrev pub size : ByteReader → ℕ
size r = length r.data_of

-- `size_ - pos_`; `pos_` never passes `size_`, so the subtraction does not wrap.
abbrev pub remaining : ByteReader → ℕ
remaining r = length r.data_of - r.pos

abbrev pub reader_of : List ℕ → ByteReader
reader_of bytes = record { data_of = bytes; pos = 0 }

abbrev pub advanced : ℕ → ByteReader → ByteReader
advanced n r = record r { pos = r.pos + n }

abbrev pub Decoder : Type 0 → Type 0
Decoder A = ByteReader → Result (A × ByteReader)

-- Shut, so that a `do` block is taken apart one step at a time.
infixl 5 ◌>>=◌ ◌>>◌
unfoldable pub ◌>>=◌ : {A B : Type 0} → Decoder A → (A → Decoder B) → Decoder B
◌>>=◌ m f r = elim (m r) [ ok (a, r') ↦ f a r' | err c ↦ err c | fault x ↦ fault x ]

abbrev pub ◌>>◌ : {B : Type 0} → Decoder (Unit {0}) → Decoder B → Decoder B
m >> k = m >>= λ _. k

abbrev pub return : {A : Type 0} → A → Decoder A
return a r = ok (a, r)

abbrev pub fail : {A : Type 0} → Code → Decoder A
fail c r = err c

-- `if (test) return fail(code);`
abbrev pub refuse_if : Bool → Code → Decoder (Unit {0})
refuse_if true c r = err c
refuse_if false c r = ok (tt, r)

-- `if (remaining() < n) return fail(Code::Truncated);`
abbrev pub need : ℕ → Decoder (Unit {0})
need n r = refuse_if (ltb (remaining r) n) truncated r

-- `data_[pos_ + i]`
unfoldable pub peek : ℕ → Decoder ℕ
peek i r = elim (get_elem? r.data_of (r.pos + i)) [ some b ↦ ok (b, r) | none ↦ fault out_of_range ]

abbrev pub advance : ℕ → Decoder (Unit {0})
advance n r = ok (tt, advanced n r)

unfoldable pub seek : ℕ → Decoder (Unit {0})
seek absolute r =
    if ltb (length r.data_of) absolute then err truncated else ok (tt, record r { pos = absolute })

unfoldable pub window : ByteReader → ℕ → ℕ → Result ByteReader
window r offset len =
    if ltb (size r) offset || ltb (size r - offset) len
    then err truncated
    else ok (reader_of (take len (drop offset r.data_of)))

unfoldable pub read_u8 : Decoder ℕ
read_u8 = do need 1; b ← peek 0; advance 1; return b

unfoldable pub read_u16 : Decoder ℕ
read_u16 = do need 2; b0 ← peek 0; b1 ← peek 1; advance 2; return (bit_or b0 (b1 * 2 ^ 8))

unfoldable pub read_u32 : Decoder ℕ
read_u32 = do
  need 4
  b0 ← peek 0
  b1 ← peek 1
  b2 ← peek 2
  b3 ← peek 3
  advance 4
  return (bit_or (bit_or (bit_or b0 (b1 * 2 ^ 8)) (b2 * 2 ^ 16)) (b3 * 2 ^ 24))

-- `for (i = 0; i < 8; ++i) v |= data_[pos_ + i] << (8 * i)`, with `rounds` left to do.
unfoldable pub gather : ℕ → ℕ → ℕ → Decoder ℕ
gather zero i v = return v
gather (suc rounds) i v = do b ← peek i; gather rounds (suc i) (bit_or v (b * 2 ^ (8 * i)))

unfoldable pub read_u64 : Decoder ℕ
read_u64 = do need 8; v ← gather 8 0 0; advance 8; return v

-- The bits of a double are the model of it.
unfoldable pub read_f64 : Decoder ℕ
read_f64 = read_u64

-- `value |= (uint64_t)(byte & 0x7F) << shift`
abbrev pub add_group : ℕ → ℕ → ℕ → ℕ
add_group value byte shift = bit_or value (bit_and byte 0x7f * 2 ^ shift % 2 ^ 64)

unfoldable pub varint_loop : ℕ → ℕ → ℕ → Decoder ℕ
varint_loop zero value shift = fail bad_value
varint_loop (suc rounds) value shift = do
  need 1
  byte ← peek 0
  advance 1
  let value' = add_group value byte shift
  let more = varint_loop rounds value' (shift + 7)
  if bit_and byte 0x80 == 0 then return value' else more

unfoldable pub read_varint : Decoder ℕ
read_varint = varint_loop 10 0 0

unfoldable pub read_varint_u32 : Decoder ℕ
read_varint_u32 = do v ← read_varint; refuse_if (ltb 0xffff_ffff v) bad_value; return v

-- `~x + 1` on 64 bits.
abbrev pub negate64 : ℕ → ℕ
negate64 x = (2 ^ 64 - 1 - x + 1) % 2 ^ 64

unfoldable pub read_svarint : Decoder ℕ
read_svarint = do u ← read_varint; return (bit_xor (u / 2) (negate64 (u % 2)))

unfoldable pub read_bytes : ℕ → Decoder (List ℕ)
read_bytes len r =
    if ltb (remaining r) len
    then err truncated
    else ok (take len (drop r.pos r.data_of), advanced len r)

unfoldable pub read_lp_string : ℕ → Decoder (List ℕ)
read_lp_string max_len = do
  len ← read_varint
  refuse_if (ltb max_len len) limit_exceeded
  read_bytes len

unfoldable pub skip : ℕ → Decoder (Unit {0})
skip len = do need len; advance len

-- `if (p == nullptr) return fail(code);` for a looked-up `p`.
abbrev pub or_fail : {A : Type 0} → Option A → Code → Decoder A
or_fail none c r = err c
or_fail (some a) c r = ok (a, r)

-- `if (st.is_error()) return fail(code);` in place of the status itself.
unfoldable pub recode : {A : Type 0} → Code → Decoder A → Decoder A
recode c m r = elim (m r) [ ok s ↦ ok s | err _ ↦ err c | fault x ↦ fault x ]

-- A step that reads nothing.
abbrev pub lift : {A : Type 0} → Result A → Decoder A
lift (ok a) r = ok (a, r)
lift (err c) r = err c
lift (fault x) r = fault x
