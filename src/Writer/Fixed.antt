-- ===== src/Writer/Fixed.antt =====
-- The reads of include/stratavm/byte_reader.hpp after the fixed-width words of byte_writer.hpp.
use stratavm.Base.{
  ℕ, zero, suc, ◌+◌, ◌*◌, ◌/◌, ◌%◌, ◌^◌, ◌<◌, bit_or, ◌≡◌, refl, ap, subst, sym, ◌∙◌, List, [], ◌∷◌,
  ◌++◌, length, length-append, append_assoc, arith,
}
use stratavm.Base.Bits.{bit_or_fields}
use stratavm.Status.{ok}
use stratavm.Reader.{ByteReader, read_u8, read_u16, read_u32, read_u64, read_f64, gather, advanced}
use stratavm.Reader.Reads.{Reads, unread, bind_ok, peek_lem_at, need_lem, read_u8-Reads}
use stratavm.Writer.{u8, u16, u32, u64, f64, le_bytes}

pub u8-Reads : (v : ℕ) → v < 256 → Reads read_u8 (u8 v) v
unfolding u8
u8-Reads v h = subst (Reads read_u8 (u8 v)) {x = v % 256} (omega arith) (read_u8-Reads (v % 256))

pub u16-Reads : (v : ℕ) → v < 2 ^ 16 → Reads read_u16 (u16 v) v
unfolding read_u16 u16
u16-Reads v h r rest e =
    bind_ok _ _ r (need_lem r (u16 v) rest e 2 (omega arith))
    ∙ bind_ok _ _ r (peek_lem_at r 0 (v % 256) [] (v / 256 % 256 ∷ rest) refl e)
    ∙ bind_ok _ _ r (peek_lem_at r 1 (v / 256 % 256) (v % 256 ∷ []) rest refl e)
    ∙ bind_ok _ _ r refl
    ∙ λ i. ok (value i, advanced 2 r)
  where
    value : bit_or (v % 256) (v / 256 % 256 * 2 ^ 8) ≡ v
    value = bit_or_fields 8 (v % 256) (v / 256 % 256) (omega arith) ∙ omega arith

abbrev pub byte_of : ℕ → ℕ → ℕ
byte_of v i = v / 2 ^ (8 * i) % 256

pub join32 :
    (v : ℕ)
    → v < 2 ^ 32
    → bit_or
        (bit_or (bit_or (byte_of v 0) (byte_of v 1 * 2 ^ 8)) (byte_of v 2 * 2 ^ 16))
        (byte_of v 3 * 2 ^ 24)
      ≡ v
join32 v h =
    ap (λ t. bit_or (bit_or t (byte_of v 2 * 2 ^ 16)) (byte_of v 3 * 2 ^ 24))
      (bit_or_fields 8 (byte_of v 0) (byte_of v 1) (omega arith) ∙ low2)
    ∙ ap (λ t. bit_or t (byte_of v 3 * 2 ^ 24))
        (bit_or_fields 16 (v % 2 ^ 16) (byte_of v 2) (omega arith) ∙ low3)
    ∙ bit_or_fields 24 (v % 2 ^ 24) (byte_of v 3) (omega arith)
    ∙ omega arith
  where
    low2 : byte_of v 0 + byte_of v 1 * 2 ^ 8 ≡ v % 2 ^ 16
    low2 = omega arith

    low3 : v % 2 ^ 16 + byte_of v 2 * 2 ^ 16 ≡ v % 2 ^ 24
    low3 = omega arith

pub u32-Reads : (v : ℕ) → v < 2 ^ 32 → Reads read_u32 (u32 v) v
unfolding read_u32 u32
u32-Reads v h r rest e =
    bind_ok _ _ r (need_lem r (u32 v) rest e 4 (omega arith))
    ∙ bind_ok _ _ r (peek_lem_at r 0 b0 [] (b1 ∷ b2 ∷ b3 ∷ rest) refl e)
    ∙ bind_ok _ _ r (peek_lem_at r 1 b1 (b0 ∷ []) (b2 ∷ b3 ∷ rest) refl e)
    ∙ bind_ok _ _ r (peek_lem_at r 2 b2 (b0 ∷ b1 ∷ []) (b3 ∷ rest) refl e)
    ∙ bind_ok _ _ r (peek_lem_at r 3 b3 (b0 ∷ b1 ∷ b2 ∷ []) rest refl e)
    ∙ bind_ok _ _ r refl
    ∙ λ i. ok (join32 v h i, advanced 4 r)
  where
    b0 : ℕ
    b0 = byte_of v 0

    b1 : ℕ
    b1 = byte_of v 1

    b2 : ℕ
    b2 = byte_of v 2

    b3 : ℕ
    b3 = byte_of v 3

-- One more byte on top of the low `8 * i` bits.
join_byte :
    (i v : ℕ) → i < 8 → bit_or (v % 2 ^ (8 * i)) (byte_of v i * 2 ^ (8 * i)) ≡ v % 2 ^ (8 * suc i)
join_byte zero v h = bit_or_fields 0 _ _ (omega arith) ∙ omega arith
join_byte (suc zero) v h = bit_or_fields 8 _ _ (omega arith) ∙ omega arith
join_byte (suc (suc zero)) v h = bit_or_fields 16 _ _ (omega arith) ∙ omega arith
join_byte (suc (suc (suc zero))) v h = bit_or_fields 24 _ _ (omega arith) ∙ omega arith
join_byte (suc (suc (suc (suc zero)))) v h = bit_or_fields 32 _ _ (omega arith) ∙ omega arith
join_byte (suc (suc (suc (suc (suc zero))))) v h = bit_or_fields 40 _ _ (omega arith) ∙ omega arith
join_byte (suc (suc (suc (suc (suc (suc zero)))))) v h =
    bit_or_fields 48 _ _ (omega arith) ∙ omega arith
join_byte (suc (suc (suc (suc (suc (suc (suc zero))))))) v h =
    bit_or_fields 56 _ _ (omega arith) ∙ omega arith
join_byte (suc (suc (suc (suc (suc (suc (suc (suc i)))))))) v h = absurd (omega arith)

-- After `i` bytes the value is the low part.
gather-le_bytes :
    (rounds i v : ℕ) (r : ByteReader) (front rest : List ℕ)
    → rounds + i ≡ 8
    → length front ≡ i
    → unread r ≡ front ++ (le_bytes rounds i v ++ rest)
    → gather rounds i (v % 2 ^ (8 * i)) r ≡ ok (v % 2 ^ 64, r)
unfolding gather le_bytes
gather-le_bytes zero i v r front rest total len e = λ j. ok (v % 2 ^ (8 * same j), r)
  where
    same : i ≡ 8
    same = omega arith
gather-le_bytes (suc rounds) i v r front rest total len e =
    bind_ok _ _ r (peek_lem_at r i (byte_of v i) front (le_bytes rounds (suc i) v ++ rest) len e)
    ∙ ap (λ t. gather rounds (suc i) t r) (join_byte i v (omega arith))
    ∙ gather-le_bytes rounds (suc i) v r (front ++ byte_of v i ∷ []) rest (omega arith)
        (omega (arith, length-append front (byte_of v i ∷ [])))
        (e ∙ sym (append_assoc front (byte_of v i ∷ []) _))

-- The 8 bytes that `u64` writes for a uint64_t are read back by `read_u64`, whatever follows.
pub u64-Reads : (v : ℕ) → v < 2 ^ 64 → Reads read_u64 (u64 v) v
unfolding read_u64 u64
u64-Reads v h r rest e =
    bind_ok _ _ r (need_lem r (u64 v) rest e 8 (omega arith))
    ∙ bind_ok _ _ r (start ∙ gather-le_bytes 8 0 v r [] rest refl refl e)
    ∙ bind_ok _ _ r refl
    ∙ λ i. ok (whole i, advanced 8 r)
  where
    start : gather 8 0 0 r ≡ gather 8 0 (v % 2 ^ (8 * 0)) r
    start = ap (λ t. gather 8 0 t r) (omega arith)

    whole : v % 2 ^ 64 ≡ v
    whole = omega arith

pub f64-Reads : (v : ℕ) → v < 2 ^ 64 → Reads read_f64 (f64 v) v
unfolding read_f64 f64
f64-Reads v h = u64-Reads v h
