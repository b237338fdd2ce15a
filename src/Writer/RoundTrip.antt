-- ===== src/Writer/RoundTrip.antt =====
-- The reads of include/stratavm/byte_reader.hpp after the varints and strings of byte_writer.hpp.
use stratavm.Base.{
  ℕ, zero, suc, ◌+◌, ◌-◌, ◌*◌, ◌/◌, ◌%◌, ◌^◌, ◌≤◌, ◌<◌, bit_and, bit_xor, ◌≡◌, ap, ap₂, subst, ◌∙◌,
  true, false, ◌==◌, le→ltb, lt→ltb, List, [], ◌∷◌, ◌++◌, length, arith, lt_wf,
}
use stratavm.Base.Bits.{bit_or_fields, bit_xor-zero, bit_xor_ones, low_bits, top_bit, set_top_bit}
use stratavm.Status.{ok, bad_value, limit_exceeded}
use stratavm.Reader.{
  ByteReader, read_u8, read_u16, read_u32, read_u64, read_f64, read_varint, read_varint_u32,
  read_svarint, read_lp_string, read_bytes, refuse_if, return, add_group, negate64, gather, ◌>>=◌,
  advanced,
}
use stratavm.Reader
use stratavm.Reader.Reads.{
  Reads, unread, bind-Reads, bind_last-Reads, return-Reads, refuse_if-Reads, read_bytes-Reads,
  varint_loop_last, varint_loop_more, unread-advanced,
}
use stratavm.Writer.{shift_shrinks, varint, svarint, zigzag, lp_string, varint_loop}
use mathlib.Core.WellFounded.{Acc}
use mathlib.Core.Logic.{dif_pos, dif_neg}
use native.Mathlib.Decide.{dec_lt}
use native.Mathlib.Bridge.{le_prop}
use native.Mathlib.Nat.{div-add-mod}
use native.Mathlib.Numerals.{towards_suc}

shift_seven : (s : ℕ) → 2 ^ (s + 7) ≡ 128 * 2 ^ s
shift_seven s = simp towards_suc (omega arith)

-- The low seven bits of what is left, and the others, each at its place.
split_group : (left at : ℕ) → left % 128 * 2 ^ at + left / 128 * 2 ^ (at + 7) ≡ left * 2 ^ at
split_group left at = omega (
  arith,
  ap (λ (p : ℕ). left / 128 * p) (shift_seven at),
  ap (λ (n : ℕ). n * 2 ^ at) (div-add-mod left 128),
)

-- One group on top of a value that ends below it.
add_group_lem :
    (value b g shift : ℕ)
    → bit_and b 0x7f ≡ g
    → value < 2 ^ shift
    → value + g * 2 ^ shift < 2 ^ 64
    → add_group value b shift ≡ value + g * 2 ^ shift
add_group_lem value b g shift e h fits = rw (e, fit) (bit_or_fields shift value g h)
  where
    fit : g * 2 ^ shift % 2 ^ 64 ≡ g * 2 ^ shift
    fit = omega arith

pow_bound : (g s : ℕ) → g < 128 → g * 2 ^ s + 2 ^ s ≤ 128 * 2 ^ s
pow_bound g s h = grind arith

-- The two branches of the writer's loop.
varint_loop_below : (w : ℕ) (acc : Acc ◌<◌ w) → w < 128 → varint_loop w acc ≡ w ∷ []
unfolding varint_loop
varint_loop_below w (Acc.intro _ smaller) h =
    rw (dif_neg _ (λ (p : 0x80 ≤ w). omega arith)) (ap (λ b. b ∷ []) (omega arith))

varint_loop_above :
    (w : ℕ) (acc : Acc ◌<◌ w)
    → 128 ≤ w
    → (rest : Acc ◌<◌ (w / 128)) × (varint_loop w acc
        ≡ (w % 128 + 128) ∷ varint_loop (w / 128) rest)
unfolding varint_loop
varint_loop_above w (Acc.intro _ smaller) h =
    let rest : Acc ◌<◌ (w / 128) = smaller _ (shift_shrinks w h) in
    (
      rest,
      rw (dif_pos _ le_prop h)
          (ap (λ b. b ∷ varint_loop (w / 128) rest) (set_top_bit (w % 128) (omega arith))),
    )

last_byte : (w : ℕ) → w < 128 → (bit_and w 0x80 == 0) ≡ true
last_byte w h = ground (arith, top_bit w)

inner_byte : (g : ℕ) → g < 128 → (bit_and (g + 128) 0x80 == 0) ≡ false
inner_byte g h = ground (arith, top_bit (g + 128))

below :
    (k w value shift : ℕ) (acc : Acc ◌<◌ w)
    → w < 128
    → value < 2 ^ shift
    → value + w * 2 ^ shift < 2 ^ 64
    → Reads (Reader.varint_loop (suc k) value shift) (varint_loop w acc) (value + w * 2 ^ shift)
below k w value shift acc small low fits r rest e = rw (varint_loop_below w acc small) (
    varint_loop_last k value shift w r rest (rw (varint_loop_below w acc small) at e)
      (last_byte w small)
    ∙ rw (add_group_lem value w w shift (low_bits w (omega arith) ∙ omega arith) low fits))

above :
    (k w value shift : ℕ) (acc : Acc ◌<◌ w) (acc' : Acc ◌<◌ (w / 128))
    → varint_loop w acc ≡ (w % 128 + 128) ∷ varint_loop (w / 128) acc'
    → value < 2 ^ shift
    → value + w * 2 ^ shift < 2 ^ 64
    → Reads
        (Reader.varint_loop k (value + w % 128 * 2 ^ shift) (shift + 7))
        (varint_loop (w / 128) acc')
        (value + w % 128 * 2 ^ shift + w / 128 * 2 ^ (shift + 7))
    → Reads (Reader.varint_loop (suc k) value shift) (varint_loop w acc) (value + w * 2 ^ shift)
above k w value shift acc acc' step low fits ih r rest e =
    varint_loop_more k value shift b r (bytes ++ rest) here (inner_byte (w % 128) (omega arith))
    ∙ rw group (ih (advanced 1 r) rest (unread-advanced r (b ∷ []) (bytes ++ rest) here))
    ∙ λ i. ok (total i, record r { pos = further i })
  where
    b : ℕ
    b = w % 128 + 128

    bytes : List ℕ
    bytes = varint_loop (w / 128) acc'

    here : unread r ≡ b ∷ (bytes ++ rest)
    here = rw step at e

    group : add_group value b shift ≡ value + w % 128 * 2 ^ shift
    group =
        add_group_lem value b (w % 128) shift (low_bits b (omega arith) ∙ omega arith) low
          (omega (arith, split_group w shift))

    total : value + w % 128 * 2 ^ shift + w / 128 * 2 ^ (shift + 7) ≡ value + w * 2 ^ shift
    total = omega (arith, split_group w shift)

    further : r.pos + 1 + length bytes ≡ r.pos + length (varint_loop w acc)
    further = omega (arith, ap length step)

-- `w` is what is still to be read, and it counts from bit `shift` on.
varint_loop-Reads :
    (k w value shift : ℕ) (acc : Acc ◌<◌ w)
    → w < 128 ^ suc k
    → value < 2 ^ shift
    → value + w * 2 ^ shift < 2 ^ 64
    → Reads (Reader.varint_loop (suc k) value shift) (varint_loop w acc) (value + w * 2 ^ shift)
varint_loop-Reads zero w value shift acc small low fits =
    below zero w value shift acc small low fits
varint_loop-Reads (suc k) w value shift acc small low fits = elim (dec_lt w 128) [
  | yes less ↦ below (suc k) w value shift acc less low fits
  | no more ↦
      let (acc', step) = varint_loop_above w acc (omega arith) in
      above (suc k) w value shift acc acc' step low fits (
        varint_loop-Reads k (w / 128) (value + w % 128 * 2 ^ shift) (shift + 7) acc' (omega arith)
          (omega (arith, shift_seven shift, pow_bound (w % 128) shift (omega arith)))
          (omega (arith, split_group w shift)))
]

-- The bytes that `varint` writes for a uint64_t are read back by `read_varint`, which stops behind them,
-- whatever follows.
pub varint-Reads : (v : ℕ) → v < 2 ^ 64 → Reads read_varint (varint v) v
unfolding read_varint varint
varint-Reads v h r rest e =
    varint_loop-Reads 9 v 0 0 (lt_wf.apply v) (omega arith) (omega arith) (omega arith) r rest e
    ∙ λ i. ok (total i, advanced (length (varint_loop v (lt_wf.apply v))) r)
  where
    total : 0 + v * 2 ^ 0 ≡ v
    total = omega arith

pub varint_u32-Reads : (v : ℕ) → v < 2 ^ 32 → Reads read_varint_u32 (varint v) v
unfolding read_varint_u32
varint_u32-Reads v h = bind_last-Reads read_varint _ (varint v) v v (varint-Reads v (omega arith)) (
    bind-Reads _ _ [] [] tt v (refuse_if-Reads bad_value _ (le→ltb _ _ (omega arith)))
      (return-Reads v))

-- A string within the reader's limit whose length fits 64 bits is read back from what `lp_string`
-- writes, whatever follows.
pub lp_string-Reads :
    (max_len : ℕ) (s : List ℕ)
    → length s ≤ max_len
    → length s < 2 ^ 64
    → Reads (read_lp_string max_len) (lp_string s) s
unfolding read_lp_string lp_string
lp_string-Reads max_len s short fits =
    bind-Reads read_varint _ (varint (length s)) s (length s) s (varint-Reads (length s) fits) (
      bind-Reads _ _ [] s tt s (refuse_if-Reads limit_exceeded _ (le→ltb _ _ short))
        (read_bytes-Reads s))

-- Zig-zag on two's complement.
zigzag_nonneg : (v : ℕ) → v < 2 ^ 63 → zigzag v ≡ v * 2
unfolding zigzag
zigzag_nonneg v h =
    rw (lt→ltb v (2 ^ 63) h) (bit_xor-zero 64 (v * 2 % 2 ^ 64) (omega arith) ∙ omega arith)

zigzag_neg : (v : ℕ) → v < 2 ^ 64 → 2 ^ 63 ≤ v → zigzag v ≡ 2 ^ 65 - 1 - v * 2
unfolding zigzag
zigzag_neg v h k =
    rw (le→ltb v (2 ^ 63) k) (bit_xor_ones 64 (v * 2 % 2 ^ 64) (omega arith) ∙ omega arith)

unzigzag_even : (u v : ℕ) → v < 2 ^ 64 → u ≡ v * 2 → bit_xor (u / 2) (negate64 (u % 2)) ≡ v
unzigzag_even u v h e = ap₂ bit_xor (half) (sign) ∙ bit_xor-zero 64 v h
  where
    half : u / 2 ≡ v
    half = omega arith

    sign : negate64 (u % 2) ≡ 0
    sign = omega arith

unzigzag_odd :
    (u v : ℕ)
    → v < 2 ^ 64
    → 2 ^ 63 ≤ v
    → u ≡ 2 ^ 65 - 1 - v * 2
    → bit_xor (u / 2) (negate64 (u % 2)) ≡ v
unzigzag_odd u v h k e =
    ap₂ bit_xor half sign ∙ bit_xor_ones 64 (2 ^ 64 - 1 - v) (omega arith) ∙ omega arith
  where
    half : u / 2 ≡ 2 ^ 64 - 1 - v
    half = omega arith

    sign : negate64 (u % 2) ≡ 2 ^ 64 - 1
    sign = omega arith

unzigzag_lem : (v : ℕ) → v < 2 ^ 64 → bit_xor (zigzag v / 2) (negate64 (zigzag v % 2)) ≡ v
unzigzag_lem v h = elim (dec_lt v (2 ^ 63)) [
  | yes nonneg ↦ unzigzag_even (zigzag v) v h (zigzag_nonneg v nonneg)
  | no neg ↦ unzigzag_odd (zigzag v) v h (omega arith) (zigzag_neg v h (omega arith))
]

zigzag-lt : (v : ℕ) → v < 2 ^ 64 → zigzag v < 2 ^ 64
zigzag-lt v h = elim (dec_lt v (2 ^ 63)) [
  | yes nonneg ↦ omega (arith, zigzag_nonneg v nonneg)
  | no neg ↦ omega (arith, zigzag_neg v h (omega arith))
]

-- The bytes that `svarint` writes for an int64_t, given by its 64-bit pattern, are read back by
-- `read_svarint`, whatever follows.
pub svarint-Reads : (v : ℕ) → v < 2 ^ 64 → Reads read_svarint (svarint v) v
unfolding read_svarint svarint
svarint-Reads v h =
    bind_last-Reads read_varint _ (varint (zigzag v)) (zigzag v) v
      (varint-Reads (zigzag v) (zigzag-lt v h))
      (subst (Reads _ []) (unzigzag_lem v h) (return-Reads _))
