-- ===== src/Reader/Words.antt =====
-- include/stratavm/byte_reader.hpp: the reads of words and strings on arbitrary bytes.
use stratavm.Base.{
  ℕ, zero, suc, ◌+◌, ◌-◌, ◌*◌, ◌^◌, ◌%◌, ◌/◌, ◌≤◌, ◌<◌, bit_and, bit_or, bit_xor, ◌≡◌, refl, subst,
  ap, ◌∙◌, ltb, ◌==◌, ltb→le, Bool-cases, inl, inr, length, length-take, length-drop, All, All-take,
  All-drop, drop, arith,
}
use stratavm.Base.Bits.{bit_or_fields, low_bits, bit_xor-zero, bit_xor_ones}
use stratavm.Status.{Ensures, returns, refuses, Ensures-imp, bad_value, limit_exceeded}
use stratavm.Reader.{
  ByteReader, advanced, remaining, gather, varint_loop, add_group, read_u16, read_u32, read_u64,
  read_f64, read_bytes, read_varint, read_varint_u32, read_svarint, read_lp_string, negate64,
}
use stratavm.Reader.Bounds.{
  IsByte, IsValid, Moved, Moved-trans, Safe, step-Ensures, return-Safe, bind-Safe, refuse_if-Safe,
  Safe-imp, advanced-Moved, need-step, peek-step, advance-step,
}
use native.Mathlib.Decide.{dec_lt}
use native.Mathlib.Nat.{pow-le-pow_right}
use native.Mathlib.Numerals.{towards_suc}

pub read_u16-Safe : Safe read_u16 (λ v. v < 2 ^ 16)
unfolding read_u16
read_u16-Safe = record {
  at = λ r v. need-step r v 2 _ λ n. peek-step r v 0 _ (omega arith) λ b0 h0.
      peek-step r v 1 _ (omega arith) λ b1 h1.
        advance-step r v 2 _
          (returns (omega (arith, bit_or_fields 8 b0 b1 (omega arith)), advanced-Moved 2 v n));
}

four_bytes :
    (b0 b1 b2 b3 : ℕ)
    → b0 < 256
    → b1 < 256
    → b2 < 256
    → b3 < 256
    → bit_or (bit_or (bit_or b0 (b1 * 2 ^ 8)) (b2 * 2 ^ 16)) (b3 * 2 ^ 24) < 2 ^ 32
four_bytes b0 b1 b2 b3 h0 h1 h2 h3 =
    rw
      (
        bit_or_fields 8 b0 b1 (omega arith),
        bit_or_fields 16 (b0 + b1 * 2 ^ 8) b2 (omega arith),
        bit_or_fields 24 (b0 + b1 * 2 ^ 8 + b2 * 2 ^ 16) b3 (omega arith),
      )
      (omega arith)

pub read_u32-Safe : Safe read_u32 (λ v. v < 2 ^ 32)
unfolding read_u32
read_u32-Safe = record {
  at = λ r v. need-step r v 4 _ λ n. peek-step r v 0 _ (omega arith) λ b0 h0.
      peek-step r v 1 _ (omega arith) λ b1 h1. peek-step r v 2 _ (omega arith) λ b2 h2.
        peek-step r v 3 _ (omega arith) λ b3 h3.
          advance-step r v 4 _ (returns (four_bytes b0 b1 b2 b3 h0 h1 h2 h3, advanced-Moved 4 v n));
}

pow_eight : (i : ℕ) → 2 ^ (8 * suc i) ≡ 256 * 2 ^ (8 * i)
pow_eight i =
    ap (λ n. 2 ^ n) {x = 8 * suc i} {y = 8 * i + 8} (omega arith) ∙ simp towards_suc (omega arith)

scaled : (b p : ℕ) → b < 256 → b * p + p ≤ 256 * p
scaled b p h = grind arith

gather-Ensures :
    (rounds i v : ℕ) (r : ByteReader)
    → IsValid r
    → r.pos + i + rounds ≤ length r.data_of
    → v < 2 ^ (8 * i)
    → Ensures (λ s. (s.0 < 2 ^ (8 * (rounds + i))) × (s.1 ≡ r)) (gather rounds i v r)
unfolding gather
gather-Ensures zero i v r w fits h =
    returns (subst (λ n. v < 2 ^ (8 * n)) {y = 0 + i} (omega arith) h, refl)
gather-Ensures (suc rounds) i v r w fits h = peek-step r w i _ (omega arith) λ b hb.
    subst
      (λ n.
        Ensures (λ s. (s.0 < 2 ^ (8 * n)) × (s.1 ≡ r))
          (gather rounds (suc i) (bit_or v (b * 2 ^ (8 * i))) r))
      {x = rounds + suc i} (omega arith)
      (gather-Ensures rounds (suc i) _ r w (omega arith)
        (omega (arith, bit_or_fields (8 * i) v b h, pow_eight i, scaled b (2 ^ (8 * i)) hb)))

pub read_u64-Safe : Safe read_u64 (λ v. v < 2 ^ 64)
unfolding read_u64
read_u64-Safe = record {
  at = λ r v. need-step r v 8 _ λ n.
      step-Ensures _ _ r (gather-Ensures 8 0 0 r v (omega arith) (omega arith))
        λ w r' p. rw p.1 (advance-step r v 8 _ (returns (p.0, advanced-Moved 8 v n)));
}

pub read_f64-Safe : Safe read_f64 (λ v. v < 2 ^ 64)
unfolding read_f64
read_f64-Safe = read_u64-Safe

-- Nine groups fill 63 bits, and the tenth is cut to the 64th.
shift_seven : (s : ℕ) → 2 ^ (s + 7) ≡ 128 * 2 ^ s
shift_seven s = simp towards_suc (omega arith)

pub add_group-lt :
    (value b shift : ℕ)
    → b < 256
    → shift ≤ 56
    → value < 2 ^ shift
    → add_group value b shift < 2 ^ (shift + 7)
add_group-lt value b shift hb hs h =
    rw (low_bits b hb, uncut)
      (omega (arith, bit_or_fields shift value (b % 128) h, shift_seven shift, top))
  where
    top : b % 128 * 2 ^ shift + 2 ^ shift ≤ 128 * 2 ^ shift
    top = grind arith

    small : 2 ^ shift ≤ 2 ^ 56
    small = pow-le-pow_right (omega arith) hs

    uncut : b % 128 * 2 ^ shift % 2 ^ 64 ≡ b % 128 * 2 ^ shift
    uncut = omega (arith, top, small)

last_group-lt : (value b : ℕ) → b < 256 → value < 2 ^ 63 → add_group value b 63 < 2 ^ 64
last_group-lt value b hb h =
    rw (low_bits b hb, cut) (omega (arith, bit_or_fields 63 value (b % 128 % 2) h))
  where
    cut : b % 128 * 2 ^ 63 % 2 ^ 64 ≡ b % 128 % 2 * 2 ^ 63
    cut = omega arith

-- The value of a varint that starts at `r`, and where it may end.
abbrev pub IsVarint : ByteReader → ℕ → ℕ × ByteReader → Type 0
IsVarint r rounds s = (s.0 < 2 ^ 64) × Moved r s.1 × (r.pos < s.1.pos) × (s.1.pos ≤ r.pos + rounds)

one_round :
    (rounds value shift : ℕ) (r : ByteReader)
    → IsValid r
    → ((b : ℕ) → IsByte b → add_group value b shift < 2 ^ 64)
    → ((b : ℕ)
        → IsByte b
        → IsValid (advanced 1 r)
        → Ensures
            (IsVarint (advanced 1 r) rounds)
            (varint_loop rounds (add_group value b shift) (shift + 7) (advanced 1 r)))
    → Ensures (IsVarint r (suc rounds)) (varint_loop (suc rounds) value shift r)
unfolding varint_loop
one_round rounds value shift r v fits more = need-step r v 1 _ λ n.
    peek-step r v 0 _ (omega arith) λ b hb.
      advance-step r v 1 _ (elim (Bool-cases (bit_and b 0x80 == 0)) [
        | inl last ↦ rw last (returns (fits b hb, advanced-Moved 1 v n, omega arith, omega arith))
        | inr goes_on ↦ rw goes_on (
            Ensures-imp
              (λ s q. (
                q.0,
                Moved-trans (advanced-Moved 1 v n) q.1,
                omega (arith, q.2),
                omega (arith, q.3),
              ))
              (more b hb (advanced-Moved 1 v n).valid))
      ])

varint_loop-Ensures :
    (rounds value shift : ℕ) (r : ByteReader)
    → IsValid r
    → shift + 7 * rounds ≡ 70
    → value < 2 ^ shift
    → Ensures (IsVarint r rounds) (varint_loop rounds value shift r)
varint_loop-Ensures zero value shift r v total h = unfold varint_loop in refuses
varint_loop-Ensures (suc zero) value shift r v total h =
    one_round zero value shift r v
      (λ b hb.
        subst (λ s. add_group value b s < 2 ^ 64) {x = 63} (omega arith)
          (last_group-lt value b hb (subst (λ s. value < 2 ^ s) {y = 63} (omega arith) h)))
      (λ b hb w. unfold varint_loop in refuses)
varint_loop-Ensures (suc (suc rounds)) value shift r v total h =
    one_round (suc rounds) value shift r v
      (λ b hb. omega (
        arith,
        add_group-lt value b shift hb (omega arith) h,
        pow-le-pow_right {n = 2} (omega arith) {i = shift + 7} {j = 63} (omega arith),
      ))
      (λ b hb w.
        varint_loop-Ensures (suc rounds) (add_group value b shift) (shift + 7) (advanced 1 r) w
          (omega arith) (add_group-lt value b shift hb (omega arith) h))

-- On any bytes a varint is refused, or is a uint64_t of 1 to 10 bytes inside the window.
pub read_varint-Ensures : (r : ByteReader) → IsValid r → Ensures (IsVarint r 10) (read_varint r)
unfolding read_varint
read_varint-Ensures r v = varint_loop-Ensures 10 0 0 r v (omega arith) (omega arith)

pub read_varint-Safe : Safe read_varint (λ v. v < 2 ^ 64)
read_varint-Safe = record { at = λ r v. Ensures-imp (λ s q. (q.0, q.1)) (read_varint-Ensures r v) }

pub read_varint_u32-Safe : Safe read_varint_u32 (λ v. v < 2 ^ 32)
unfolding read_varint_u32
read_varint_u32-Safe = bind-Safe read_varint-Safe λ v h.
    bind-Safe (refuse_if-Safe (ltb 0xffff_ffff v) bad_value)
      λ _ e. return-Safe v (omega (arith, ltb→le _ _ e))

sign_even : (d : ℕ) → d < 1 → negate64 d ≡ 0
sign_even d h = omega arith

sign_odd : (d : ℕ) → d ≡ 1 → negate64 d ≡ 2 ^ 64 - 1
sign_odd d h = omega arith

unzigzag-lt : (u : ℕ) → u < 2 ^ 64 → bit_xor (u / 2) (negate64 (u % 2)) < 2 ^ 64
unzigzag-lt u h = elim (dec_lt (u % 2) 1) [
  | yes even ↦ rw (sign_even _ even) (omega (arith, bit_xor-zero 64 (u / 2) (omega arith)))
  | no odd ↦
      rw (sign_odd (u % 2) (omega arith)) (omega (arith, bit_xor_ones 64 (u / 2) (omega arith)))
]

pub read_svarint-Safe : Safe read_svarint (λ v. v < 2 ^ 64)
unfolding read_svarint
read_svarint-Safe = bind-Safe read_varint-Safe λ u h. return-Safe _ (unzigzag-lt u h)

-- A run of bytes has the length that was asked for.
read_bytes-Ensures :
    (len : ℕ) (r : ByteReader)
    → IsValid r
    → Ensures (λ s. (length s.0 ≡ len) × All IsByte s.0 × Moved r s.1) (read_bytes len r)
unfolding read_bytes
read_bytes-Ensures len r v = elim (Bool-cases (ltb (remaining r) len)) [
  | inl short ↦ rw short refuses
  | inr long ↦ rw long (
      returns (
        omega (
          arith,
          ltb→le _ _ long,
          length-take len (drop r.pos r.data_of),
          length-drop r.pos r.data_of,
        ),
        All-take IsByte len _ (All-drop IsByte r.pos _ v.bytes),
        advanced-Moved len v (omega (arith, ltb→le _ _ long, v.within)),
      ))
]

pub read_bytes-Safe : (len : ℕ) → Safe (read_bytes len) (λ s. (length s ≡ len) × All IsByte s)
read_bytes-Safe len = record {
  at = λ r v. Ensures-imp (λ s q. ((q.0, q.1), q.2)) (read_bytes-Ensures len r v);
}

pub read_lp_string-Safe :
    (max_len : ℕ) → Safe (read_lp_string max_len) (λ s. (length s ≤ max_len) × All IsByte s)
unfolding read_lp_string
read_lp_string-Safe max_len = bind-Safe read_varint-Safe λ len h.
    bind-Safe (refuse_if-Safe (ltb max_len len) limit_exceeded)
      λ _ e. Safe-imp (λ s q. (omega (arith, q.0, ltb→le _ _ e), q.1)) (read_bytes-Safe len)
