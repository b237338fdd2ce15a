-- ===== src/Writer.antt =====
-- include/stratavm/byte_writer.hpp: the bytes that each call of a `ByteWriter` appends to `buf_`, so
-- that calls in a row are `++`. An int64_t or a double is its 64-bit pattern.
pub mod RoundTrip
pub mod Fixed
pub mod Patch
use stratavm.Base.{
  ℕ, zero, suc, ◌+◌, ◌-◌, ◌*◌, ◌/◌, ◌%◌, ◌^◌, ◌≤◌, ◌<◌, bit_and, bit_or, bit_xor, if◌then◌else◌,
  ltb, List, [], ◌∷◌, ◌++◌, length, set, arith, lt_wf,
}
use mathlib.Core.Logic.{dite}
use mathlib.Core.WellFounded.{Acc}
use native.Mathlib.Decide.{dec_le}

unfoldable pub u8 : ℕ → List ℕ
u8 v = v % 256 ∷ []

unfoldable pub u16 : ℕ → List ℕ
u16 v = v % 256 ∷ v / 2 ^ 8 % 256 ∷ []

-- `for (i = 0; i < rounds; ++i) buf_.push_back((v >> (8 * i)) & 0xFF)`, from round `i` on.
pub le_bytes : ℕ → ℕ → ℕ → List ℕ
le_bytes zero i v = []
le_bytes (suc rounds) i v = v / 2 ^ (8 * i) % 256 ∷ le_bytes rounds (suc i) v

unfoldable pub u32 : ℕ → List ℕ
unfolding le_bytes
u32 = le_bytes 4 0

unfoldable pub u64 : ℕ → List ℕ
unfolding le_bytes
u64 = le_bytes 8 0

unfoldable pub f64 : ℕ → List ℕ
unfolding u64
f64 = u64

pub shift_shrinks : (v : ℕ) → 0x80 ≤ v → v / 2 ^ 7 < v
shift_shrinks v h = omega arith

-- `while (v >= 0x80) { push(v & 0x7F | 0x80); v >>= 7; } push(v)`
pub varint_loop : (v : ℕ) → Acc ◌<◌ v → List ℕ
varint_loop v (Acc.intro _ smaller) =
    dite (dec_le 0x80 v)
      (λ more. bit_or (v % 0x80) 0x80 ∷ varint_loop (v / 2 ^ 7) (smaller _ (shift_shrinks v more)))
      (λ _. v % 256 ∷ [])

unfoldable pub varint : ℕ → List ℕ
unfolding varint_loop lt_wf dec_le
varint v = varint_loop v (lt_wf.apply v)

-- `v >> 63` on an int64_t copies the sign.
abbrev pub sign_fill : ℕ → ℕ
sign_fill v = if ltb v (2 ^ 63) then 0 else 2 ^ 64 - 1

unfoldable pub zigzag : ℕ → ℕ
zigzag v = bit_xor (v * 2 % 2 ^ 64) (sign_fill v)

unfoldable pub svarint : ℕ → List ℕ
unfolding zigzag
svarint v = varint (zigzag v)

unfoldable pub lp_string : List ℕ → List ℕ
lp_string s = varint (length s) ++ s

-- Overwrites the bytes from `at` on; the slot has been reserved.
pub patch_bytes : List ℕ → ℕ → List ℕ → List ℕ
patch_bytes buf at [] = buf
patch_bytes buf at (b ∷ bs) = patch_bytes (set buf at b) (suc at) bs

unfoldable pub patch_u32 : List ℕ → ℕ → ℕ → List ℕ
unfolding patch_bytes u32
patch_u32 buf at v = patch_bytes buf at (u32 v)
