-- ===== src/Wire/RoundTrip.antt =====
-- src/wire.cpp: `next_frame` after `encode_frame`.
use stratavm.Base.Bits.{bit_xor-lt, bit_and-lt}
use stratavm.Reader.Bounds.{IsByte}
use stratavm.Base.{
  if-both, All, All-append, bit_and, bit_xor, ℕ, zero, suc, ◌+◌, ◌*◌, ◌/◌, ◌%◌, ◌^◌, ◌≤◌, ◌<◌, ◌≡◌,
  refl, sym, ap, ap₂, ◌∙◌, le→ltb, ==_self, ◌==◌, bit_or, List, [], ◌∷◌, ◌++◌, append_assoc, length,
  length-append, get_elem?, take, drop, take_exact, drop_exact, drop-drop, arith,
}
use stratavm.Writer.Fixed.{byte_of, join32}
use stratavm.Status.{ok}
use stratavm.Wire.{
  crc_bits, crc_loop, WireFrame, WireDecoder, frame_magic, max_payload, wire_crc32, write_le32,
  read_le32, frame_bytes, header_and_payload, maybe_compact, unread, pending_bytes, parse_frame,
  consume, next_frame,
}
use stratavm.Wire.Frames.{IsWithin, maybe_compact-unread, pending-length}

get_elem?-past : (pre xs : List ℕ) (k : ℕ) → get_elem? (pre ++ xs) (length pre + k) ≡ get_elem? xs k
get_elem?-past [] xs k = ap (get_elem? xs) (omega arith)
get_elem?-past (x ∷ pre) xs k =
    ap (get_elem? ((x ∷ pre) ++ xs)) {y = suc (length pre + k)} (omega arith)
    ∙ get_elem?-past pre xs k

-- The word at the end of `pre`.
read_le32-written :
    (pre rest : List ℕ) (v : ℕ)
    → v < 2 ^ 32
    → read_le32 (pre ++ (write_le32 v ++ rest)) (length pre) ≡ ok v
unfolding read_le32 write_le32
read_le32-written pre rest v h =
    rw
      (
        ap (get_elem? p) {x = length pre} {y = length pre + 0} (omega arith),
        get_elem?-past pre word 0,
        get_elem?-past pre word 1,
        get_elem?-past pre word 2,
        get_elem?-past pre word 3,
      )
      (ap
          (λ b. ok (
            bit_or (bit_or (bit_or b (v / 2 ^ 8 % 256 * 2 ^ 8)) (v / 2 ^ 16 % 256 * 2 ^ 16))
              (v / 2 ^ 24 % 256 * 2 ^ 24)))
          {x = v % 256} {y = byte_of v 0} (omega arith)
        ∙ ap ok (join32 v h))
  where
    word : List ℕ
    word = v % 256 ∷ v / 2 ^ 8 % 256 ∷ v / 2 ^ 16 % 256 ∷ v / 2 ^ 24 % 256 ∷ rest

    p : List ℕ
    p = pre ++ word

-- Parsing, from what the words of the header are.
parse_frame_lem :
    (p : List ℕ) (flags seq n : ℕ)
    → read_le32 p 0 ≡ ok frame_magic
    → read_le32 p 4 ≡ ok flags
    → read_le32 p 8 ≡ ok seq
    → read_le32 p 12 ≡ ok n
    → n ≤ max_payload
    → 16 + n + 4 ≤ length p
    → read_le32 p (16 + n) ≡ ok (wire_crc32 (take (16 + n) p))
    → parse_frame (length p) p
      ≡ ok (record { seq = seq; flags = flags; payload = take n (drop 16 p) }, 16 + n + 4)
unfolding parse_frame
parse_frame_lem p flags seq n magic_ok flags_ok seq_ok n_ok small fits crc_ok =
    rw
      (
        le→ltb (length p) 20 (omega arith),
        magic_ok,
        flags_ok,
        seq_ok,
        n_ok,
        le→ltb max_payload n small,
        le→ltb (length p) (16 + n + 4) fits,
        crc_ok,
        ==_self (wire_crc32 (take (16 + n) p)),
      )
      refl

crc_bits-lt : (rounds c : ℕ) → c < 2 ^ 32 → crc_bits rounds c < 2 ^ 32
unfolding crc_bits
crc_bits-lt zero c h = h
crc_bits-lt (suc rounds) c h = crc_bits-lt rounds _ (
    if-both (λ x. x < 2 ^ 32) (c % 2 == 1)
      (bit_xor-lt 32 0xedb8_8320 (c / 2) (omega arith) (omega arith)) (omega arith))

crc_loop-lt :
    (bytes : List ℕ) (crc : ℕ) → All IsByte bytes → crc < 2 ^ 32 → crc_loop bytes crc < 2 ^ 32
unfolding crc_loop
crc_loop-lt [] crc small h = h
crc_loop-lt (b ∷ rest) crc small h =
    crc_loop-lt rest _ small.1
      (bit_xor-lt 32 _ (crc / 2 ^ 8) (crc_bits-lt 8 _ masked) (omega arith))
  where
    masked : bit_and (bit_xor crc b) 0xff < 2 ^ 32
    masked = bit_and-lt 32 (bit_xor crc b) 0xff (bit_xor-lt 32 crc b h (omega (arith, small.0)))

-- A checksum is a word of 32 bits.
pub wire_crc32-lt : (bytes : List ℕ) → All IsByte bytes → wire_crc32 bytes < 2 ^ 32
unfolding wire_crc32
wire_crc32-lt bytes small =
    bit_xor-lt 32 _ 0xffff_ffff (crc_loop-lt bytes 0xffff_ffff small (omega arith)) (omega arith)

write_le32-IsByte : (v : ℕ) → All IsByte (write_le32 v)
unfolding write_le32
write_le32-IsByte v = (omega arith, (omega arith, (omega arith, (omega arith, tt))))

module _ (flags seq : ℕ) (payload rest : List ℕ) where
  abbrev body : List ℕ
  body = header_and_payload flags seq payload

  abbrev tail : List ℕ
  tail = write_le32 (wire_crc32 body) ++ rest

  body-length : length body ≡ 16 + length payload
  unfolding write_le32
  body-length = omega arith

  body-IsByte : All IsByte payload → All IsByte body
  body-IsByte small = All-append IsByte (write_le32 frame_magic) _ (write_le32-IsByte frame_magic) (
      All-append IsByte (write_le32 flags) _ (write_le32-IsByte flags) (
        All-append IsByte (write_le32 seq) _ (write_le32-IsByte seq) (
          All-append IsByte (write_le32 (length payload)) payload
            (write_le32-IsByte (length payload)) small)))

  parse_frame-written :
      flags < 2 ^ 32
      → seq < 2 ^ 32
      → length payload ≤ max_payload
      → All IsByte payload
      → parse_frame (length (body ++ tail)) (body ++ tail)
        ≡ ok (record { seq = seq; flags = flags; payload = payload }, 16 + length payload + 4)
  unfolding write_le32
  parse_frame-written flags_small seq_small short small =
      parse_frame_lem (body ++ tail) flags seq (length payload)
        (read_le32-written [] _ frame_magic (omega arith))
        (read_le32-written (write_le32 frame_magic) _ flags flags_small)
        (read_le32-written (write_le32 frame_magic ++ write_le32 flags) _ seq seq_small)
        (read_le32-written (write_le32 frame_magic ++ (write_le32 flags ++ write_le32 seq)) _
          (length payload) (omega arith))
        short (omega (arith, length-append body tail, body-length))
        (ap (read_le32 (body ++ tail)) (sym body-length)
          ∙ read_le32-written body rest (wire_crc32 body) (wire_crc32-lt body (body-IsByte small))
          ∙ ap (λ b. ok (wire_crc32 b))
              (sym (take_exact body tail) ∙ ap (λ n. take n (body ++ tail)) body-length))
      ∙ ap (λ xs. ok (framed xs, 16 + length payload + 4)) (take_exact payload tail)
    where
      framed : List ℕ → WireFrame
      framed xs = record { seq = seq; flags = flags; payload = xs }

  -- A decoder whose cursor is in its buffer and whose unread bytes start with a frame as the encoder
  -- writes it, with 32-bit flags and sequence number and a payload of bytes within the limit, returns
  -- that frame, with its flags, sequence number and payload, and leaves the bytes behind it.
  pub next_frame-frame_bytes :
      (d : WireDecoder)
      → IsWithin d
      → flags < 2 ^ 32
      → seq < 2 ^ 32
      → length payload ≤ max_payload
      → All IsByte payload
      → unread d ≡ frame_bytes flags seq payload ++ rest
      → ((next_frame d).1 ≡ ok (record { seq = seq; flags = flags; payload = payload }))
        × (unread (next_frame d).0 ≡ rest)
  unfolding next_frame frame_bytes write_le32
  next_frame-frame_bytes d within flags_small seq_small short small starts =
      let d' = maybe_compact d in
      let (same, within') = maybe_compact-unread d within in
      let at_frame : unread d' ≡ body ++ tail =
        same ∙ starts ∙ append_assoc body (write_le32 (wire_crc32 body)) rest in
      let len : pending_bytes d' ≡ length (body ++ tail) =
        pending-length d' within' ∙ ap length at_frame in
      let parsed =
        ap₂ parse_frame len at_frame ∙ parse_frame-written flags_small seq_small short small in
      (
        ap (λ r. (consume d' r).1) parsed,
        ap (λ r. unread (consume d' r).0) parsed
            ∙ sym (drop-drop d'.pos (16 + length payload + 4) d'.buf)
            ∙ ap (drop (16 + length payload + 4)) at_frame
            ∙ past_frame,
      )
    where
      past_frame : drop (16 + length payload + 4) (body ++ tail) ≡ rest
      past_frame =
          ap (λ n. drop n (body ++ tail)) {x = 16 + length payload + 4} {y = length body + 4}
            (omega (arith, body-length))
          ∙ sym (drop-drop (length body) 4 (body ++ tail))
          ∙ ap (drop 4) (drop_exact body tail)
          ∙ drop_exact (write_le32 (wire_crc32 body)) rest
