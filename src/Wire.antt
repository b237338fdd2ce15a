-- ===== src/Wire.antt =====
-- include/stratavm/wire.hpp and src/wire.cpp: frames around containers on a byte stream.
-- `crc_table` is the function that its entries tabulate; an index is masked to 8 bits, so that it is in
-- the table. The pointer `p` is the list of the bytes from it on, and `p[i]` past their end is a fault.
-- `encode_frame` throws on a payload that is too long: it is `none` here.
pub mod Frames
pub mod RoundTrip
pub mod Polling
pub mod Streams
use stratavm.Base.{
  ℕ, zero, suc, ◌+◌, ◌-◌, ◌*◌, ◌/◌, ◌%◌, ◌^◌, bit_and, bit_or, bit_xor, Bool, true, false, not,
  ◌&&◌, ltb, leb, ◌==◌, if◌then◌else◌, List, [], ◌∷◌, ◌++◌, length, get_elem?, take, drop, Option,
  none, some,
}
use stratavm.Status.{
  Code, Result, ok, err, fault, out_of_range, ◌>>=◌, ◌>>◌, truncated, bad_magic, limit_exceeded,
  bad_checksum,
}
use stratavm.Format.{u32_mod}

abbrev pub frame_magic : ℕ
frame_magic = 0x5246_5753

abbrev pub max_payload : ℕ
max_payload = 256 * 1024 * 1024

abbrev pub end_of_stream : ℕ
end_of_stream = 2

pub record WireFrame : Type 0 where
  pub seq : ℕ
  pub flags : ℕ
  pub payload : List ℕ

-- `(flags & EndOfStream) != 0`
abbrev pub is_eos : WireFrame → Bool
is_eos f = not (f.flags / 2 % 2 == 0)

-- The inner loop of `crc_table`, with `rounds` left.
unfoldable pub crc_bits : ℕ → ℕ → ℕ
crc_bits zero c = c
crc_bits (suc rounds) c =
    crc_bits rounds (if c % 2 == 1 then bit_xor 0xedb8_8320 (c / 2) else c / 2)

abbrev pub crc_table : ℕ → ℕ
crc_table i = crc_bits 8 i

unfoldable pub crc_loop : List ℕ → ℕ → ℕ
crc_loop [] crc = crc
crc_loop (b ∷ rest) crc =
    crc_loop rest (bit_xor (crc_table (bit_and (bit_xor crc b) 0xff)) (crc / 2 ^ 8))

unfoldable pub wire_crc32 : List ℕ → ℕ
unfolding crc_loop
wire_crc32 bytes = bit_xor (crc_loop bytes 0xffff_ffff) 0xffff_ffff

unfoldable pub write_le32 : ℕ → List ℕ
write_le32 v = v % 256 ∷ v / 2 ^ 8 % 256 ∷ v / 2 ^ 16 % 256 ∷ v / 2 ^ 24 % 256 ∷ []

abbrev pub in_buffer : Option ℕ → Result ℕ
in_buffer none = fault out_of_range
in_buffer (some b) = ok b

-- `read_le32(p + i)`
unfoldable pub read_le32 : List ℕ → ℕ → Result ℕ
read_le32 p i = in_buffer (get_elem? p i) >>= λ b0. in_buffer (get_elem? p (i + 1)) >>= λ b1.
    in_buffer (get_elem? p (i + 2)) >>= λ b2. in_buffer (get_elem? p (i + 3)) >>= λ b3.
    ok (bit_or (bit_or (bit_or b0 (b1 * 2 ^ 8)) (b2 * 2 ^ 16)) (b3 * 2 ^ 24))

pub record WireEncoder : Type 0 where
  pub next_seq : ℕ
  pub buf : List ℕ

abbrev pub header_and_payload : ℕ → ℕ → List ℕ → List ℕ
header_and_payload flags seq payload =
    write_le32 frame_magic
    ++ (write_le32 flags ++ (write_le32 seq ++ (write_le32 (length payload) ++ payload)))

unfoldable pub frame_bytes : ℕ → ℕ → List ℕ → List ℕ
unfolding write_le32
frame_bytes flags seq payload =
    let body = header_and_payload flags seq payload in body ++ write_le32 (wire_crc32 body)

unfoldable pub encode_frame : List ℕ → ℕ → WireEncoder → Option WireEncoder
unfolding frame_bytes
encode_frame payload flags enc =
    if ltb max_payload (length payload)
    then none
    else some (record {
      next_seq = (enc.next_seq + 1) % u32_mod;
      buf = enc.buf ++ frame_bytes flags enc.next_seq payload;
    })

abbrev pub encode_container : List ℕ → WireEncoder → Option WireEncoder
encode_container bytes enc = encode_frame bytes 0 enc

abbrev pub encode_eos : WireEncoder → Option WireEncoder
encode_eos enc = encode_frame [] end_of_stream enc

abbrev pub take_buffer : WireEncoder → List ℕ × WireEncoder
take_buffer enc = (enc.buf, record enc { buf = [] })

pub record WireDecoder : Type 0 where
  pub buf : List ℕ
  pub pos : ℕ

abbrev pub feed : List ℕ → WireDecoder → WireDecoder
feed bytes d = record d { buf = d.buf ++ bytes }

abbrev pub reset : WireDecoder → WireDecoder
reset d = record { buf = []; pos = 0 }

-- `(pos_ <= buf_.size()) ? (buf_.size() - pos_) : 0`
abbrev pub pending_bytes : WireDecoder → ℕ
pending_bytes d = if leb d.pos (length d.buf) then length d.buf - d.pos else 0

unfoldable pub maybe_compact : WireDecoder → WireDecoder
maybe_compact d =
    let test = ltb 0 d.pos && leb (length d.buf / 2) d.pos in
    record { buf = if test then drop d.pos d.buf else d.buf; pos = if test then 0 else d.pos }

-- The bytes from `buf_.data() + pos_` on.
abbrev pub unread : WireDecoder → List ℕ
unread d = drop d.pos d.buf

abbrev pub reject : Bool → Code → Result (Unit {0})
reject true c = err c
reject false c = ok tt

unfoldable pub has_frame : WireDecoder → Result Bool
unfolding read_le32
has_frame d =
    if ltb (pending_bytes d) 20
    then ok false
    else (read_le32 (unread d) 12 >>= λ payload_len.
        ok (leb (16 + payload_len + 4) (pending_bytes d)))

-- What `next_frame` finds in `avail` bytes at `p`: a frame and its size.
unfoldable pub parse_frame : ℕ → List ℕ → Result (WireFrame × ℕ)
parse_frame avail p =
    reject (ltb avail 20) truncated
    >> (read_le32 p 0 >>= λ magic.
        reject (not (magic == frame_magic)) bad_magic
        >> (read_le32 p 4 >>= λ flags. read_le32 p 8 >>= λ seq. read_le32 p 12 >>= λ payload_len.
            reject (ltb max_payload payload_len) limit_exceeded
            >> (reject (ltb avail (16 + payload_len + 4)) truncated
                >> (read_le32 p (16 + payload_len) >>= λ stored_crc.
                    reject (not (wire_crc32 (take (16 + payload_len) p) == stored_crc)) bad_checksum
                    >> ok (
                      record { seq = seq; flags = flags; payload = take payload_len (drop 16 p) },
                      16 + payload_len + 4,
                    )))))

-- Only a frame that is returned moves the cursor.
abbrev pub consume : WireDecoder → Result (WireFrame × ℕ) → WireDecoder × Result WireFrame
consume d (ok (f, total)) = (record d { pos = d.pos + total }, ok f)
consume d (err c) = (d, err c)
consume d (fault u) = (d, fault u)

unfoldable pub next_frame : WireDecoder → WireDecoder × Result WireFrame
unfolding maybe_compact parse_frame
next_frame d = let d' = maybe_compact d in consume d' (parse_frame (pending_bytes d') (unread d'))

pub record WireSession : Type 0 where
  pub encoder : WireEncoder
  pub decoder : WireDecoder

-- `send_container`, `send_eos`, `flush_tx`, `receive_bytes` and `next_received_frame`.
abbrev sent : WireSession → Option WireEncoder → Option WireSession
sent s none = none
sent s (some enc) = some (record s { encoder = enc })

unfoldable pub send_container : List ℕ → WireSession → Option WireSession
send_container bytes s = sent s (encode_container bytes s.encoder)

unfoldable pub send_eos : WireSession → Option WireSession
send_eos s = sent s (encode_eos s.encoder)

abbrev pub flush_tx : WireSession → List ℕ × WireSession
flush_tx s = ((take_buffer s.encoder).0, record s { encoder = (take_buffer s.encoder).1 })

abbrev pub receive_bytes : List ℕ → WireSession → WireSession
receive_bytes bytes s = record s { decoder = feed bytes s.decoder }

unfoldable pub next_received_frame : WireSession → WireSession × Result WireFrame
unfolding next_frame
next_received_frame s = (record s { decoder = (next_frame s.decoder).0 }, (next_frame s.decoder).1)
