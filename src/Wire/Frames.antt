-- ===== src/Wire/Frames.antt =====
-- src/wire.cpp: `next_frame` on arbitrary bytes.
use stratavm.Base.{
  ℕ, ◌+◌, ◌/◌, ◌≤◌, ◌≡◌, refl, sym, ap, ◌∙◌, subst, Bool, true, false, not, ◌&&◌, ltb→le, ltb, leb,
  ◌==◌, Bool-cases, inl, inr, List, length, length-take, length-drop, drop-drop, get_elem?-lt, take,
  drop, arith,
}
use stratavm.Status.{
  Code, Result, ok, err, Ensures, returns, refuses, bind-Ensures, truncated, bad_magic,
  limit_exceeded, bad_checksum,
}
use stratavm.Wire.{
  WireFrame, WireDecoder, frame_magic, max_payload, read_le32, maybe_compact, unread, pending_bytes,
  reject, parse_frame, consume, next_frame,
}

-- The class invariant.
abbrev pub IsWithin : WireDecoder → Type 0
IsWithin d = d.pos ≤ length d.buf

pub maybe_compact-unread :
    (d : WireDecoder)
    → IsWithin d
    → (unread (maybe_compact d) ≡ unread d) × IsWithin (maybe_compact d)
unfolding maybe_compact
maybe_compact-unread d h = elim (Bool-cases (ltb 0 d.pos && leb (length d.buf / 2) d.pos)) [
  | inl far ↦ rw far (refl, omega arith)
  | inr near ↦ rw near (refl, h)
]

pub pending-length : (d : WireDecoder) → IsWithin d → pending_bytes d ≡ length (unread d)
pending-length d h = ground (arith, length-drop d.pos d.buf)

reject-Ensures : (t : Bool) (c : Code) → Ensures (λ _. t ≡ false) (reject t c)
reject-Ensures true c = refuses
reject-Ensures false c = returns refl

-- Four bytes in the buffer.
pub read_le32-ok : (p : List ℕ) (i : ℕ) → i + 4 ≤ length p → (v : ℕ) × (read_le32 p i ≡ ok v)
unfolding read_le32
read_le32-ok p i h =
    let (b0, e0) = get_elem?-lt p i (omega arith) in
    let (b1, e1) = get_elem?-lt p (i + 1) (omega arith) in
    let (b2, e2) = get_elem?-lt p (i + 2) (omega arith) in
    let (b3, e3) = get_elem?-lt p (i + 3) (omega arith) in rw (e0, e1, e2, e3) (_, refl)

read_le32-Ensures :
    (p : List ℕ) (i : ℕ) → i + 4 ≤ length p → Ensures (λ v. read_le32 p i ≡ ok v) (read_le32 p i)
read_le32-Ensures p i h =
    let (v, e) = read_le32-ok p i h in
    subst (Ensures (λ v. read_le32 p i ≡ ok v)) (sym e) (returns e)

payload_length : (n : ℕ) (p : List ℕ) → 16 + n ≤ length p → length (take n (drop 16 p)) ≡ n
payload_length n p h = omega (arith, length-take n (drop 16 p), length-drop 16 p)

-- A frame with its size, which fits in the bytes that it is found in.
abbrev Found : List ℕ → WireFrame × ℕ → Type 0
Found p s = (s.1 ≡ 20 + length s.0.payload) × (s.1 ≤ length p)

parse_frame-Ensures : (p : List ℕ) → Ensures (Found p) (parse_frame (length p) p)
unfolding parse_frame
parse_frame-Ensures p = bind-Ensures (reject-Ensures (ltb (length p) 20) truncated) λ _ long.
    bind-Ensures (read_le32-Ensures p 0 (ground arith)) λ magic _.
      bind-Ensures (reject-Ensures (not (magic == frame_magic)) bad_magic) λ _ _.
        bind-Ensures (read_le32-Ensures p 4 (ground arith)) λ flags _.
          bind-Ensures (read_le32-Ensures p 8 (ground arith)) λ seq _.
            bind-Ensures (read_le32-Ensures p 12 (ground arith)) λ n _.
              bind-Ensures (reject-Ensures (ltb max_payload n) limit_exceeded) λ _ _.
                bind-Ensures (reject-Ensures (ltb (length p) (16 + n + 4)) truncated) λ _ enough.
                  bind-Ensures (read_le32-Ensures p (16 + n) (omega (arith, ltb→le _ _ enough)))
                    λ stored _. bind-Ensures (reject-Ensures _ bad_checksum) λ _ _.
                      let f : WireFrame = record {
                        seq = seq;
                        flags = flags;
                        payload = take n (drop 16 p);
                      } in
                      returns {a = (f, 16 + n + 4)} (
                        omega (arith, payload_length n p (omega (arith, ltb→le _ _ enough))),
                        ltb→le _ _ enough,
                      )

-- From `d` to `d'`: a frame was taken off the front of the unread bytes, or nothing was.
pub data Outcome (d d' : WireDecoder) : Result WireFrame → Type 0 where
  framed :
      {f : WireFrame}
      → 20 + length f.payload ≤ length (unread d)
      → unread d' ≡ drop (20 + length f.payload) (unread d)
      → Outcome d d' (ok f)
  stuck : {c : Code} → unread d' ≡ unread d → Outcome d d' (err c)

consume-Outcome :
    (d d' : WireDecoder) (x : Result (WireFrame × ℕ))
    → IsWithin d'
    → unread d' ≡ unread d
    → Ensures (Found (unread d')) x
    → IsWithin (consume d' x).0 × Outcome d (consume d' x).0 (consume d' x).1
consume-Outcome d d' _ within same (returns {a = (f, total)} (size, fits)) = (
  omega (arith, length-drop d'.pos d'.buf),
  framed (omega (arith, ap length same)) (
      sym (drop-drop d'.pos total d'.buf)
      ∙ ap (drop total) same
      ∙ ap (λ n. drop n (unread d)) size),
)
consume-Outcome d d' _ within same refuses = (within, stuck same)

-- `next_frame`, on any decoder whose cursor is in its buffer, indexes nothing out of range and keeps the
-- cursor there. It takes a whole frame off the front of the unread bytes, header and checksum included,
-- or fails and takes nothing off.
pub next_frame-Outcome :
    (d : WireDecoder)
    → IsWithin d
    → IsWithin (next_frame d).0 × Outcome d (next_frame d).0 (next_frame d).1
unfolding next_frame
next_frame-Outcome d h =
    let d' = maybe_compact d in
    let (same, within) = maybe_compact-unread d h in
    consume-Outcome d d' _ within same (
      subst (λ n. Ensures (Found (unread d')) (parse_frame n (unread d')))
        (sym (pending-length d' within)) (parse_frame-Ensures (unread d')))
