-- ===== src/Wire/Streams.antt =====
-- src/wire.cpp: a sequence of containers from one session to another.
use stratavm.Base.{
  ℕ, zero, suc, ◌+◌, ◌%◌, ◌^◌, ◌≤◌, ◌<◌, ◌≡◌, refl, sym, ap, ◌∙◌, le→ltb, List, [], ◌∷◌, ◌++◌,
  append-nil, append_assoc, length, drop, All, Option, some, none, arith,
}
use stratavm.Status.{Result, ok}
use stratavm.Format.{u32_mod}
use stratavm.Reader.Bounds.{IsByte}
use stratavm.Wire.{
  WireFrame, WireDecoder, WireEncoder, WireSession, max_payload, frame_bytes, encode_frame, unread,
  send_container, receive_bytes, flush_tx, next_frame, next_received_frame,
}
use stratavm.Wire.Frames.{IsWithin, next_frame-Outcome}
use stratavm.Wire.RoundTrip.{next_frame-frame_bytes}

-- What fits in a frame.
abbrev pub IsPayload : List ℕ → Type 0
IsPayload p = (length p ≤ max_payload) × All IsByte p

abbrev next : ℕ → ℕ
next seq = (seq + 1) % u32_mod

-- The containers' frames, numbered from `seq` on.
abbrev pub numbered : ℕ → List (List ℕ) → List (Result WireFrame)
numbered seq [] = []
numbered seq (p ∷ rest) =
    ok (record { seq = seq; flags = 0; payload = p }) ∷ numbered (next seq) rest

frames : ℕ → List (List ℕ) → List ℕ
frames seq [] = []
frames seq (p ∷ rest) = frame_bytes 0 seq p ++ frames (next seq) rest

abbrev and_then : Option WireSession → (WireSession → Option WireSession) → Option WireSession
and_then none f = none
and_then (some s) f = f s

-- `send_container` for each container.
unfoldable pub send_all : List (List ℕ) → WireSession → Option WireSession
send_all [] s = some s
send_all (p ∷ rest) s = and_then (send_container p s) (send_all rest)

-- `next_received_frame`, so many times.
unfoldable pub receive_all : ℕ → WireSession → List (Result WireFrame)
receive_all zero s = []
receive_all (suc n) s = (next_received_frame s).1 ∷ receive_all n (next_received_frame s).0

-- What is waiting to be sent after all were.
send_all_lem :
    (ps : List (List ℕ)) (s : WireSession)
    → All IsPayload ps
    → (s' : WireSession) × (send_all ps s ≡ some s')
      × (s'.encoder.buf ≡ s.encoder.buf ++ frames s.encoder.next_seq ps)
unfolding send_all send_container encode_frame frames
send_all_lem [] s h = (s, refl, sym (append-nil s.encoder.buf))
send_all_lem (p ∷ rest) s h =
    let enc : WireEncoder = record {
      next_seq = next s.encoder.next_seq;
      buf = s.encoder.buf ++ frame_bytes 0 s.encoder.next_seq p;
    } in
    let (s', sent, holds) = send_all_lem rest (record s { encoder = enc }) h.1 in
    (s', rw (le→ltb max_payload (length p) h.0.0) sent, holds ∙ append_assoc s.encoder.buf _ _)

receive_all_lem :
    (ps : List (List ℕ)) (seq : ℕ) (s : WireSession)
    → All IsPayload ps
    → seq < 2 ^ 32
    → IsWithin s.decoder
    → unread s.decoder ≡ frames seq ps
    → receive_all (length ps) s ≡ numbered seq ps
unfolding receive_all frames next_received_frame
receive_all_lem [] seq s h small within starts = refl
receive_all_lem (p ∷ rest) seq s h small within starts =
    let (got, left) =
      next_frame-frame_bytes 0 seq p (frames (next seq) rest) s.decoder within (omega arith) small
        h.0.0 h.0.1 starts in
    let kept = (next_frame-Outcome s.decoder within).0 in
    let s' : WireSession = record s { decoder = (next_frame s.decoder).0 } in
    ap (λ r. r ∷ receive_all (length rest) s') got
    ∙ ap (λ rs. ok (record { seq = seq; flags = 0; payload = p }) ∷ rs)
        (receive_all_lem rest (next seq) s' h.1 (omega arith) kept left)

-- Containers that fit in frames, sent over a session that has nothing waiting, flushed, and received by
-- a session that has nothing unread: they are all sent, and as many received frames are the containers,
-- in order, numbered from the sender's sequence number on.
pub receive_all-send_all :
    (ps : List (List ℕ)) (s t : WireSession)
    → All IsPayload ps
    → s.encoder.buf ≡ []
    → s.encoder.next_seq < 2 ^ 32
    → t.decoder ≡ record { buf = []; pos = 0 }
    → (s' : WireSession) × (send_all ps s ≡ some s')
      × (receive_all (length ps) (receive_bytes (flush_tx s').0 t) ≡ numbered s.encoder.next_seq ps)
receive_all-send_all ps s t h idle small fresh =
    let (s', sent, holds) = send_all_lem ps s h in
    (
      s',
      sent,
      receive_all_lem ps s.encoder.next_seq (receive_bytes s'.encoder.buf t) h small
          (omega (arith, ap WireDecoder.pos fresh))
          (ap (λ (d : WireDecoder). drop d.pos (d.buf ++ s'.encoder.buf)) fresh
            ∙ holds
            ∙ ap (λ b. b ++ frames s.encoder.next_seq ps) idle),
    )
