-- ===== src/Runs/Frames.antt =====
-- Runs of the wire framing on concrete inputs.
use stratavm.Base.{◌≡◌, refl, [], ◌∷◌, ◌++◌, arith}
use stratavm.Base.Maps.{nat_eq}
use stratavm.Status.{ok}
use stratavm.Wire.{WireDecoder, frame_bytes, next_frame, unread}
use stratavm.Wire.Frames.{IsWithin, Outcome, next_frame-Outcome}
use stratavm.Wire.RoundTrip.{next_frame-frame_bytes}
use stratavm.Wire.Streams.{numbered, send_all, receive_all, receive_all-send_all}
use stratavm.Wire.Polling.{has_frame-IsWhole}
use stratavm.Wire.{WireSession, receive_bytes, flush_tx, has_frame}
use stratavm.Base.{◌≢◌, some}
use stratavm.Status.{err, truncated}
use stratavm.Runs.{all_bytes-IsByte, doc, file}

abbrev stream : WireDecoder
stream = record { buf = 7 ∷ 7 ∷ frame_bytes 0 3 (1 ∷ 2 ∷ []) ++ 9 ∷ []; pos = 2 }

next_frame-frame_bytes_example :
    ((next_frame stream).1 ≡ ok (record { seq = 3; flags = 0; payload = 1 ∷ 2 ∷ [] }))
    × (unread (next_frame stream).0 ≡ 9 ∷ [])
unfolding frame_bytes
next_frame-frame_bytes_example =
    next_frame-frame_bytes 0 3 (1 ∷ 2 ∷ []) (9 ∷ []) stream (omega arith) (omega arith)
      (omega arith) (omega arith) (all_bytes-IsByte (1 ∷ 2 ∷ []) refl) refl

next_frame-Outcome_example :
    IsWithin (next_frame stream).0 × Outcome stream (next_frame stream).0 (next_frame stream).1
unfolding frame_bytes
next_frame-Outcome_example = next_frame-Outcome stream (omega arith)

has_frame-IsWhole_example : (next_frame stream).1 ≢ err truncated
unfolding has_frame frame_bytes
has_frame-IsWhole_example = has_frame-IsWhole stream (omega arith) refl

abbrev session : WireSession
session = record {
  encoder = record { next_seq = 0; buf = [] };
  decoder = record { buf = []; pos = 0 };
}

receive_all-send_all_example :
    (s' : WireSession) × (send_all (doc ∷ file ∷ []) session ≡ some s')
    × (receive_all 2 (receive_bytes (flush_tx s').0 session) ≡ numbered 0 (doc ∷ file ∷ []))
receive_all-send_all_example =
    receive_all-send_all (doc ∷ file ∷ []) session session
      ((omega arith, all_bytes-IsByte doc refl), ((omega arith, all_bytes-IsByte file refl), tt))
      refl (omega arith) refl
