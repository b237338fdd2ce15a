-- ===== src/Wire/Polling.antt =====
-- src/wire.cpp: `has_frame` and `next_frame`.
use stratavm.Base.{
  ℕ, ◌+◌, ◌≤◌, ◌≡◌, ◌≢◌, refl, sym, ap, ap₂, ◌∙◌, Bool, true, false, not, ltb, leb, le→ltb, ltb→le,
  ◌==◌, Bool-cases, inl, inr, List, length, take, subst, arith,
}
use stratavm.Status.{
  Code, Result, ok, err, fault, ◌>>=◌, truncated, bad_magic, limit_exceeded, bad_checksum,
}
use stratavm.Wire.{
  WireFrame, WireDecoder, frame_magic, max_payload, wire_crc32, read_le32, unread, pending_bytes,
  reject, maybe_compact, parse_frame, consume, has_frame, next_frame,
}
use stratavm.Wire.Frames.{IsWithin, maybe_compact-unread, pending-length, read_le32-ok}

-- Any result but `Truncated`.
abbrev IsWhole : {A : Type 0} → Result A → Type 0
IsWhole m = m ≢ err truncated

abbrev code_or : {A : Type 0} → Code → Result A → Code
code_or d (err c) = c
code_or d _ = d

bind-IsWhole :
    {A B : Type 0} {f : A → Result B} (m : Result A)
    → IsWhole m
    → ((a : A) → m ≡ ok a → IsWhole (f a))
    → IsWhole (m >>= f)
bind-IsWhole (ok a) h k e = k a refl e
bind-IsWhole (err c) h k e = h (ap err (ap (code_or c) e))
bind-IsWhole (fault u) h k e = cc

reject-IsWhole : (t : Bool) (c : Code) → c ≢ truncated → IsWhole (reject t c)
reject-IsWhole true c other e = other (ap (code_or c) e)
reject-IsWhole false c other e = cc

read_le32-IsWhole : (p : List ℕ) (i : ℕ) → i + 4 ≤ length p → IsWhole (read_le32 p i)
read_le32-IsWhole p i h e = let (v, e') = read_le32-ok p i h in cc

parse_frame-IsWhole :
    (p : List ℕ) (n : ℕ)
    → 20 ≤ length p
    → read_le32 p 12 ≡ ok n
    → 16 + n + 4 ≤ length p
    → IsWhole (parse_frame (length p) p)
unfolding parse_frame
parse_frame-IsWhole p n long word fits =
    rw (le→ltb (length p) 20 long, word, le→ltb (length p) (16 + n + 4) fits)
      (bind-IsWhole (read_le32 p 0) (read_le32-IsWhole p 0 (omega arith)) λ magic _.
        bind-IsWhole (reject (not (magic == frame_magic)) bad_magic)
          (reject-IsWhole _ bad_magic (λ e. cc))
          λ _ _. bind-IsWhole (read_le32 p 4) (read_le32-IsWhole p 4 (omega arith)) λ flags _.
            bind-IsWhole (read_le32 p 8) (read_le32-IsWhole p 8 (omega arith)) λ seq _.
              bind-IsWhole (reject (ltb max_payload n) limit_exceeded)
                (reject-IsWhole _ limit_exceeded (λ e. cc))
                λ _ _.
                  bind-IsWhole (read_le32 p (16 + n)) (read_le32-IsWhole p (16 + n) (omega arith))
                    λ stored _.
                      bind-IsWhole
                        (reject (not (wire_crc32 (take (16 + n) p) == stored)) bad_checksum)
                        (reject-IsWhole _ bad_checksum (λ e. cc)) λ _ _ e. cc)

consume-IsWhole :
    (d : WireDecoder) (x : Result (WireFrame × ℕ)) → IsWhole x → IsWhole (consume d x).1
consume-IsWhole d (ok s) h e = cc
consume-IsWhole d (err c) h e = h (ap err (ap (code_or c) e))
consume-IsWhole d (fault u) h e = cc

next_frame-IsWhole :
    (d : WireDecoder)
    → IsWithin d
    → IsWhole (parse_frame (length (unread d)) (unread d))
    → IsWhole (next_frame d).1
unfolding next_frame
next_frame-IsWhole d within h =
    let d' = maybe_compact d in
    let (same, within') = maybe_compact-unread d within in
    consume-IsWhole d' _
      (subst IsWhole (sym (ap₂ parse_frame (pending-length d' within' ∙ ap length same) same)) h)

ok_true : (b : Bool) → ok b ≡ ok true → b ≡ true
ok_true true e = refl
ok_true false e = cc

-- When `has_frame` answers true of a decoder whose cursor is in its buffer, `next_frame` does not
-- answer `Truncated`.
pub has_frame-IsWhole :
    (d : WireDecoder) → IsWithin d → has_frame d ≡ ok true → (next_frame d).1 ≢ err truncated
unfolding has_frame
has_frame-IsWhole d within h = elim (Bool-cases (ltb (pending_bytes d) 20)) [
  | inl short ↦ let bad : false ≡ true = ok_true false (rw short at h) in cc
  | inr long ↦
      let size = pending-length d within in
      let enough : 20 ≤ length (unread d) = omega (arith, ltb→le _ _ long) in
      let (n, word) = read_le32-ok (unread d) 12 (omega arith) in
      let told : leb (16 + n + 4) (pending_bytes d) ≡ true = ok_true _ (rw (long, word) at h) in
      next_frame-IsWhole d within (parse_frame-IsWhole (unread d) n enough word (ground arith))
]
