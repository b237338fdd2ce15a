-- ===== src/Reader/Reads.antt =====
-- When a decoder reads given bytes: `Reads m bytes a` says that `m`, where `bytes` come next, returns
-- `a`, takes just those bytes and does not look at what follows.
use stratavm.Base.{
  ℕ, suc, Option, some, ◌+◌, ◌≤◌, bit_and, ◌≡◌, refl, ap, ◌∙◌, Bool, true, false, ltb, ◌==◌, le→ltb,
  List, [], ◌∷◌, ◌++◌, append_assoc, length, length-append, get_elem?-drop, drop, drop-drop,
  drop_exact, length-drop, take_exact, sym, subst, append-nil, arith,
}
use stratavm.Status.{Code, ok, err}
use stratavm.Reader.{
  ByteReader, Decoder, return, ◌>>=◌, refuse_if, or_fail, need, peek, advanced, remaining,
  varint_loop, add_group, read_u8, read_bytes,
}

-- The bytes still to be read.
abbrev pub unread : ByteReader → List ℕ
unread r = drop r.pos r.data_of

abbrev pub Reads : {A : Type 0} → Decoder A → List ℕ → A → Type 0
Reads m bytes a =
    (r : ByteReader) (rest : List ℕ)
    → unread r ≡ bytes ++ rest
    → m r ≡ ok (a, advanced (length bytes) r)

pub unread-advanced :
    (r : ByteReader) (bytes rest : List ℕ)
    → unread r ≡ bytes ++ rest
    → unread (advanced (length bytes) r) ≡ rest
unread-advanced r bytes rest e =
    sym (drop-drop r.pos (length bytes) r.data_of)
    ∙ ap (drop (length bytes)) e
    ∙ drop_exact bytes rest

pub remaining-length : (r : ByteReader) → remaining r ≡ length (unread r)
remaining-length r = omega (arith, length-drop r.pos r.data_of)

-- A step of a `do` block that succeeds.
pub bind_ok :
    {A B : Type 0} (m : Decoder A) (f : A → Decoder B) (r : ByteReader) {a : A} {r' : ByteReader}
    → m r ≡ ok (a, r')
    → (m >>= f) r ≡ f a r'
unfolding ◌>>=◌
bind_ok m f r e = rw (e, ◌>>=◌)

pub return-Reads : {A : Type 0} (a : A) → Reads (return a) [] a
return-Reads a r rest e = λ i. ok (a, record r { pos = stays i })
  where
    stays : r.pos ≡ r.pos + 0
    stays = omega arith

pub return_as-Reads : {A : Type 0} (a b : A) → a ≡ b → Reads (return a) [] b
return_as-Reads a b e = subst (Reads (return a) []) e (return-Reads a)

pub bind-Reads :
    {A B : Type 0} (m : Decoder A) (f : A → Decoder B) (xs ys : List ℕ) (a : A) (b : B)
    → Reads m xs a
    → Reads (f a) ys b
    → Reads (m >>= f) (xs ++ ys) b
bind-Reads m f xs ys a b h k r rest e =
    bind_ok m f r (h r (ys ++ rest) split)
    ∙ k (advanced (length xs) r) rest (unread-advanced r xs (ys ++ rest) split)
    ∙ (λ i. ok (b, record r { pos = further i }))
  where
    split : unread r ≡ xs ++ (ys ++ rest)
    split = e ∙ append_assoc xs ys rest

    further : r.pos + length xs + length ys ≡ r.pos + length (xs ++ ys)
    further = omega (arith, length-append xs ys)

-- The last step may read nothing.
pub bind_last-Reads :
    {A B : Type 0} (m : Decoder A) (f : A → Decoder B) (xs : List ℕ) (a : A) (b : B)
    → Reads m xs a
    → Reads (f a) [] b
    → Reads (m >>= f) xs b
bind_last-Reads m f xs a b h k =
    subst (λ bytes. Reads (m >>= f) bytes b) (append-nil xs) (bind-Reads m f xs [] a b h k)

pub refuse_if-Reads : (c : Code) (t : Bool) → t ≡ false → Reads (refuse_if t c) [] tt
refuse_if-Reads c true e = cc
refuse_if-Reads c false e = return-Reads tt

-- On the bytes that `xs` starts, `m` ends in an error.
abbrev pub Refuses : {A : Type 0} → Decoder A → List ℕ → Code → Type 0
Refuses m xs c = (r : ByteReader) (rest : List ℕ) → unread r ≡ xs ++ rest → m r ≡ err c

pub bind-Refuses :
    {A B : Type 0} (m : Decoder A) (f : A → Decoder B) (xs ys : List ℕ) (a : A) (c : Code)
    → Reads m xs a
    → Refuses (f a) ys c
    → Refuses (m >>= f) (xs ++ ys) c
bind-Refuses m f xs ys a c h k r rest e =
    bind_ok m f r (h r (ys ++ rest) split)
    ∙ k (advanced (length xs) r) rest (unread-advanced r xs (ys ++ rest) split)
  where
    split : unread r ≡ xs ++ (ys ++ rest)
    split = e ∙ append_assoc xs ys rest

-- What a failed step leaves.
pub first-Refuses :
    {A B : Type 0} (m : Decoder A) (f : A → Decoder B) (xs : List ℕ) (c : Code)
    → Refuses m xs c
    → Refuses (m >>= f) xs c
unfolding ◌>>=◌
first-Refuses m f xs c h r rest e = rw (h r rest e, ◌>>=◌) refl

pub refused-Refuses :
    {B : Type 0} (c : Code) (t : Bool) (f : Unit {0} → Decoder B) (ys : List ℕ)
    → t ≡ true
    → Refuses (refuse_if t c >>= f) ys c
unfolding ◌>>=◌
refused-Refuses c true f ys h r rest e = refl
refused-Refuses c false f ys h r rest e = cc

pub or_fail-Reads :
    {A : Type 0} (o : Option A) (c : Code) (a : A) → o ≡ some a → Reads (or_fail o c) [] a
or_fail-Reads o c a e = rw e (return-Reads a)

module _ (r : ByteReader) (bytes rest : List ℕ) (e : unread r ≡ bytes ++ rest) where
  pub enough : (n : ℕ) → n ≤ length bytes → ltb (remaining r) n ≡ false
  enough n h = le→ltb _ _ (omega (arith, remaining-length r, ap length e, length-append bytes rest))

  pub need_lem : (n : ℕ) → n ≤ length bytes → need n r ≡ ok (tt, r)
  need_lem n h = rw (enough n h)

pub peek_lem :
    (r : ByteReader) (i b : ℕ) (rest : List ℕ)
    → drop (r.pos + i) r.data_of ≡ b ∷ rest
    → peek i r ≡ ok (b, r)
unfolding peek
peek_lem r i b rest e = rw (get_elem?-drop r.data_of (r.pos + i) e, peek)

pub peek_first :
    (r : ByteReader) (b : ℕ) (rest : List ℕ) → unread r ≡ b ∷ rest → peek 0 r ≡ ok (b, r)
peek_first r b rest e = peek_lem r 0 b rest (ap (λ n. drop n r.data_of) (omega arith) ∙ e)

pub peek_byte :
    (r : ByteReader) (front : List ℕ) (b : ℕ) (rest : List ℕ)
    → unread r ≡ front ++ (b ∷ rest)
    → peek (length front) r ≡ ok (b, r)
peek_byte r front b rest e = peek_lem r (length front) b rest (
    sym (drop-drop r.pos (length front) r.data_of)
    ∙ ap (drop (length front)) e
    ∙ drop_exact front (b ∷ rest))

pub read_u8-Reads : (b : ℕ) → Reads read_u8 (b ∷ []) b
unfolding read_u8
read_u8-Reads b r rest e =
    bind_ok _ _ r (need_lem r (b ∷ []) rest e 1 (omega arith))
    ∙ bind_ok _ _ r (peek_first r b rest e)
    ∙ bind_ok _ _ r refl

pub read_bytes-Reads : (s : List ℕ) → Reads (read_bytes (length s)) s s
unfolding read_bytes
read_bytes-Reads s r rest e = rw (enough r s rest e (length s) (omega arith), e, take_exact s rest)

module _ (k value shift b : ℕ) (r : ByteReader) (rest : List ℕ) (e : unread r ≡ b ∷ rest) where
  pub varint_loop_last :
      (bit_and b 0x80 == 0) ≡ true
      → varint_loop (suc k) value shift r ≡ ok (add_group value b shift, advanced 1 r)
  unfolding varint_loop
  varint_loop_last h =
      bind_ok _ _ r (need_lem r (b ∷ []) rest e 1 (omega arith))
      ∙ bind_ok _ _ r (peek_first r b rest e)
      ∙ bind_ok _ _ r refl
      ∙ rw h

  pub varint_loop_more :
      (bit_and b 0x80 == 0) ≡ false
      → varint_loop (suc k) value shift r
        ≡ varint_loop k (add_group value b shift) (shift + 7) (advanced 1 r)
  unfolding varint_loop
  varint_loop_more h =
      bind_ok _ _ r (need_lem r (b ∷ []) rest e 1 (omega arith))
      ∙ bind_ok _ _ r (peek_first r b rest e)
      ∙ bind_ok _ _ r refl
      ∙ rw h

pub peek_lem_at :
    (r : ByteReader) (i b : ℕ) (front rest : List ℕ)
    → length front ≡ i
    → unread r ≡ front ++ (b ∷ rest)
    → peek i r ≡ ok (b, r)
peek_lem_at r i b front rest len e =
    subst (λ n. peek n r ≡ ok (b, r)) len (peek_byte r front b rest e)
