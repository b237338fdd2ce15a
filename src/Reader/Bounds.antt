-- ===== src/Reader/Bounds.antt =====
-- include/stratavm/byte_reader.hpp: the class invariant, and decoders composed on arbitrary bytes.
use stratavm.Base.{
  ℕ, ◌+◌, ◌≤◌, ◌<◌, ◌≡◌, refl, ◌∙◌, Bool, true, false, ltb, Option, some, none, ltb→le, Bool-cases,
  inl, inr, length, get_elem?-lt, All, All-get, arith,
}
use stratavm.Status.{Code, Result, ok, err, fault, Ensures, returns, refuses, Ensures-imp}
use stratavm.Reader.{
  ByteReader, recode, or_fail, Decoder, return, ◌>>=◌, refuse_if, need, peek, advance, advanced,
  remaining, fail, read_u8,
}

abbrev pub IsByte : ℕ → Type 0
IsByte b = b < 256

-- The class invariant, over bytes.
pub record IsValid (r : ByteReader) : Type 0 where
  pub within : r.pos ≤ length r.data_of
  pub bytes : All IsByte r.data_of

-- Where a decoder may leave the cursor.
pub record Moved (r r' : ByteReader) : Type 0 where
  pub valid : IsValid r'
  pub same : r'.data_of ≡ r.data_of
  pub forward : r.pos ≤ r'.pos

-- On every valid reader `m` has no undefined behaviour, and its value has `P`.
pub record Safe {κ} {A : Type 0} (m : Decoder A) (P : A → Type κ) : Type κ where
  pub at : (r : ByteReader) → IsValid r → Ensures (λ s. P s.0 × Moved r s.1) (m r)

pub Moved-refl : {r : ByteReader} → IsValid r → Moved r r
Moved-refl v = record { valid = v; same = refl; forward = omega arith }

pub Moved-trans : {r s t : ByteReader} → Moved r s → Moved s t → Moved r t
Moved-trans a b = record {
  valid = b.valid;
  same = b.same ∙ a.same;
  forward = omega (arith, a.forward, b.forward);
}

after {κ μ} :
    {A B : Type 0} {P : A × ByteReader → Type κ} {Q : B × ByteReader → Type μ}
    {x : Result (A × ByteReader)} (f : A → Decoder B)
    → Ensures P x
    → ((a : A) (r' : ByteReader) → P (a, r') → Ensures Q (f a r'))
    → Ensures Q (elim x [ ok (a, r') ↦ f a r' | err c ↦ err c | fault u ↦ fault u ])
after f (returns {a = s} p) k = k s.0 s.1 p
after f refuses k = refuses

-- One step of a `do` block.
pub step-Ensures {κ μ} :
    {A B : Type 0} {P : A × ByteReader → Type κ} {Q : B × ByteReader → Type μ} (m : Decoder A)
    (f : A → Decoder B) (r : ByteReader)
    → Ensures P (m r)
    → ((a : A) (r' : ByteReader) → P (a, r') → Ensures Q (f a r'))
    → Ensures Q ((m >>= f) r)
unfolding ◌>>=◌
step-Ensures m f r h k = after f h k

pub return-Safe {κ} : {A : Type 0} {P : A → Type κ} (a : A) → P a → Safe (return a) P
return-Safe a p = record { at = λ r v. returns (p, Moved-refl v) }

pub fail-Safe {κ} : {A : Type 0} {P : A → Type κ} (c : Code) → Safe (fail {A = A} c) P
fail-Safe c = record { at = λ r v. refuses }

pub bind-Safe {κ μ} :
    {A B : Type 0} {P : A → Type κ} {Q : B → Type μ} {m : Decoder A} {f : A → Decoder B}
    → Safe m P
    → ((a : A) → P a → Safe (f a) Q)
    → Safe (m >>= f) Q
bind-Safe {m = m} {f = f} h k = record {
  at = λ r v.
      step-Ensures m f r (h.at r v)
        λ a r' p. Ensures-imp (λ s q. (q.0, Moved-trans p.1 q.1)) ((k a p.0).at r' p.1.valid);
}

pub Safe-imp {κ μ} :
    {A : Type 0} {P : A → Type κ} {Q : A → Type μ} {m : Decoder A}
    → ((a : A) → P a → Q a)
    → Safe m P
    → Safe m Q
Safe-imp k h = record { at = λ r v. Ensures-imp (λ s q. (k s.0 q.0, q.1)) (h.at r v) }

refuse_if-at :
    (t : Bool) (c : Code) (r : ByteReader)
    → IsValid r
    → Ensures (λ s. (t ≡ false) × Moved r s.1) (refuse_if t c r)
refuse_if-at true c r v = refuses
refuse_if-at false c r v = returns (refl, Moved-refl v)

pub refuse_if-Safe : (t : Bool) (c : Code) → Safe (refuse_if t c) (λ _. t ≡ false)
refuse_if-Safe t c = record { at = refuse_if-at t c }

pub advanced-Moved :
    {r : ByteReader} (n : ℕ) → IsValid r → r.pos + n ≤ length r.data_of → Moved r (advanced n r)
advanced-Moved n v h = record {
  valid = record { within = h; bytes = v.bytes };
  same = refl;
  forward = omega arith;
}

-- The steps of a read at one place: the test, bytes that it allows, and the final move.
module _ {κ} {B : Type 0} {Q : B × ByteReader → Type κ} (r : ByteReader) (v : IsValid r) where
  pub need-step :
      (n : ℕ) (f : Unit {0} → Decoder B)
      → (r.pos + n ≤ length r.data_of → Ensures Q (f tt r))
      → Ensures Q ((need n >>= f) r)
  unfolding ◌>>=◌
  need-step n f k = elim (Bool-cases (ltb (remaining r) n)) [
    | inl short ↦ rw (short, ◌>>=◌) refuses
    | inr long ↦ rw (long, ◌>>=◌) (k (omega (arith, ltb→le _ _ long, v.within)))
  ]

  pub peek-step :
      (i : ℕ) (f : ℕ → Decoder B)
      → r.pos + i < length r.data_of
      → ((b : ℕ) → IsByte b → Ensures Q (f b r))
      → Ensures Q ((peek i >>= f) r)
  unfolding ◌>>=◌ peek
  peek-step i f h k =
      let (b, e) = get_elem?-lt r.data_of (r.pos + i) h in
      rw (e, ◌>>=◌, peek) (k b (All-get IsByte r.data_of (r.pos + i) v.bytes e))

  pub advance-step :
      (n : ℕ) (f : Unit {0} → Decoder B)
      → Ensures Q (f tt (advanced n r))
      → Ensures Q ((advance n >>= f) r)
  unfolding ◌>>=◌
  advance-step n f k = k

-- A read of one byte.
pub read_u8-Safe : Safe read_u8 IsByte
unfolding read_u8
read_u8-Safe = record {
  at = λ r v. need-step r v 1 _ λ n.
      peek-step r v 0 _ (omega arith)
        λ b h. advance-step r v 1 _ (returns (h, advanced-Moved 1 v n));
}

recoded {κ} :
    {A : Type 0} {P : A × ByteReader → Type κ} (c : Code) {x : Result (A × ByteReader)}
    → Ensures P x
    → Ensures P (elim x [ ok s ↦ ok s | err _ ↦ err c | fault u ↦ fault u ])
recoded c (returns p) = returns p
recoded c refuses = refuses

pub recode-Safe {κ} :
    {A : Type 0} {P : A → Type κ} {m : Decoder A} (c : Code) → Safe m P → Safe (recode c m) P
unfolding recode
recode-Safe c h = record { at = λ r v. recoded c (h.at r v) }

or_fail-at :
    {A : Type 0} (o : Option A) (c : Code) (r : ByteReader)
    → IsValid r
    → Ensures (λ s. (o ≡ some s.0) × Moved r s.1) (or_fail o c r)
or_fail-at none c r v = refuses
or_fail-at (some a) c r v = returns (refl, Moved-refl v)

pub or_fail-Safe : {A : Type 0} (o : Option A) (c : Code) → Safe (or_fail o c) (λ a. o ≡ some a)
or_fail-Safe o c = record { at = or_fail-at o c }
