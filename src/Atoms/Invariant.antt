-- ===== src/Atoms/Invariant.antt =====
-- src/atom_pool.cpp: the class invariant of the pool and its reverse index.
use stratavm.Base.{
  ℕ, zero, suc, ◌+◌, ◌%◌, ◌≤◌, ◌<◌, ◌≡◌, ◌≢◌, refl, sym, ap, subst, ◌∙◌, Bool, Bool-cases, not,
  ◌||◌, ◌==◌, get_elem?-lt, get_elem?-ge, ltb, ltb→lt, ltb→le, if◌then◌else◌, Option-cases, inl,
  inr, List, [], ◌∷◌, ◌++◌, length, length-append, get_elem?, get_elem?-append_length,
  get_elem?-append_left, Option, none, some, arith,
}
use stratavm.Base.Maps.{bytes_eq, bytes_beq, bytes_beq_iff, lookup, lookup-insert}
use stratavm.Status.{limit_exceeded, bad_atom_pool}
use stratavm.Format.{Limits, u32_mod, invalid_id}
use stratavm.Reader.Bounds.{recode-Safe, Safe, bind-Safe, Safe-imp, return-Safe, refuse_if-Safe}
use stratavm.Reader.Words.{read_varint_u32-Safe, read_lp_string-Safe}
use stratavm.Atoms.{AtomPool, empty, get, add, index_first, intern, decode_atoms, decode, lacks}

-- The least position of `s`, from `i` on.
pub first_from : ℕ → List ℕ → List (List ℕ) → Option ℕ
first_from i s [] = none
first_from i s (t ∷ atoms) = if bytes_beq t s then some i else first_from (suc i) s atoms

-- The pool's class invariant.
pub record IsIndexed (p : AtomPool) : Type 0 where
  pub agrees : (s : List ℕ) → lookup s p.index ≡ first_from 0 s p.atoms

else_some : Option ℕ → Bool → ℕ → Option ℕ
else_some (some id) hit i = some id
else_some none hit i = if hit then some i else none

first_from-append :
    (i : ℕ) (s t : List ℕ) (atoms : List (List ℕ))
    → first_from i s (atoms ++ t ∷ [])
      ≡ else_some (first_from i s atoms) (bytes_beq t s) (i + length atoms)
unfolding first_from else_some
first_from-append i s t [] = ground arith
first_from-append i s t (u ∷ atoms) = ground (arith, first_from-append (suc i) s t atoms)

lookup-index_first :
    (s t : List ℕ) (p : AtomPool) (id : ℕ)
    → lookup s (index_first t id p.index) ≡ else_some (lookup s p.index) (bytes_beq t s) id
unfolding else_some
lookup-index_first s t p id = ground (arith, bytes_beq_iff t s, lookup-insert t s id p.index)

pub add-IsIndexed : (s : List ℕ) (p : AtomPool) → IsIndexed p → IsIndexed (add (length p.atoms) s p)
add-IsIndexed s p h = record {
  agrees = λ t.
      lookup-index_first t s p (length p.atoms)
      ∙ ap (λ o. else_some o (bytes_beq s t) (length p.atoms)) (h.agrees t)
      ∙ ap (else_some (first_from 0 t p.atoms) (bytes_beq s t)) (omega arith)
      ∙ sym (first_from-append 0 t s p.atoms);
}

pub empty-IsIndexed : IsIndexed empty
unfolding first_from lookup
empty-IsIndexed = record { agrees = λ s. refl }

decode_atoms-Safe :
    (limits : Limits) (rounds i : ℕ) (p : AtomPool)
    → IsIndexed p
    → length p.atoms ≡ i
    → Safe (decode_atoms limits rounds i p) (λ q. IsIndexed q × (length q.atoms ≡ rounds + i))
unfolding decode_atoms
decode_atoms-Safe limits zero i p h len = return-Safe p (h, omega arith)
decode_atoms-Safe limits (suc rounds) i p h len =
    bind-Safe (recode-Safe bad_atom_pool (read_lp_string-Safe limits.max_atom_len)) λ s _.
      subst
        (λ n.
          Safe (decode_atoms limits rounds (i + 1) (add i s p))
            (λ q. IsIndexed q × (length q.atoms ≡ n)))
        {x = rounds + (i + 1)} (omega arith)
        (decode_atoms-Safe limits rounds (i + 1) (add i s p)
          (subst (λ n. IsIndexed (add n s p)) len (add-IsIndexed s p h))
          (omega (arith, length-append p.atoms (s ∷ []))))

-- On any bytes, a pool that `decode` returns finds each text at its first position, and holds no
-- more atoms than the limit.
pub decode-IsIndexed :
    (limits : Limits)
    → Safe (decode limits) (λ p. IsIndexed p × (length p.atoms ≤ limits.max_atoms))
unfolding decode
decode-IsIndexed limits = bind-Safe read_varint_u32-Safe λ count _.
    bind-Safe (refuse_if-Safe (ltb limits.max_atoms count) limit_exceeded) λ _ few.
      Safe-imp (λ p h. (h.0, omega (arith, h.1, ltb→le _ _ few)))
        (decode_atoms-Safe limits count 0 empty empty-IsIndexed refl)

first_from-le :
    (i : ℕ) (s : List ℕ) (atoms : List (List ℕ)) (j : ℕ) → first_from i s atoms ≡ some j → i ≤ j
unfolding first_from
first_from-le i s [] j e = cc
first_from-le i s (t ∷ atoms) j e = ground (arith, first_from-le (suc i) s atoms j)

-- A position that `first_from` gives holds the text.
first_from-get :
    (i : ℕ) (s : List ℕ) (atoms : List (List ℕ)) (id : ℕ)
    → first_from i s atoms ≡ some (i + id)
    → get_elem? atoms id ≡ some s
unfolding first_from
first_from-get i s [] id e = cc
first_from-get i s (t ∷ atoms) zero e =
    ground (arith, bytes_beq_iff t s, first_from-le (suc i) s atoms (i + 0))
first_from-get i s (t ∷ atoms) (suc id) e = ground (arith, first_from-get (suc i) s atoms id)

lookup-get :
    (s : List ℕ) (p : AtomPool) (id : ℕ)
    → IsIndexed p
    → lookup s p.index ≡ some id
    → get p id ≡ some s
lookup-get s p id h e = first_from-get 0 s p.atoms id (sym (h.agrees s) ∙ e ∙ ap some (omega arith))

intern_known :
    (s : List ℕ) (p : AtomPool) (id : ℕ) → lookup s p.index ≡ some id → intern s p ≡ (p, id)
unfolding intern
intern_known s p id e = rw (e, intern)

intern_new :
    (s : List ℕ) (p : AtomPool)
    → lookup s p.index ≡ none
    → length p.atoms < u32_mod
    → intern s p ≡ (add (length p.atoms) s p, length p.atoms)
unfolding intern
intern_new s p e small = rw (e, intern) (λ i. (add (narrow i) s p, narrow i))
  where
    narrow : length p.atoms % u32_mod ≡ length p.atoms
    narrow = omega arith

lookup_new :
    (s : List ℕ) (p : AtomPool)
    → lookup s p.index ≡ none
    → lookup s (index_first s (length p.atoms) p.index) ≡ some (length p.atoms)
unfolding else_some
lookup_new s p e = lookup-index_first s s p (length p.atoms) ∙ ground (arith, bytes_beq_iff s s)

-- What interning promises of the pool and the id that it returns.
pub record Interned (s : List ℕ) (p : AtomPool) (r : AtomPool × ℕ) : Type 0 where
  pub indexed : IsIndexed r.0
  pub names : get r.0 r.1 ≡ some s
  pub keeps : (id : ℕ) → id < length p.atoms → get r.0 id ≡ get p id
  pub again : intern s r.0 ≡ r

-- Interning in an indexed pool whose ids fit 32 bits gives an id whose text is the one interned, keeps
-- the pool indexed and every other id's text, and a second intern of that text gives the same id and
-- changes nothing.
pub intern_lem :
    (s : List ℕ) (p : AtomPool) → IsIndexed p → length p.atoms < u32_mod → Interned s p (intern s p)
intern_lem s p h small = elim (Option-cases (lookup s p.index)) [
  | inr (id, e) ↦ rw (intern_known s p id e) (record {
    indexed = h;
    names = lookup-get s p id h e;
    keeps = λ j _. refl;
    again = intern_known s p id e;
  })
  | inl e ↦ rw (intern_new s p e small) (record {
    indexed = add-IsIndexed s p h;
    names = get_elem?-append_length p.atoms s;
    keeps = λ j lt. get_elem?-append_left p.atoms (s ∷ []) j lt;
    again = intern_known s _ _ (lookup_new s p e);
  })
]

first_from-none :
    (i : ℕ) (s : List ℕ) (atoms : List (List ℕ)) (id : ℕ)
    → first_from i s atoms ≡ none
    → get_elem? atoms id ≢ some s
unfolding first_from
first_from-none i s [] id e = λ k. cc
first_from-none i s (t ∷ atoms) zero e = ground (arith, bytes_beq_iff t s)
first_from-none i s (t ∷ atoms) (suc id) e = ground (arith, first_from-none (suc i) s atoms id)

-- What the reverse index says of a text.
pub data Resolution (s : List ℕ) (p : AtomPool) : Option ℕ → Type 0 where
  known : {id : ℕ} → get p id ≡ some s → Resolution s p (some id)
  unknown : ((id : ℕ) → get p id ≢ some s) → Resolution s p none

pub lookup-Resolution :
    (s : List ℕ) (p : AtomPool) → IsIndexed p → Resolution s p (lookup s p.index)
lookup-Resolution s p h = go (lookup s p.index) refl
  where
    go : (o : Option ℕ) → lookup s p.index ≡ o → Resolution s p o
    go none e = unknown (λ id. first_from-none 0 s p.atoms id (sym (h.agrees s) ∙ e))
    go (some id) e = known (lookup-get s p id h e)

-- An optional name is lacking unless it is kInvalidAtom or an atom's id.
pub lacks-names :
    (p : AtomPool) (id : ℕ) → lacks p id ≡ not (id == invalid_id || ltb id (length p.atoms))
unfolding lacks
lacks-names p id = elim (Bool-cases (ltb id (length p.atoms))) [
  | inl small ↦
      let (s, e) = get_elem?-lt p.atoms id (ltb→lt id (length p.atoms) small) in
      rw (e, small) ground arith
  | inr large ↦
      rw (get_elem?-ge p.atoms id (omega (arith, ltb→le id (length p.atoms) large)), large) ground
        arith
]
