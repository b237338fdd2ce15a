-- ===== src/Query/Reflecting.antt =====
-- Tests that decide what is meant: the connectives, comparisons and the search for a field.
use stratavm.Base.{
  ℕ, zero, suc, ◌+◌, ◌≡◌, refl, ap, subst, Bool, true, false, ◌⊎◌, inl, inr, ◌&&◌, ◌||◌, ◌==◌,
  if◌then◌else◌, List, [], ◌∷◌, Option, none, some, arith,
}
use stratavm.Base.{not as not_b}
use stratavm.Base.Maps.{bytes_eq}
use stratavm.Schema.{FieldDef}
use stratavm.Query.{CmpOp}
use stratavm.Query.Eval.{signed_lt, apply_cmp, find_field}
use stratavm.Query.Meaning.{Reflects, Compares, First}
use Reflects.{yes, no}
use First.{here, there}

pub Reflects-test : (b : Bool) → Reflects (b ≡ true) b
Reflects-test true = yes refl
Reflects-test false = no (λ e. cc)

pub Reflects-not : {P : Type 0} {b : Bool} → Reflects P b → Reflects (¬ P) (not_b b)
Reflects-not (yes p) = no (λ k. k p)
Reflects-not (no k) = yes k

pub Reflects-and :
    {P Q : Type 0} {a b : Bool} → Reflects P a → Reflects Q b → Reflects (P × Q) (a && b)
Reflects-and (yes p) (yes r) = yes (p, r)
Reflects-and (yes p) (no k) = no (λ both. k both.1)
Reflects-and (no k) _ = no (λ both. k both.0)

pub Reflects-or :
    {P Q : Type 0} {a b : Bool} → Reflects P a → Reflects Q b → Reflects (P ⊎ Q) (a || b)
Reflects-or (yes p) _ = yes (inl p)
Reflects-or (no k) (yes r) = yes (inr r)
Reflects-or {P} {Q} (no k) (no l) = no neither
  where
    neither : ¬ (P ⊎ Q)
    neither (inl p) = k p
    neither (inr r) = l r

pub Reflects-first :
    {P Q : Type 0} {a b : Bool}
    → Reflects P a
    → Reflects Q b
    → Reflects (P ⊎ Q) (if a then true else b)
Reflects-first (yes p) _ = yes (inl p)
Reflects-first (no k) r = Reflects-or (no k) r

pub Reflects-iff : {P Q : Type 0} {b : Bool} → (P → Q) → (Q → P) → Reflects P b → Reflects Q b
Reflects-iff f g (yes p) = yes (f p)
Reflects-iff f g (no k) = no (λ r. k (g r))

pub eq-Reflects : (l r : ℕ) → Reflects (l ≡ r) (l == r)
eq-Reflects l r =
    Reflects-iff (λ e. ground (arith, e)) (λ e. ground (arith, e)) (Reflects-test (l == r))

pub apply_cmp-Reflects : (op : CmpOp) (l r : ℕ) → Reflects (Compares op l r) (apply_cmp op l r)
unfolding apply_cmp
apply_cmp-Reflects CmpOp.eq l r = eq-Reflects l r
apply_cmp-Reflects CmpOp.neq l r = Reflects-not (eq-Reflects l r)
apply_cmp-Reflects CmpOp.lt l r = Reflects-test (signed_lt l r)
apply_cmp-Reflects CmpOp.gt l r = Reflects-test (signed_lt r l)
apply_cmp-Reflects CmpOp.le l r = Reflects-not (Reflects-test (signed_lt r l))
apply_cmp-Reflects CmpOp.ge l r = Reflects-not (Reflects-test (signed_lt l r))

pub First-unique :
    {A : Type 0} {P : A → Type 0} {xs : List A} {i j : ℕ} → First P xs i → First P xs j → i ≡ j
First-unique (here p) (here r) = refl
First-unique (here p) (there k h) = absurd (k p)
First-unique (there k h) (here p) = absurd (k p)
First-unique (there k h) (there l g) = ap suc (First-unique h g)

pub First-nil : {A : Type 0} {P : A → Type 0} {j : ℕ} → ¬ First P [] j
First-nil h = elim h [ ]

-- What `find_field` finds from field `i` on.
pub data Found (P : FieldDef → Type 0) (fields : List FieldDef) (i : ℕ) : Option ℕ → Type 0 where
  found : {j : ℕ} → First P fields j → Found P fields i (some (i + j))
  missing : ((j : ℕ) → ¬ First P fields j) → Found P fields i none

module _ (P : FieldDef → Type 0) (name : ℕ)
    (test : (f : FieldDef) → Reflects (P f) (f.name == name)) where
  Found-cons :
      (f : FieldDef) (rest : List FieldDef) (i : ℕ) (b : Bool) (o : Option ℕ)
      → Reflects (P f) b
      → Found P rest (i + 1) o
      → Found P (f ∷ rest) i (if b then some i else o)
  Found-cons f rest i true o (yes p) h =
      subst (λ n. Found P (f ∷ rest) i (some n)) (omega arith) (found (here p))
  Found-cons f rest i false o (no k) (found {j = j} h) =
      subst (λ n. Found P (f ∷ rest) i (some n)) (omega arith) (found (there k h))
  Found-cons f rest i false o (no k) (missing h) = missing none_first
    where
      none_first : (j : ℕ) → ¬ First P (f ∷ rest) j
      none_first zero (here p) = k p
      none_first (suc j) (there _ g) = h j g

  pub find_field-Found :
      (i : ℕ) (fields : List FieldDef) → Found P fields i (find_field name i fields)
  unfolding find_field
  find_field-Found i [] = missing (λ j h. First-nil h)
  find_field-Found i (f ∷ rest) =
      Found-cons f rest i (f.name == name) (find_field name (i + 1) rest) (test f)
        (find_field-Found (i + 1) rest)
