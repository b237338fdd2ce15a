-- ===== src/Query/Meaning.antt =====
-- src/query_eval.cpp: what a query means, told by texts.
use stratavm.Base.{
  ℕ, suc, ◌<◌, ◌≤◌, ◌≡◌, ◌≢◌, Bool, true, false, ◌⊎◌, List, [], ◌∷◌, length, get_elem?, All, Option,
  none, some,
}
use stratavm.Base.Maps.{bytes_eq}
use stratavm.Format.{invalid_id, u32_mod}
use stratavm.Value.{Value}
use stratavm.Atoms.{get}
use stratavm.Atoms.Invariant.{IsIndexed}
use stratavm.Schema.{KindDef, FieldDef}
use stratavm.Schema.{kind as kind_of}
use stratavm.Node.{Node}
use stratavm.Node.{field as node_field}
use stratavm.Query.{CmpOp}
use stratavm.Query.Printing.{Query}
use stratavm.Query.Eval.{QueryEngine, signed_lt}

-- An engine whose pool is indexed and has each text once, and whose tables 32-bit ids address.
pub record IsSane (q : QueryEngine) : Type 0 where
  pub indexed : IsIndexed q.atoms
  pub distinct : (i j : ℕ) (s : List ℕ) → get q.atoms i ≡ some s → get q.atoms j ≡ some s → i ≡ j
  pub few_atoms : length q.atoms.atoms ≤ invalid_id
  pub few_kinds : length q.schema.kinds ≤ invalid_id
  pub few_fields : All (λ k. length k.fields < u32_mod) q.schema.kinds

-- A test that tells whether `P` holds.
pub data Reflects (P : Type 0) : Bool → Type 0 where
  yes : P → Reflects P true
  no : ¬ P → Reflects P false

-- The order is that of int64_t.
abbrev pub Compares : CmpOp → ℕ → ℕ → Type 0
Compares CmpOp.eq l r = l ≡ r
Compares CmpOp.neq l r = l ≢ r
Compares CmpOp.lt l r = signed_lt l r ≡ true
Compares CmpOp.gt l r = signed_lt r l ≡ true
Compares CmpOp.le l r = ¬ (signed_lt r l ≡ true)
Compares CmpOp.ge l r = ¬ (signed_lt l r ≡ true)

-- The first element for which `P` holds is at a position.
pub data First {A : Type 0} (P : A → Type 0) : List A → ℕ → Type 0 where
  here : {x : A} {xs : List A} → P x → First P (x ∷ xs) 0
  there : {x : A} {xs : List A} {i : ℕ} → ¬ P x → First P xs i → First P (x ∷ xs) (suc i)

abbrev pub number_of : Value → Option ℕ
number_of (Value.int v) = some v
number_of (Value.ref v) = some v
number_of (Value.atom v) = some v
number_of _ = none

module _ (q : QueryEngine) where
  abbrev pub HasText : List ℕ → ℕ → Type 0
  HasText name a = get q.atoms a ≡ some name

  -- The node's kind is of that name.
  abbrev pub HasKind : Node → List ℕ → Type 0
  HasKind n name = (k : KindDef) × (kind_of q.schema n.kind ≡ some k) × HasText name k.name

  -- A live node of that name is at the id.
  abbrev pub IsNode : List ℕ → ℕ → Type 0
  IsNode name id =
      (n : Node) × (get_elem? q.nodes id ≡ some n) × (n.alive ≡ true) × HasText name n.name

  unfoldable pub AnyNode : List ℕ → List ℕ → Type 0
  AnyNode name [] = ⊥
  AnyNode name (id ∷ rest) = IsNode name id ⊎ AnyNode name rest

  -- The first field of that name in the node's kind has a value in the node, of which `P` holds.
  abbrev pub HasField : Node → List ℕ → (Value → Type 0) → Type 0
  HasField n name P =
      (k : KindDef) × (kind_of q.schema n.kind ≡ some k)
      × ((i : ℕ) × First (λ (f : FieldDef). HasText name f.name) k.fields i
          × ((v : Value) × (node_field n i ≡ some v) × P v))

  abbrev pub IsAtom : CmpOp → List ℕ → Value → Type 0
  IsAtom op text v = (a : ℕ) × (v ≡ Value.atom a) × ((b : ℕ) × HasText text b × Compares op a b)

  abbrev pub IsNumber : CmpOp → ℕ → Value → Type 0
  IsNumber op r v = (l : ℕ) × (number_of v ≡ some l) × Compares op l r

  -- A node is as a query says.
  unfoldable pub Meets : Query → Node → Type 0
  Meets Query.any n = Unit
  Meets (Query.kind name) n = HasKind n name
  Meets (Query.has_child name) n = AnyNode name n.children
  Meets (Query.has_ref name) n = AnyNode name n.refs
  Meets (Query.field_atom name op text) n = HasField n name (IsAtom op text)
  Meets (Query.field_int name op v) n = HasField n name (IsNumber op v)
  Meets (Query.not a) n = ¬ Meets a n
  Meets (Query.and a b) n = Meets a n × Meets b n
  Meets (Query.or a b) n = Meets a n ⊎ Meets b n
