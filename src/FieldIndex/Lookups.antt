-- ===== src/FieldIndex/Lookups.antt =====
-- src/field_index.cpp: the lookups against a scan of the nodes.
use stratavm.Base.{
  ℕ, ◌+◌, ◌≡◌, refl, ap, sym, ◌∙◌, Bool, true, false, not, ◌&&◌, ◌||◌, ◌==◌, if◌then◌else◌,
  Bool-cases, inl, inr, List, [], ◌∷◌, ◌++◌, length, length-append, append_assoc, append-nil, subst,
  arith,
}
use stratavm.Base.Maps.{Eq, Map, nat_eq, pair_eq, lookup, lookup-insert}
use stratavm.Value.{Value}
use stratavm.Node.{Node}
use stratavm.FieldIndex.{
  FieldIndex, cleared, listed, push_at, is_valid, index_field, index_fields, index_name,
  index_nodes, build, lookup_int, lookup_atom, lookup_has_field,
}

-- A field of a node, as the index sees it.
pub record Entry : Type 0 where
  pub node_id : ℕ
  pub kind : ℕ
  pub field_idx : ℕ
  pub value : Value

abbrev pub field_entries : Node → Map ℕ Value → List Entry
field_entries n [] = []
field_entries n ((f, val) ∷ rest) =
    if is_valid val
    then record { node_id = n.id; kind = n.kind; field_idx = f; value = val } ∷ field_entries n rest
    else field_entries n rest

-- The valid fields of the live nodes that are no placeholders.
abbrev pub entries : List Node → List Entry
entries [] = []
entries (n ∷ rest) =
    if not n.alive || n.placeholder then entries rest else field_entries n n.fields ++ entries rest

-- The nodes of the entries that pass a test.
abbrev pub select : (Entry → Bool) → List Entry → List ℕ
select p [] = []
select p (e ∷ rest) = if p e then e.node_id ∷ select p rest else select p rest

abbrev pub is_int : ℕ → Value → Bool
is_int v (Value.int w) = w == v
is_int v _ = false

abbrev pub is_atom : ℕ → Value → Bool
is_atom v (Value.atom w) = w == v
is_atom v _ = false

abbrev pub at_field : ℕ → ℕ → Entry → Bool
at_field kind f e = e.kind == kind && e.field_idx == f

abbrev pub has_int : ℕ → ℕ → ℕ → Entry → Bool
has_int kind f v e = e.kind == kind && (e.field_idx == f && is_int v e.value)

abbrev pub has_atom : ℕ → ℕ → ℕ → Entry → Bool
has_atom kind f v e = e.kind == kind && (e.field_idx == f && is_atom v e.value)

-- `later` is `ix` with the entries `es` indexed.
record IsExtended (ix later : FieldIndex) (es : List Entry) : Type 0 where
  ints :
      (kind f v : ℕ)
      → lookup_int later kind f v ≡ lookup_int ix kind f v ++ select (has_int kind f v) es
  atoms :
      (kind f v : ℕ)
      → lookup_atom later kind f v ≡ lookup_atom ix kind f v ++ select (has_atom kind f v) es
  fields :
      (kind f : ℕ)
      → lookup_has_field later kind f ≡ lookup_has_field ix kind f ++ select (at_field kind f) es
  count : later.entry_count ≡ ix.entry_count + length es

listed-push_at :
    {K : Type 0} ⦃e : Eq K⦄ (k j : K) (id : ℕ) (m : Map K (List ℕ))
    → listed j (push_at k id m) ≡ listed j m ++ (if e.beq k j then id ∷ [] else [])
listed-push_at ⦃e⦄ k j id m = elim (Bool-cases (e.beq k j)) [
  | inl same ↦
      rw (lookup-insert k j (listed k m ++ id ∷ []) m, same)
        (ap (λ i. listed i m ++ id ∷ []) ((e.beq_iff k j).0 same))
  | inr other ↦
      rw (lookup-insert k j (listed k m ++ id ∷ []) m, other) (sym (append-nil (listed j m)))
]

select-append :
    (p : Entry → Bool) (xs ys : List Entry) → select p (xs ++ ys) ≡ select p xs ++ select p ys
select-append p [] ys = refl
select-append p (x ∷ xs) ys = elim (Bool-cases (p x)) [
  | inl hit ↦ rw hit (ap (λ r. x.node_id ∷ r) (select-append p xs ys))
  | inr miss ↦ rw miss (select-append p xs ys)
]

none_more : (ix : FieldIndex) → IsExtended ix ix []
none_more ix = record {
  ints = λ kind f v. sym (append-nil _);
  atoms = λ kind f v. sym (append-nil _);
  fields = λ kind f. sym (append-nil _);
  count = omega arith;
}

then_more :
    (ix later last : FieldIndex) (xs ys : List Entry)
    → IsExtended ix later xs
    → IsExtended later last ys
    → IsExtended ix last (xs ++ ys)
then_more ix later last xs ys h k = record {
  ints = λ kind f v. chain _ _ (h.ints kind f v) (k.ints kind f v);
  atoms = λ kind f v. chain _ _ (h.atoms kind f v) (k.atoms kind f v);
  fields = λ kind f. chain _ _ (h.fields kind f) (k.fields kind f);
  count = omega (arith, h.count, k.count, length-append xs ys);
}
  where
    chain :
        (a : List ℕ) {b c : List ℕ} (p : Entry → Bool)
        → b ≡ a ++ select p xs
        → c ≡ b ++ select p ys
        → c ≡ a ++ select p (xs ++ ys)
    chain a p e d =
        d
        ∙ ap (λ l. l ++ select p ys) e
        ∙ append_assoc a (select p xs) (select p ys)
        ∙ ap (λ l. a ++ l) (sym (select-append p xs ys))

-- A value of another type is in no list of that type.
never : (a b : Bool) (xs : List ℕ) (id : ℕ) → xs ≡ xs ++ (if a && (b && false) then id ∷ [] else [])
never true true xs id = sym (append-nil xs)
never true false xs id = sym (append-nil xs)
never false b xs id = sym (append-nil xs)

index_field-IsExtended :
    (n : Node) (f : ℕ) (val : Value) (ix : FieldIndex)
    → IsExtended ix (index_field n f val ix) (field_entries n ((f, val) ∷ []))
unfolding index_field lookup_int lookup_atom lookup_has_field
index_field-IsExtended n f Value.invalid ix = none_more ix
index_field-IsExtended n f (Value.int w) ix = record {
  ints = λ kind g v. listed-push_at (n.kind, (f, w)) (kind, (g, v)) n.id ix.int_index;
  atoms = λ kind g v. never (n.kind == kind) (f == g) _ n.id;
  fields = λ kind g. listed-push_at (n.kind, f) (kind, g) n.id ix.has_field_index;
  count = refl;
}
index_field-IsExtended n f (Value.atom w) ix = record {
  ints = λ kind g v. never (n.kind == kind) (f == g) _ n.id;
  atoms = λ kind g v. listed-push_at (n.kind, (f, w)) (kind, (g, v)) n.id ix.atom_index;
  fields = λ kind g. listed-push_at (n.kind, f) (kind, g) n.id ix.has_field_index;
  count = refl;
}
index_field-IsExtended n f _ ix = record {
  ints = λ kind g v. never (n.kind == kind) (f == g) _ n.id;
  atoms = λ kind g v. never (n.kind == kind) (f == g) _ n.id;
  fields = λ kind g. listed-push_at (n.kind, f) (kind, g) n.id ix.has_field_index;
  count = refl;
}

index_fields-IsExtended :
    (n : Node) (fields : Map ℕ Value) (ix : FieldIndex)
    → IsExtended ix (index_fields n fields ix) (field_entries n fields)
unfolding index_fields
index_fields-IsExtended n [] ix = none_more ix
index_fields-IsExtended n ((f, val) ∷ rest) ix =
    subst (IsExtended ix (index_fields n rest (index_field n f val ix))) split (
      then_more ix (index_field n f val ix) _ (field_entries n ((f, val) ∷ []))
        (field_entries n rest) (index_field-IsExtended n f val ix)
        (index_fields-IsExtended n rest (index_field n f val ix)))
  where
    split :
        field_entries n ((f, val) ∷ []) ++ field_entries n rest ≡ field_entries n ((f, val) ∷ rest)
    split = elim (Bool-cases (is_valid val)) [
      | inl some_value ↦ rw some_value refl
      | inr none_set ↦ rw none_set refl
    ]

index_name-IsExtended :
    (n : Node) (ix later : FieldIndex) (es : List Entry)
    → IsExtended (index_name n ix) later es
    → IsExtended ix later es
unfolding lookup_int lookup_atom lookup_has_field
index_name-IsExtended n ix later es h = record {
  ints = h.ints;
  atoms = h.atoms;
  fields = h.fields;
  count = h.count;
}

index_nodes-IsExtended :
    (nodes : List Node) (ix : FieldIndex) → IsExtended ix (index_nodes nodes ix) (entries nodes)
unfolding index_nodes
index_nodes-IsExtended [] ix = none_more ix
index_nodes-IsExtended (n ∷ rest) ix = elim (Bool-cases (not n.alive || n.placeholder)) [
  | inl skipped ↦ rw skipped (index_nodes-IsExtended rest ix)
  | inr kept ↦ rw kept (
      then_more ix (index_fields n n.fields (index_name n ix)) _ (field_entries n n.fields)
        (entries rest)
        (index_name-IsExtended n ix _ _ (index_fields-IsExtended n n.fields (index_name n ix)))
        (index_nodes-IsExtended rest (index_fields n n.fields (index_name n ix))))
]

-- The lookups of a built index give, in the order of the nodes and of each one's fields, the ids of
-- exactly the live nodes that are no placeholders and hold that integer, that atom or any valid value
-- in that field of that kind, and the index counts all those fields.
pub build-select :
    (nodes : List Node) (kind f v : ℕ)
    → (lookup_int (build nodes) kind f v ≡ select (has_int kind f v) (entries nodes))
      × (lookup_atom (build nodes) kind f v ≡ select (has_atom kind f v) (entries nodes))
      × (lookup_has_field (build nodes) kind f ≡ select (at_field kind f) (entries nodes))
      × ((build nodes).entry_count ≡ length (entries nodes))
unfolding lookup_int lookup_atom lookup_has_field lookup
build-select nodes kind f v =
    let all = index_nodes-IsExtended nodes cleared in
    (all.ints kind f v, all.atoms kind f v, all.fields kind f, omega (arith, all.count))
