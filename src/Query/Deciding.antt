-- ===== src/Query/Deciding.antt =====
-- src/query_eval.cpp: `eval_node` decides what a query means.
use stratavm.Base.{
  ℕ, ◌+◌, ◌%◌, ◌<◌, ◌≡◌, ◌≢◌, refl, ap, sym, subst, ◌∙◌, Bool, true, false, ◌⊎◌, inl, inr,
  Bool-cases, ◌&&◌, ◌==◌, if◌then◌else◌, List, [], ◌∷◌, length, take, get_elem?, get_elem?-ge,
  lt_of_get_elem?, All-get, Option, none, some, some-injective, arith,
}
use stratavm.Base.Maps.{bytes_eq, lookup}
use stratavm.Format.{invalid_id, u32_mod}
use stratavm.Value.{Value}
use stratavm.Atoms.{get}
use stratavm.Atoms.{find as find_atom}
use stratavm.Atoms.Invariant.{Resolution, lookup-Resolution}
use stratavm.Schema.{KindDef, FieldDef}
use stratavm.Schema.{kind as kind_of}
use stratavm.Node.{Node}
use stratavm.Node.{field as node_field}
use stratavm.Query.{QueryNode, QueryNodeKind, make}
use stratavm.Query.Printing.{Query, expr_of}
use stratavm.Query.Eval.{
  QueryEngine, apply_cmp, resolve, kind_def, counted_fields, find_field, compare_atom, compare_int,
  kind_match, field_cmp, any_named, has_named, eval_node,
}
use Resolution.{known, unknown}
use stratavm.Query.Meaning.{
  IsSane, Reflects, Compares, First, number_of, HasText, HasKind, IsNode, AnyNode, HasField, IsAtom,
  IsNumber, Meets,
}
use Reflects.{yes, no}
use First.{here, there}
use stratavm.Query.Reflecting.{
  Reflects-test, Reflects-not, Reflects-and, Reflects-or, Reflects-first, Reflects-iff, eq-Reflects,
  apply_cmp-Reflects, First-unique, Found, find_field-Found,
}
use Found.{found, missing}

abbrev IsFew : KindDef → Type 0
IsFew k = length k.fields < u32_mod

take_all : {A : Type 0} (xs : List A) → take (length xs) xs ≡ xs
take_all [] = refl
take_all (x ∷ xs) = ap (λ ys. x ∷ ys) (take_all xs)

counted_small :
    {A : Type 0} (xs : List A) → length xs < u32_mod → take (length xs % u32_mod) xs ≡ xs
counted_small xs h = subst (λ n. take n xs ≡ xs) {x = length xs} (omega (arith, h)) (take_all xs)

module _ (q : QueryEngine) (sane : IsSane q) where
  resolve-Resolution : (name : List ℕ) → Resolution name q.atoms (resolve q name)
  unfolding find_atom
  resolve-Resolution name =
      go (lookup name q.atoms.index) refl (lookup-Resolution name q.atoms sane.indexed)
    where
      go :
          (o : Option ℕ)
          → lookup name q.atoms.index ≡ o
          → Resolution name q.atoms o
          → Resolution name q.atoms (resolve q name)
      go none e h = rw (resolve, find_atom, e) h
      go (some id) e (known h) =
          let small : id < length q.atoms.atoms = lt_of_get_elem? q.atoms.atoms id h in
          let other : id == invalid_id ≡ false = ground (arith, small, sane.few_atoms) in
          rw (resolve, find_atom, e, other) (known h)

  -- The atom of a text is that text's only one.
  named-Reflects :
      (name : List ℕ) (a b : ℕ) → get q.atoms a ≡ some name → Reflects (HasText q name b) (b == a)
  named-Reflects name a b h =
      Reflects-iff (λ e. subst (HasText q name) (sym e) h) (λ k. sane.distinct b a name k h)
        (eq-Reflects b a)

  kind_def-kind : (n : Node) → kind_def q n ≡ kind_of q.schema n.kind
  kind_def-kind n = elim (Bool-cases (n.kind == invalid_id)) [
    | inl unset ↦
        rw unset (sym (get_elem?-ge q.schema.kinds n.kind (ground (arith, unset, sane.few_kinds))))
    | inr other ↦ rw other refl
  ]

  kind_match-Reflects :
      (name : List ℕ) (n : Node) → Reflects (HasKind q n name) (kind_match q name n)
  unfolding kind_match
  kind_match-Reflects name n =
      go (resolve q name) (kind_def q n) (resolve-Resolution name) (sym (kind_def-kind n))
    where
      go :
          (o : Option ℕ) (kd : Option KindDef)
          → Resolution name q.atoms o
          → kind_of q.schema n.kind ≡ kd
          → Reflects (HasKind q n name) (elim o [
            | none ↦ false
            | some wanted ↦ elim kd [ none ↦ false | some k ↦ k.name == wanted ]
          ])
      go none kd (unknown u) e = no (λ (k, _, h). u k.name h)
      go (some a) none (known h) e = no (λ (k, e', _). cc (e, e'))
      go (some a) (some k) (known h) e =
          Reflects-iff (λ g. (k, e, g))
            (λ (k', e', g).
              subst (λ (d : KindDef). HasText q name d.name) (some-injective _ _ (sym e' ∙ e)) g)
            (named-Reflects name a k.name h)

  named_at-Reflects :
      (name : List ℕ) (a id : ℕ) (more : Bool) (P : Type 0)
      → get q.atoms a ≡ some name
      → Reflects P more
      → (o : Option Node) → get_elem? q.nodes id ≡ o
      → Reflects
          (IsNode q name id ⊎ P)
          (elim o [ none ↦ more | some n ↦ if n.alive && n.name == a then true else more ])
  named_at-Reflects name a id more P h r none e =
      Reflects-iff inr (elim [ inl (n, e', _, _) ↦ cc (e, e') | inr p ↦ p ]) r
  named_at-Reflects name a id more P h r (some n) e =
      Reflects-first
        (Reflects-iff (λ (live, text). (n, e, live, text))
          (λ (n', e', live, text).
            let same : n' ≡ n = some-injective _ _ (sym e' ∙ e) in
            (
              subst (λ (m : Node). m.alive ≡ true) same live,
              subst (λ (m : Node). HasText q name m.name) same text,
            ))
          (Reflects-and (Reflects-test n.alive) (named-Reflects name a n.name h)))
        r

  any_named-Reflects :
      (name : List ℕ) (a : ℕ) (ids : List ℕ)
      → get q.atoms a ≡ some name
      → Reflects (AnyNode q name ids) (any_named q.nodes a ids)
  unfolding any_named AnyNode
  any_named-Reflects name a [] h = no (λ e. e)
  any_named-Reflects name a (id ∷ rest) h =
      named_at-Reflects name a id (any_named q.nodes a rest) (AnyNode q name rest) h
        (any_named-Reflects name a rest h) (get_elem? q.nodes id) refl

  none_named :
      (name : List ℕ) (ids : List ℕ) → ((a : ℕ) → get q.atoms a ≢ some name) → ¬ AnyNode q name ids
  unfolding AnyNode
  none_named name [] u e = e
  none_named name (id ∷ rest) u (inl (n, _, _, h)) = u n.name h
  none_named name (id ∷ rest) u (inr e) = none_named name rest u e

  has_named-Reflects :
      (name : List ℕ) (ids : List ℕ) → Reflects (AnyNode q name ids) (has_named q name ids)
  unfolding has_named
  has_named-Reflects name ids = go (resolve q name) (resolve-Resolution name)
    where
      go :
          (o : Option ℕ)
          → Resolution name q.atoms o
          → Reflects
              (AnyNode q name ids)
              (elim o [ none ↦ false | some wanted ↦ any_named q.nodes wanted ids ])
      go none (unknown u) = no (none_named name ids u)
      go (some a) (known h) = any_named-Reflects name a ids h

  compare_int-Reflects :
      (e : QueryNode) (v : Value) → Reflects (IsNumber q e.cmp_op e.int_val v) (compare_int e v)
  unfolding compare_int
  compare_int-Reflects e v = numeric e v refl
    where
      of_number :
          (e : QueryNode) (v : Value) (l : ℕ)
          → number_of v ≡ some l
          → Reflects (IsNumber q e.cmp_op e.int_val v) (apply_cmp e.cmp_op l e.int_val)
      of_number e v l is =
          Reflects-iff (λ c. (l, is, c))
            (λ (m, is', c).
              subst (λ n. Compares e.cmp_op n e.int_val) (some-injective _ _ (sym is' ∙ is)) c)
            (apply_cmp-Reflects e.cmp_op l e.int_val)

      numeric :
          (e : QueryNode) (v : Value)
          → v ≡ v
          → Reflects (IsNumber q e.cmp_op e.int_val v) (compare_int e v)
      numeric e (Value.int l) _ = of_number e (Value.int l) l refl
      numeric e (Value.ref l) _ = of_number e (Value.ref l) l refl
      numeric e (Value.atom l) _ = of_number e (Value.atom l) l refl
      numeric e (Value.float l) _ = no (λ (m, is, _). cc is)
      numeric e (Value.list l) _ = no (λ (m, is, _). cc is)
      numeric e Value.invalid _ = no (λ (m, is, _). cc is)

  compare_atom-Reflects :
      (e : QueryNode) (v : Value) → Reflects (IsAtom q e.cmp_op e.atom_val v) (compare_atom q e v)
  unfolding compare_atom
  compare_atom-Reflects e (Value.atom a) = go (resolve q e.atom_val) (resolve-Resolution e.atom_val)
    where
      atom_of : Value → ℕ
      atom_of (Value.atom b) = b
      atom_of _ = 0

      go :
          (o : Option ℕ)
          → Resolution e.atom_val q.atoms o
          → Reflects
              (IsAtom q e.cmp_op e.atom_val (Value.atom a))
              (elim o [ none ↦ false | some wanted ↦ apply_cmp e.cmp_op a wanted ])
      go none (unknown u) = no (λ (_, _, (b, h, _)). u b h)
      go (some w) (known h) =
          Reflects-iff (λ c. (a, refl, (w, h, c)))
            (λ (b, is, (t, h', c)).
              subst (λ n. Compares e.cmp_op n w) (sym (ap atom_of is))
                (subst (Compares e.cmp_op b) (sane.distinct t w e.atom_val h' h) c))
            (apply_cmp-Reflects e.cmp_op a w)
  compare_atom-Reflects e (Value.int l) = no (λ (_, is, _). cc is)
  compare_atom-Reflects e (Value.ref l) = no (λ (_, is, _). cc is)
  compare_atom-Reflects e (Value.float l) = no (λ (_, is, _). cc is)
  compare_atom-Reflects e (Value.list l) = no (λ (_, is, _). cc is)
  compare_atom-Reflects e Value.invalid = no (λ (_, is, _). cc is)

  module _ (e : QueryNode) (n : Node) (P : Value → Type 0) (test : Value → Bool)
      (decides : (v : Value) → Reflects (P v) (test v)) where
    -- The value of the first field of a name.
    value-Reflects :
        (k : KindDef)
        → kind_of q.schema n.kind ≡ some k
        → (fid : ℕ) → First (λ (f : FieldDef). HasText q e.atom_name f.name) k.fields fid
        → (o : Option Value) → node_field n fid ≡ o
        → Reflects (HasField q n e.atom_name P) (elim o [ none ↦ false | some v ↦ test v ])
    value-Reflects k is fid first o at = go o at
      where
        unique : HasField q n e.atom_name P → (v : Value) × (node_field n fid ≡ some v) × P v
        unique (k', is', (i, first', (v, at', p))) =
            let same : k' ≡ k = some-injective _ _ (sym is' ∙ is) in
            let here' : First (λ (f : FieldDef). HasText q e.atom_name f.name) k.fields i =
              subst
                (λ (d : KindDef). First (λ (f : FieldDef). HasText q e.atom_name f.name) d.fields i)
                same first' in
            (v, subst (λ j. node_field n j ≡ some v) (First-unique here' first) at', p)

        go :
            (o : Option Value)
            → node_field n fid ≡ o
            → Reflects (HasField q n e.atom_name P) (elim o [ none ↦ false | some v ↦ test v ])
        go none at = no (λ h. let (v, at', _) = unique h in cc (at, at'))
        go (some v) at =
            Reflects-iff (λ p. (k, is, (fid, first, (v, at, p))))
              (λ h. let (w, at', p) = unique h in subst P (some-injective _ _ (sym at' ∙ at)) p)
              (decides v)

    field_of-Reflects : Reflects (HasField q n e.atom_name P) (elim (kind_def q n) [
      | none ↦ false
      | some k ↦ elim (resolve q e.atom_name) [
        | none ↦ false
        | some name ↦ elim (find_field name 0 (counted_fields k)) [
          | none ↦ false
          | some fid ↦ elim (node_field n fid) [ none ↦ false | some v ↦ test v ]
        ]
      ]
    ])
    field_of-Reflects =
        go (kind_def q n) (sym (kind_def-kind n)) (resolve q e.atom_name)
          (resolve-Resolution e.atom_name)
      where
        of_field :
            (k : KindDef)
            → kind_of q.schema n.kind ≡ some k
            → (o : Option ℕ) → Found (λ (f : FieldDef). HasText q e.atom_name f.name) k.fields 0 o
            → Reflects (HasField q n e.atom_name P) (elim o [
              | none ↦ false
              | some fid ↦ elim (node_field n fid) [ none ↦ false | some v ↦ test v ]
            ])
        of_field k is _ (found {j = j} first) =
            value-Reflects k is (0 + j)
              (subst (First (λ (f : FieldDef). HasText q e.atom_name f.name) k.fields) {y = 0 + j}
                (omega arith) first)
              (node_field n (0 + j)) refl
        of_field k is _ (missing none_first) = no (λ (k', is', (i, first, _)). none_first i (
            subst
              (λ (d : KindDef). First (λ (f : FieldDef). HasText q e.atom_name f.name) d.fields i)
              (some-injective _ _ (sym is' ∙ is)) first))

        no_text :
            ((a : ℕ) → get q.atoms a ≢ some e.atom_name)
            → {fields : List FieldDef} {i : ℕ}
            → ¬ First (λ (f : FieldDef). HasText q e.atom_name f.name) fields i
        no_text u (here {x = f} h) = u f.name h
        no_text u (there _ h) = no_text u h

        go :
            (kd : Option KindDef)
            → kind_of q.schema n.kind ≡ kd
            → (o : Option ℕ) → Resolution e.atom_name q.atoms o
            → Reflects (HasField q n e.atom_name P) (elim kd [
              | none ↦ false
              | some k ↦ elim o [
                | none ↦ false
                | some name ↦ elim (find_field name 0 (counted_fields k)) [
                  | none ↦ false
                  | some fid ↦ elim (node_field n fid) [ none ↦ false | some v ↦ test v ]
                ]
              ]
            ])
        go none is o r = no (λ (k, is', _). cc (is, is'))
        go (some k) is none (unknown u) = no (λ (_, _, (i, first, _)). no_text u first)
        go (some k) is (some a) (known h) = of_field k is (find_field a 0 (counted_fields k)) (
            subst
              (λ fs.
                Found (λ (f : FieldDef). HasText q e.atom_name f.name) fs 0
                  (find_field a 0 (counted_fields k)))
              (counted_small k.fields (All-get IsFew q.schema.kinds n.kind sane.few_fields is))
              (find_field-Found (λ f. HasText q e.atom_name f.name) a
                (λ f. named-Reflects e.atom_name a f.name h) 0 (counted_fields k)))

  pub eval_node-Reflects :
      (query : Query) (n : Node) → Reflects (Meets q query n) (eval_node q (expr_of query) n)
  unfolding eval_node expr_of Meets field_cmp
  eval_node-Reflects Query.any n = yes tt
  eval_node-Reflects (Query.kind name) n = kind_match-Reflects name n
  eval_node-Reflects (Query.has_child name) n = has_named-Reflects name n.children
  eval_node-Reflects (Query.has_ref name) n = has_named-Reflects name n.refs
  eval_node-Reflects (Query.field_atom name op text) n =
      let e : QueryNode = record (make QueryNodeKind.field_cmp) {
        atom_name = name;
        cmp_op = op;
        atom_val = text;
        use_atom_val = true;
      } in
      field_of-Reflects e n (IsAtom q op text) (compare_atom q e) (compare_atom-Reflects e)
  eval_node-Reflects (Query.field_int name op v) n =
      let e : QueryNode = record (make QueryNodeKind.field_cmp) {
        atom_name = name;
        cmp_op = op;
        int_val = v;
      } in
      field_of-Reflects e n (IsNumber q op v) (compare_int e) (compare_int-Reflects e)
  eval_node-Reflects (Query.not a) n = Reflects-not (eval_node-Reflects a n)
  eval_node-Reflects (Query.and a b) n =
      Reflects-and (eval_node-Reflects a n) (eval_node-Reflects b n)
  eval_node-Reflects (Query.or a b) n =
      Reflects-or (eval_node-Reflects a n) (eval_node-Reflects b n)
