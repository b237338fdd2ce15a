-- ===== src/Query/Printing.antt =====
-- src/query_parser.cpp: the grammar, as a printer that the parser inverts.
use stratavm.Base.{
  ℕ, zero, suc, ◌+◌, ◌*◌, ◌≤◌, ◌<◌, ◌≡◌, refl, Bool, true, false, List, [], ◌∷◌, ◌++◌, length,
  length-append, append_assoc, arith,
}
use stratavm.Query.{
  Parsed, parsed, QueryToken, QueryNodeKind, QueryExpr, CmpOp, make, leaf, unary, binary,
}
use stratavm.Query.Parser.{
  Tokens, after, named, compared_atom, compared_int, parse_or_expr, or_loop, parse_and_expr,
  and_loop, parse_not_expr, parse_atom_expr,
}

-- A query as the grammar means it.
pub data Query : Type 0 where
  any : Query
  kind has_child has_ref : List ℕ → Query
  field_atom : List ℕ → CmpOp → List ℕ → Query
  field_int : List ℕ → CmpOp → ℕ → Query
  not : Query → Query
  and or : Query → Query → Query

unfoldable pub expr_of : Query → QueryExpr
expr_of Query.any = leaf (make QueryNodeKind.any_alive)
expr_of (Query.kind name) = named QueryNodeKind.kind_match name
expr_of (Query.has_child name) = named QueryNodeKind.has_child name
expr_of (Query.has_ref name) = named QueryNodeKind.has_ref name
expr_of (Query.field_atom name op text) = compared_atom name op text
expr_of (Query.field_int name op v) = compared_int name op v
expr_of (Query.not a) = unary QueryNodeKind.not (expr_of a)
expr_of (Query.and a b) = binary QueryNodeKind.and (expr_of a) (expr_of b)
expr_of (Query.or a b) = binary QueryNodeKind.or (expr_of a) (expr_of b)

abbrev pub op_token : CmpOp → QueryToken
op_token CmpOp.eq = QueryToken.eq
op_token CmpOp.neq = QueryToken.neq
op_token CmpOp.lt = QueryToken.lt
op_token CmpOp.gt = QueryToken.gt
op_token CmpOp.le = QueryToken.le
op_token CmpOp.ge = QueryToken.ge

abbrev pub named_tokens : QueryToken → List ℕ → Tokens
named_tokens t name = t ∷ QueryToken.colon ∷ QueryToken.ident name ∷ []

abbrev pub comparison_tokens : List ℕ → CmpOp → QueryToken → Tokens
comparison_tokens name op t =
    QueryToken.field ∷ QueryToken.colon ∷ QueryToken.ident name ∷ op_token op ∷ t ∷ []

-- Where an operand stands: as a whole, under OR on the right, under AND on the right or under NOT.
pub data Level : Type 0 where
  disjunction conjunction negation : Level

abbrev pub parens : Tokens → Tokens
parens ts = QueryToken.lparen ∷ (ts ++ QueryToken.rparen ∷ [])

abbrev pub below_or : Level → Tokens → Tokens
below_or Level.disjunction ts = ts
below_or Level.conjunction ts = parens ts
below_or Level.negation ts = parens ts

abbrev pub below_and : Level → Tokens → Tokens
below_and Level.negation ts = parens ts
below_and _ ts = ts

-- The tokens of a query, with parentheses only where precedence or association needs them.
unfoldable pub print : Level → Query → Tokens
print l Query.any = QueryToken.any ∷ []
print l (Query.kind name) = named_tokens QueryToken.kind name
print l (Query.has_child name) = named_tokens QueryToken.has_child name
print l (Query.has_ref name) = named_tokens QueryToken.has_ref name
print l (Query.field_atom name op text) = comparison_tokens name op (QueryToken.string text)
print l (Query.field_int name op v) = comparison_tokens name op (QueryToken.integer v)
print l (Query.not a) = QueryToken.not ∷ print Level.negation a
print l (Query.and a b) =
    below_and l (print Level.conjunction a ++ (QueryToken.and ∷ print Level.negation b))
print l (Query.or a b) =
    below_or l (print Level.disjunction a ++ (QueryToken.or ∷ print Level.conjunction b))

-- What follows a printed query: a token that its loops stop at, or the last tokens.
abbrev stops_and : QueryToken → Bool
stops_and QueryToken.and = false
stops_and _ = true

abbrev stops_or : QueryToken → Bool
stops_or QueryToken.and = false
stops_or QueryToken.or = false
stops_or _ = true

abbrev pub AtNot : (ℕ → Tokens → Parsed (QueryExpr × Tokens)) → Tokens → QueryExpr → Type 0
AtNot p ts e =
    (t : QueryToken) (rest : Tokens) (f : ℕ)
    → 6 * length ts + 1 < f
    → p f (ts ++ t ∷ rest) ≡ parsed (e, t ∷ rest)

-- `parse_and_expr` reads the tokens and goes on in its loop, with not much fuel spent.
abbrev pub AtAnd : Tokens → QueryExpr → Type 0
AtAnd ts e =
    (t : QueryToken) (rest : Tokens) (f : ℕ)
    → 6 * length ts + 2 < f
    → (g : ℕ) × (f ≤ g + 6 * length ts + 2)
      × (parse_and_expr f (ts ++ t ∷ rest) ≡ and_loop g e (t ∷ rest))

abbrev pub AtOr : Tokens → QueryExpr → Type 0
AtOr ts e =
    (t : QueryToken) (rest : Tokens) (f : ℕ)
    → 6 * length ts + 3 < f
    → stops_and t ≡ true
    → (g : ℕ) × (f ≤ g + 6 * length ts + 3)
      × (parse_or_expr f (ts ++ t ∷ rest) ≡ or_loop g e (t ∷ rest))

and_loop_stops :
    (g : ℕ) (e : QueryExpr) (t : QueryToken) (rest : Tokens)
    → 0 < g
    → stops_and t ≡ true
    → and_loop g e (t ∷ rest) ≡ parsed (e, t ∷ rest)
unfolding and_loop
and_loop_stops zero e t rest h s = absurd (omega arith)
and_loop_stops (suc g) e QueryToken.and rest h s = cc
and_loop_stops (suc g) e _ rest h s = refl

pub or_loop_stops :
    (g : ℕ) (e : QueryExpr) (t : QueryToken) (rest : Tokens)
    → 0 < g
    → stops_or t ≡ true
    → or_loop g e (t ∷ rest) ≡ parsed (e, t ∷ rest)
unfolding or_loop
or_loop_stops zero e t rest h s = absurd (omega arith)
or_loop_stops (suc g) e QueryToken.or rest h s = cc
or_loop_stops (suc g) e _ rest h s = refl

module _ (ts : Tokens) (e : QueryExpr) where
  pub AtNot-AtAnd : AtNot parse_not_expr ts e → AtAnd ts e
  unfolding parse_and_expr
  AtNot-AtAnd h t rest zero less = absurd (omega arith)
  AtNot-AtAnd h t rest (suc f) less = (f, omega arith, rw (h t rest f (omega arith)) refl)

  pub AtAnd-AtOr : AtAnd ts e → AtOr ts e
  unfolding parse_or_expr
  AtAnd-AtOr h t rest zero less s = absurd (omega arith)
  AtAnd-AtOr h t rest (suc f) less s =
      let (g, enough, step) = h t rest f (omega arith) in
      (f, omega arith, rw (step, and_loop_stops g e t rest (omega arith) s) refl)

after_append :
    (u : QueryToken) (ts : Tokens) (t : QueryToken) (rest : Tokens)
    → after u (ts ++ t ∷ rest) ≡ ts ++ t ∷ rest
after_append u [] t rest = refl
after_append u (v ∷ ts) t rest = refl

pub parens-AtNot : (ts : Tokens) (e : QueryExpr) → AtOr ts e → AtNot parse_not_expr (parens ts) e
unfolding parse_not_expr parse_atom_expr
parens-AtNot ts e h t rest zero less = absurd (omega arith)
parens-AtNot ts e h t rest (suc zero) less = absurd (omega arith)
parens-AtNot ts e h t rest (suc (suc f)) less =
    let (g, enough, step) =
      h QueryToken.rparen (t ∷ rest) f (omega (arith, length-append ts (QueryToken.rparen ∷ [])))
        refl in
    rw
      (
        append_assoc ts (QueryToken.rparen ∷ []) (t ∷ rest),
        after_append QueryToken.lparen ts QueryToken.rparen (t ∷ rest),
        step,
        or_loop_stops g e QueryToken.rparen (t ∷ rest)
            (omega (arith, length-append ts (QueryToken.rparen ∷ []))) refl,
      )
      refl

pub not-AtNot :
    (ts : Tokens) (e : QueryExpr)
    → AtNot parse_not_expr ts e
    → AtNot parse_not_expr (QueryToken.not ∷ ts) (unary QueryNodeKind.not e)
unfolding parse_not_expr
not-AtNot ts e h t rest zero less = absurd (omega arith)
not-AtNot ts e h t rest (suc f) less =
    rw (after_append QueryToken.not ts t rest, h t rest f (omega arith)) refl

pred : (g : ℕ) → 0 < g → (k : ℕ) × (g ≡ suc k)
pred zero h = absurd (omega arith)
pred (suc k) h = (k, refl)

module _ (left right : Tokens) (a b : QueryExpr) where
  length-joined : (t : QueryToken) → length (left ++ (t ∷ right)) ≡ length left + suc (length right)
  length-joined t = length-append left (t ∷ right)

  pub and-AtAnd :
      AtAnd left a
      → AtNot parse_not_expr right b
      → AtAnd (left ++ (QueryToken.and ∷ right)) (binary QueryNodeKind.and a b)
  unfolding and_loop
  and-AtAnd h k t rest f less =
      let (g, enough, step) =
        h QueryToken.and (right ++ t ∷ rest) f (omega (arith, length-joined QueryToken.and)) in
      let (g', e) = pred g (omega (arith, length-joined QueryToken.and)) in
      (
        g',
        omega (arith, length-joined QueryToken.and),
        rw
            (
              append_assoc left (QueryToken.and ∷ right) (t ∷ rest),
              step,
              e,
              after_append QueryToken.and right t rest,
              k t rest g' (omega (arith, length-joined QueryToken.and)),
            )
            refl,
      )

  pub or-AtOr :
      AtOr left a
      → AtAnd right b
      → AtOr (left ++ (QueryToken.or ∷ right)) (binary QueryNodeKind.or a b)
  unfolding or_loop
  or-AtOr h k t rest f less s =
      let (g, enough, step) =
        h QueryToken.or (right ++ t ∷ rest) f (omega (arith, length-joined QueryToken.or)) refl in
      let (g', e) = pred g (omega (arith, length-joined QueryToken.or)) in
      let (i, enough', step') = k t rest g' (omega (arith, length-joined QueryToken.or)) in
      (
        g',
        omega (arith, length-joined QueryToken.or),
        rw
            (
              append_assoc left (QueryToken.or ∷ right) (t ∷ rest),
              step,
              e,
              after_append QueryToken.or right t rest,
              step',
              and_loop_stops i b t rest (omega (arith, length-joined QueryToken.or)) s,
            )
            refl,
      )
