-- ===== src/Query/RoundTrip.antt =====
-- src/query_parser.cpp: the parser on printed queries.
use stratavm.Base.{
  ℕ, zero, suc, ◌+◌, ◌*◌, ◌≡◌, refl, List, [], ◌∷◌, ◌++◌, length, length-append, arith,
}
use stratavm.Query.{parsed, QueryToken, QueryNodeKind, QueryExpr, CmpOp}
use stratavm.Query.Parser.{
  Tokens, parse_name, parse_op, parse_value, parse_comparison, parse_named, named, parse_not_expr,
  parse_atom_expr, parse_tokens,
}
use stratavm.Query.Printing.{
  Query, expr_of, op_token, named_tokens, comparison_tokens, Level, parens, below_or, below_and,
  print, AtNot, AtAnd, AtOr, or_loop_stops, AtNot-AtAnd, AtAnd-AtOr, parens-AtNot, not-AtNot,
  and-AtAnd, or-AtOr,
}

-- A leaf of the grammar, which takes two calls.
named-AtNot :
    (k : QueryNodeKind) (word : QueryToken) (name : List ℕ)
    → ((f : ℕ) (ts : Tokens)
        → parse_not_expr (suc (suc f)) (word ∷ QueryToken.colon ∷ ts)
          ≡ parse_named k (QueryToken.colon ∷ ts))
    → AtNot parse_not_expr (named_tokens word name) (named k name)
unfolding parse_named parse_name
named-AtNot k word name reads t rest zero less = absurd (omega arith)
named-AtNot k word name reads t rest (suc zero) less = absurd (omega arith)
named-AtNot k word name reads t rest (suc (suc f)) less = reads f (QueryToken.ident name ∷ t ∷ rest)

parse_op_token :
    (op : CmpOp) (t : QueryToken) (rest : Tokens)
    → parse_op (op_token op ∷ t ∷ rest) ≡ parsed (op, t ∷ rest)
unfolding parse_op
parse_op_token CmpOp.eq t rest = refl
parse_op_token CmpOp.neq t rest = refl
parse_op_token CmpOp.lt t rest = refl
parse_op_token CmpOp.gt t rest = refl
parse_op_token CmpOp.le t rest = refl
parse_op_token CmpOp.ge t rest = refl

comparison-AtNot :
    (name : List ℕ) (op : CmpOp) (t : QueryToken) (e : QueryExpr)
    → ((u : QueryToken) (rest : Tokens) → parse_value name op (t ∷ u ∷ rest) ≡ parsed (e, u ∷ rest))
    → AtNot parse_not_expr (comparison_tokens name op t) e
unfolding parse_not_expr parse_atom_expr parse_comparison parse_name
comparison-AtNot name op t e reads u rest zero less = absurd (omega arith)
comparison-AtNot name op t e reads u rest (suc zero) less = absurd (omega arith)
comparison-AtNot name op t e reads u rest (suc (suc f)) less =
    rw (parse_op_token op t (u ∷ rest), reads u rest) refl

any-AtNot : AtNot parse_not_expr (QueryToken.any ∷ []) (expr_of Query.any)
unfolding parse_not_expr parse_atom_expr expr_of
any-AtNot t rest zero less = absurd (omega arith)
any-AtNot t rest (suc zero) less = absurd (omega arith)
any-AtNot t rest (suc (suc f)) less = refl

-- What `print` gives at a level is read by that level's function.
AtLevel : Level → Tokens → QueryExpr → Type 0
AtLevel Level.disjunction ts e = AtOr ts e
AtLevel Level.conjunction ts e = AtAnd ts e
AtLevel Level.negation ts e = AtNot parse_not_expr ts e

module _ (ts : Tokens) (e : QueryExpr) where
  from_not : (l : Level) → AtNot parse_not_expr ts e → AtLevel l ts e
  unfolding AtLevel
  from_not Level.disjunction h = AtAnd-AtOr ts e (AtNot-AtAnd ts e h)
  from_not Level.conjunction h = AtNot-AtAnd ts e h
  from_not Level.negation h = h

  from_and : (l : Level) → AtAnd ts e → AtLevel l (below_and l ts) e
  unfolding AtLevel
  from_and Level.disjunction h = AtAnd-AtOr ts e h
  from_and Level.conjunction h = h
  from_and Level.negation h = parens-AtNot ts e (AtAnd-AtOr ts e h)

  from_or : (l : Level) → AtOr ts e → AtLevel l (below_or l ts) e
  unfolding AtLevel
  from_or Level.disjunction h = h
  from_or Level.conjunction h = AtNot-AtAnd (parens ts) e (parens-AtNot ts e h)
  from_or Level.negation h = parens-AtNot ts e h

print-AtLevel : (q : Query) (l : Level) → AtLevel l (print l q) (expr_of q)
unfolding AtLevel print expr_of parse_not_expr parse_atom_expr parse_value
print-AtLevel Query.any l = from_not _ _ l any-AtNot
print-AtLevel (Query.kind name) l =
    from_not _ _ l (named-AtNot QueryNodeKind.kind_match QueryToken.kind name λ f ts. refl)
print-AtLevel (Query.has_child name) l =
    from_not _ _ l (named-AtNot QueryNodeKind.has_child QueryToken.has_child name λ f ts. refl)
print-AtLevel (Query.has_ref name) l =
    from_not _ _ l (named-AtNot QueryNodeKind.has_ref QueryToken.has_ref name λ f ts. refl)
print-AtLevel (Query.field_atom name op text) l =
    from_not _ _ l (comparison-AtNot name op (QueryToken.string text) _ λ u rest. refl)
print-AtLevel (Query.field_int name op v) l =
    from_not _ _ l (comparison-AtNot name op (QueryToken.integer v) _ λ u rest. refl)
print-AtLevel (Query.not a) l = from_not _ _ l (not-AtNot _ _ (print-AtLevel a Level.negation))
print-AtLevel (Query.and a b) l =
    from_and _ _ l
      (and-AtAnd _ _ _ _ (print-AtLevel a Level.conjunction) (print-AtLevel b Level.negation))
print-AtLevel (Query.or a b) l =
    from_or _ _ l
      (or-AtOr _ _ _ _ (print-AtLevel a Level.disjunction) (print-AtLevel b Level.conjunction))

-- The parser reads back the expression of any query from its tokens, printed with parentheses only
-- where precedence or left association needs them, and the sentinel.
pub parse_tokens-print :
    (q : Query)
    → parse_tokens (print Level.disjunction q ++ QueryToken.end ∷ []) ≡ parsed (expr_of q)
unfolding parse_tokens AtLevel
parse_tokens-print q =
    let (g, enough, step) =
      print-AtLevel q Level.disjunction QueryToken.end []
        (6 * length (printed ++ QueryToken.end ∷ []) + 6)
        (omega (arith, length-append printed (QueryToken.end ∷ []))) refl in
    rw
      (
        step,
        or_loop_stops g (expr_of q) QueryToken.end []
            (omega (arith, length-append printed (QueryToken.end ∷ []))) refl,
      )
      refl
  where
    printed : Tokens
    printed = print Level.disjunction q
