-- ===== src/Query/Parser.antt =====
-- src/query_parser.cpp: `QueryParser`, on the tokens from `cursor_` on, and `QueryEngine::parse`.
use stratavm.Base.{ℕ, zero, suc, ◌+◌, ◌*◌, true, List, [], ◌∷◌, length}
use stratavm.Status.{bad_value}
use stratavm.Query.{
  Parsed, parsed, failed, out_of_fuel, ◌>>=◌, QueryToken, QueryNodeKind, QueryExpr, CmpOp, make,
  leaf, unary, binary,
}
use stratavm.Query.Lexer.{tokenize}

abbrev pub Tokens : Type 0
Tokens = List QueryToken

-- `consume()` at the token `t`: the cursor stays on the last token.
abbrev pub after : QueryToken → Tokens → Tokens
after t [] = t ∷ []
after t (u ∷ rest) = u ∷ rest

abbrev pub expect_colon : Tokens → Parsed Tokens
expect_colon (QueryToken.colon ∷ rest) = parsed (after QueryToken.colon rest)
expect_colon _ = failed bad_value

abbrev pub expect_rparen : Tokens → Parsed Tokens
expect_rparen (QueryToken.rparen ∷ rest) = parsed (after QueryToken.rparen rest)
expect_rparen _ = failed bad_value

abbrev pub take_ident : Tokens → Parsed (List ℕ × Tokens)
take_ident (QueryToken.ident name ∷ rest) = parsed (name, after (QueryToken.ident name) rest)
take_ident _ = failed bad_value

-- `':' ident`
unfoldable pub parse_name : Tokens → Parsed (List ℕ × Tokens)
parse_name ts = expect_colon ts >>= take_ident

unfoldable pub parse_op : Tokens → Parsed (CmpOp × Tokens)
parse_op (QueryToken.eq ∷ rest) = parsed (CmpOp.eq, after QueryToken.eq rest)
parse_op (QueryToken.neq ∷ rest) = parsed (CmpOp.neq, after QueryToken.neq rest)
parse_op (QueryToken.lt ∷ rest) = parsed (CmpOp.lt, after QueryToken.lt rest)
parse_op (QueryToken.gt ∷ rest) = parsed (CmpOp.gt, after QueryToken.gt rest)
parse_op (QueryToken.le ∷ rest) = parsed (CmpOp.le, after QueryToken.le rest)
parse_op (QueryToken.ge ∷ rest) = parsed (CmpOp.ge, after QueryToken.ge rest)
parse_op _ = failed bad_value

abbrev pub named : QueryNodeKind → List ℕ → QueryExpr
named k name = leaf (record (make k) { atom_name = name })

abbrev pub compared_atom : List ℕ → CmpOp → List ℕ → QueryExpr
compared_atom name op text = leaf (record (make QueryNodeKind.field_cmp) {
  atom_name = name;
  cmp_op = op;
  atom_val = text;
  use_atom_val = true;
})

abbrev pub compared_int : List ℕ → CmpOp → ℕ → QueryExpr
compared_int name op v =
    leaf (record (make QueryNodeKind.field_cmp) { atom_name = name; cmp_op = op; int_val = v })

unfoldable pub parse_value : List ℕ → CmpOp → Tokens → Parsed (QueryExpr × Tokens)
parse_value name op (QueryToken.string text ∷ rest) =
    parsed (compared_atom name op text, after (QueryToken.string text) rest)
parse_value name op (QueryToken.integer v ∷ rest) =
    parsed (compared_int name op v, after (QueryToken.integer v) rest)
parse_value name op _ = failed bad_value

-- `':' ident cmp_op value`
unfoldable pub parse_comparison : Tokens → Parsed (QueryExpr × Tokens)
unfolding parse_name
parse_comparison ts =
    parse_name ts >>= λ (name, ts'). parse_op ts' >>= λ (op, ts''). parse_value name op ts''

unfoldable pub parse_named : QueryNodeKind → Tokens → Parsed (QueryExpr × Tokens)
parse_named k ts = parse_name ts >>= λ (name, ts'). parsed (named k name, ts')

-- The functions call each other before a token is consumed, so each call costs a unit of fuel. No
-- token at all is past the end of the vector, which `parse` never passes.
unfoldable mutual
  pub parse_or_expr : ℕ → Tokens → Parsed (QueryExpr × Tokens)
  parse_or_expr zero ts = out_of_fuel
  parse_or_expr (suc f) ts = parse_and_expr f ts >>= λ (lhs, ts'). or_loop f lhs ts'

  -- `while (peek().kind == OR)`
  pub or_loop : ℕ → QueryExpr → Tokens → Parsed (QueryExpr × Tokens)
  or_loop zero lhs ts = out_of_fuel
  or_loop (suc f) lhs (QueryToken.or ∷ rest) =
      parse_and_expr f (after QueryToken.or rest) >>= λ (rhs, ts').
      or_loop f (binary QueryNodeKind.or lhs rhs) ts'
  or_loop (suc f) lhs ts = parsed (lhs, ts)

  pub parse_and_expr : ℕ → Tokens → Parsed (QueryExpr × Tokens)
  parse_and_expr zero ts = out_of_fuel
  parse_and_expr (suc f) ts = parse_not_expr f ts >>= λ (lhs, ts'). and_loop f lhs ts'

  -- `while (peek().kind == AND)`
  pub and_loop : ℕ → QueryExpr → Tokens → Parsed (QueryExpr × Tokens)
  and_loop zero lhs ts = out_of_fuel
  and_loop (suc f) lhs (QueryToken.and ∷ rest) =
      parse_not_expr f (after QueryToken.and rest) >>= λ (rhs, ts').
      and_loop f (binary QueryNodeKind.and lhs rhs) ts'
  and_loop (suc f) lhs ts = parsed (lhs, ts)

  pub parse_not_expr : ℕ → Tokens → Parsed (QueryExpr × Tokens)
  parse_not_expr zero ts = out_of_fuel
  parse_not_expr (suc f) (QueryToken.not ∷ rest) =
      parse_not_expr f (after QueryToken.not rest) >>= λ (inner, ts').
      parsed (unary QueryNodeKind.not inner, ts')
  parse_not_expr (suc f) ts = parse_atom_expr f ts

  pub parse_atom_expr : ℕ → Tokens → Parsed (QueryExpr × Tokens)
  parse_atom_expr zero ts = out_of_fuel
  parse_atom_expr (suc f) (QueryToken.lparen ∷ rest) =
      parse_or_expr f (after QueryToken.lparen rest) >>= λ (inner, ts').
      expect_rparen ts' >>= λ ts''. parsed (inner, ts'')
  parse_atom_expr (suc f) (QueryToken.alive ∷ rest) =
      parsed (leaf (make QueryNodeKind.any_alive), after QueryToken.alive rest)
  parse_atom_expr (suc f) (QueryToken.any ∷ rest) =
      parsed (leaf (make QueryNodeKind.any_alive), after QueryToken.any rest)
  parse_atom_expr (suc f) (QueryToken.kind ∷ rest) =
      parse_named QueryNodeKind.kind_match (after QueryToken.kind rest)
  parse_atom_expr (suc f) (QueryToken.has_child ∷ rest) =
      parse_named QueryNodeKind.has_child (after QueryToken.has_child rest)
  parse_atom_expr (suc f) (QueryToken.has_ref ∷ rest) =
      parse_named QueryNodeKind.has_ref (after QueryToken.has_ref rest)
  parse_atom_expr (suc f) (QueryToken.field ∷ rest) = parse_comparison (after QueryToken.field rest)
  parse_atom_expr (suc f) ts = failed bad_value

abbrev pub finish : QueryExpr → Tokens → Parsed QueryExpr
finish e (QueryToken.end ∷ rest) = parsed e
finish e _ = failed bad_value

-- Every token costs at most six calls.
unfoldable pub parse_tokens : Tokens → Parsed QueryExpr
unfolding parse_or_expr
parse_tokens ts = parse_or_expr (6 * length ts + 6) ts >>= λ (e, ts'). finish e ts'

unfoldable pub parse : List ℕ → Parsed QueryExpr
parse query_text = tokenize query_text >>= parse_tokens
