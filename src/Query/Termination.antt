-- ===== src/Query/Termination.antt =====
-- src/query_parser.cpp: the fuel of the parser. Token lists end with the END sentinel.
use stratavm.Base.{
  ℕ, zero, suc, ◌+◌, ◌*◌, ◌≤◌, ◌<◌, ◌≡◌, refl, Bool, true, false, List, [], ◌∷◌, length, arith,
}
use stratavm.Status.{bad_value}
use stratavm.Query.{Parsed, parsed, failed, ◌>>=◌, QueryToken, QueryNodeKind, QueryExpr, CmpOp}
use stratavm.Query.Parser.{
  Tokens, after, expect_rparen, take_ident, parse_name, parse_op, parse_value, parse_comparison,
  parse_named, parse_or_expr, or_loop, parse_and_expr, and_loop, parse_not_expr, parse_atom_expr,
  finish, parse_tokens,
}

abbrev pub is_end : QueryToken → Bool
is_end QueryToken.end = true
is_end _ = false

abbrev pub is_ended : Tokens → Bool
is_ended [] = false
is_ended (t ∷ []) = is_end t
is_ended (t ∷ u ∷ rest) = is_ended (u ∷ rest)

-- No fuel ran out; what is left of the tokens ends with the sentinel and is shorter than `n`.
pub data Stays {A : Type 0} (n : ℕ) : Parsed (A × Tokens) → Type 0 where
  left : {p : A × Tokens} → is_ended p.1 ≡ true → length p.1 < n → Stays n (parsed p)
  stopped : Stays n (failed bad_value)

bind-Stays :
    {A B : Type 0} {m : Parsed (A × Tokens)} {f : A × Tokens → Parsed (B × Tokens)} {k n : ℕ}
    → Stays k m
    → ((p : A × Tokens) → is_ended p.1 ≡ true → length p.1 < k → Stays n (f p))
    → Stays n (m >>= f)
bind-Stays (left {p = p} e less) g = g p e less
bind-Stays stopped g = stopped

Stays-mono : {A : Type 0} {m : Parsed (A × Tokens)} {k n : ℕ} → k ≤ n → Stays k m → Stays n m
Stays-mono h (left e less) = left e (omega arith)
Stays-mono h stopped = stopped

-- `consume()` at a token that is not the sentinel.
after_lem :
    (t : QueryToken) (rest : Tokens)
    → is_end t ≡ false
    → is_ended (t ∷ rest) ≡ true
    → (is_ended (after t rest) ≡ true) × (length (after t rest) ≡ length rest)
after_lem t [] e h = cc
after_lem t (u ∷ rest) e h = (h, refl)

consumed :
    {A : Type 0} (a : A) (t : QueryToken) (rest : Tokens)
    → is_end t ≡ false
    → is_ended (t ∷ rest) ≡ true
    → Stays (length (t ∷ rest)) (parsed (a, after t rest))
consumed a t rest e h = let (e', n) = after_lem t rest e h in left e' (omega (arith, n))

take_ident-Stays : (ts : Tokens) → is_ended ts ≡ true → Stays (length ts) (take_ident ts)
take_ident-Stays [] h = stopped
take_ident-Stays (QueryToken.ident name ∷ rest) h =
    consumed name (QueryToken.ident name) rest refl h
take_ident-Stays (_ ∷ rest) h = stopped

parse_name-Stays : (ts : Tokens) → is_ended ts ≡ true → Stays (length ts) (parse_name ts)
unfolding parse_name
parse_name-Stays [] h = stopped
parse_name-Stays (QueryToken.colon ∷ rest) h =
    let (e, n) = after_lem QueryToken.colon rest refl h in
    Stays-mono (omega (arith, n)) (take_ident-Stays (after QueryToken.colon rest) e)
parse_name-Stays (_ ∷ rest) h = stopped

parse_op-Stays : (ts : Tokens) → is_ended ts ≡ true → Stays (length ts) (parse_op ts)
unfolding parse_op
parse_op-Stays [] h = stopped
parse_op-Stays (QueryToken.eq ∷ rest) h = consumed _ QueryToken.eq rest refl h
parse_op-Stays (QueryToken.neq ∷ rest) h = consumed _ QueryToken.neq rest refl h
parse_op-Stays (QueryToken.lt ∷ rest) h = consumed _ QueryToken.lt rest refl h
parse_op-Stays (QueryToken.gt ∷ rest) h = consumed _ QueryToken.gt rest refl h
parse_op-Stays (QueryToken.le ∷ rest) h = consumed _ QueryToken.le rest refl h
parse_op-Stays (QueryToken.ge ∷ rest) h = consumed _ QueryToken.ge rest refl h
parse_op-Stays (_ ∷ rest) h = stopped

parse_value-Stays :
    (name : List ℕ) (op : CmpOp) (ts : Tokens)
    → is_ended ts ≡ true
    → Stays (length ts) (parse_value name op ts)
unfolding parse_value
parse_value-Stays name op [] h = stopped
parse_value-Stays name op (QueryToken.string s ∷ rest) h =
    consumed _ (QueryToken.string s) rest refl h
parse_value-Stays name op (QueryToken.integer v ∷ rest) h =
    consumed _ (QueryToken.integer v) rest refl h
parse_value-Stays name op (_ ∷ rest) h = stopped

parse_comparison-Stays :
    (ts : Tokens) → is_ended ts ≡ true → Stays (length ts) (parse_comparison ts)
unfolding parse_comparison
parse_comparison-Stays ts h = bind-Stays (parse_name-Stays ts h) λ (name, ts') e less.
    bind-Stays (parse_op-Stays ts' e)
      λ (op, ts'') e' less'. Stays-mono (omega arith) (parse_value-Stays name op ts'' e')

parse_named-Stays :
    (k : QueryNodeKind) (ts : Tokens) → is_ended ts ≡ true → Stays (length ts) (parse_named k ts)
unfolding parse_named
parse_named-Stays k ts h = bind-Stays (parse_name-Stays ts h) λ (name, ts') e less. left e less

-- With that much fuel every call ends.
record Enough (f : ℕ) : Type 0 where
  or_expr :
      (ts : Tokens)
      → is_ended ts ≡ true
      → 6 * length ts + 3 < f
      → Stays (length ts) (parse_or_expr f ts)
  or_rest :
      (lhs : QueryExpr) (ts : Tokens)
      → is_ended ts ≡ true
      → 6 * length ts < f
      → Stays (suc (length ts)) (or_loop f lhs ts)
  and_expr :
      (ts : Tokens)
      → is_ended ts ≡ true
      → 6 * length ts + 2 < f
      → Stays (length ts) (parse_and_expr f ts)
  and_rest :
      (lhs : QueryExpr) (ts : Tokens)
      → is_ended ts ≡ true
      → 6 * length ts < f
      → Stays (suc (length ts)) (and_loop f lhs ts)
  not_expr :
      (ts : Tokens)
      → is_ended ts ≡ true
      → 6 * length ts + 1 < f
      → Stays (length ts) (parse_not_expr f ts)
  atom_expr :
      (ts : Tokens)
      → is_ended ts ≡ true
      → 6 * length ts < f
      → Stays (length ts) (parse_atom_expr f ts)

module _ (f : ℕ) (enough : Enough f) where
  or_expr_step :
      (ts : Tokens)
      → is_ended ts ≡ true
      → 6 * length ts + 3 < suc f
      → Stays (length ts) (parse_or_expr (suc f) ts)
  unfolding parse_or_expr
  or_expr_step ts h more =
      bind-Stays (enough.and_expr ts h (omega arith))
        λ (lhs, ts') e less. Stays-mono (omega arith) (enough.or_rest lhs ts' e (omega arith))

  or_rest_step :
      (lhs : QueryExpr) (ts : Tokens)
      → is_ended ts ≡ true
      → 6 * length ts < suc f
      → Stays (suc (length ts)) (or_loop (suc f) lhs ts)
  unfolding or_loop
  or_rest_step lhs [] h more = cc
  or_rest_step lhs (QueryToken.or ∷ rest) h more =
      let (e, n) = after_lem QueryToken.or rest refl h in
      bind-Stays (enough.and_expr (after QueryToken.or rest) e (omega (arith, n)))
        λ (rhs, ts') e' less.
          Stays-mono (omega (arith, n)) (enough.or_rest _ ts' e' (omega (arith, n)))
  or_rest_step lhs (_ ∷ rest) h more = left h (omega arith)

  and_expr_step :
      (ts : Tokens)
      → is_ended ts ≡ true
      → 6 * length ts + 2 < suc f
      → Stays (length ts) (parse_and_expr (suc f) ts)
  unfolding parse_and_expr
  and_expr_step ts h more =
      bind-Stays (enough.not_expr ts h (omega arith))
        λ (lhs, ts') e less. Stays-mono (omega arith) (enough.and_rest lhs ts' e (omega arith))

  and_rest_step :
      (lhs : QueryExpr) (ts : Tokens)
      → is_ended ts ≡ true
      → 6 * length ts < suc f
      → Stays (suc (length ts)) (and_loop (suc f) lhs ts)
  unfolding and_loop
  and_rest_step lhs [] h more = cc
  and_rest_step lhs (QueryToken.and ∷ rest) h more =
      let (e, n) = after_lem QueryToken.and rest refl h in
      bind-Stays (enough.not_expr (after QueryToken.and rest) e (omega (arith, n)))
        λ (rhs, ts') e' less.
          Stays-mono (omega (arith, n)) (enough.and_rest _ ts' e' (omega (arith, n)))
  and_rest_step lhs (_ ∷ rest) h more = left h (omega arith)

  not_expr_step :
      (ts : Tokens)
      → is_ended ts ≡ true
      → 6 * length ts + 1 < suc f
      → Stays (length ts) (parse_not_expr (suc f) ts)
  unfolding parse_not_expr
  not_expr_step [] h more = cc
  not_expr_step (QueryToken.not ∷ rest) h more =
      let (e, n) = after_lem QueryToken.not rest refl h in
      bind-Stays (enough.not_expr (after QueryToken.not rest) e (omega (arith, n)))
        λ (inner, ts') e' less. left e' (omega (arith, n))
  not_expr_step (t ∷ rest) h more = enough.atom_expr (t ∷ rest) h (omega arith)

  atom_expr_step :
      (ts : Tokens)
      → is_ended ts ≡ true
      → 6 * length ts < suc f
      → Stays (length ts) (parse_atom_expr (suc f) ts)
  unfolding parse_atom_expr
  atom_expr_step [] h more = cc
  atom_expr_step (QueryToken.lparen ∷ rest) h more =
      let (e, n) = after_lem QueryToken.lparen rest refl h in
      bind-Stays (enough.or_expr (after QueryToken.lparen rest) e (omega (arith, n)))
        λ (inner, ts') e' less. Stays-mono (omega (arith, n)) (closed inner ts' e')
    where
      closed :
          (inner : QueryExpr) (ts : Tokens)
          → is_ended ts ≡ true
          → Stays (length ts) (expect_rparen ts >>= λ ts'. parsed (inner, ts'))
      closed inner [] h = stopped
      closed inner (QueryToken.rparen ∷ rest) h = consumed inner QueryToken.rparen rest refl h
      closed inner (_ ∷ rest) h = stopped
  atom_expr_step (QueryToken.alive ∷ rest) h more = consumed _ QueryToken.alive rest refl h
  atom_expr_step (QueryToken.any ∷ rest) h more = consumed _ QueryToken.any rest refl h
  atom_expr_step (QueryToken.kind ∷ rest) h more =
      let (e, n) = after_lem QueryToken.kind rest refl h in
      Stays-mono (omega (arith, n)) (parse_named-Stays _ _ e)
  atom_expr_step (QueryToken.has_child ∷ rest) h more =
      let (e, n) = after_lem QueryToken.has_child rest refl h in
      Stays-mono (omega (arith, n)) (parse_named-Stays _ _ e)
  atom_expr_step (QueryToken.has_ref ∷ rest) h more =
      let (e, n) = after_lem QueryToken.has_ref rest refl h in
      Stays-mono (omega (arith, n)) (parse_named-Stays _ _ e)
  atom_expr_step (QueryToken.field ∷ rest) h more =
      let (e, n) = after_lem QueryToken.field rest refl h in
      Stays-mono (omega (arith, n)) (parse_comparison-Stays _ e)
  atom_expr_step (_ ∷ rest) h more = stopped

every-Enough : (f : ℕ) → Enough f
every-Enough zero = record {
  or_expr = λ ts h more. absurd (omega arith);
  or_rest = λ lhs ts h more. absurd (omega arith);
  and_expr = λ ts h more. absurd (omega arith);
  and_rest = λ lhs ts h more. absurd (omega arith);
  not_expr = λ ts h more. absurd (omega arith);
  atom_expr = λ ts h more. absurd (omega arith);
}
every-Enough (suc f) =
    let enough = every-Enough f in
    record {
      or_expr = or_expr_step f enough;
      or_rest = or_rest_step f enough;
      and_expr = and_expr_step f enough;
      and_rest = and_rest_step f enough;
      not_expr = not_expr_step f enough;
      atom_expr = atom_expr_step f enough;
    }

-- A parse that ends in an expression or in `BadValue`.
pub data Ends {A : Type 0} : Parsed A → Type 0 where
  gives : {a : A} → Ends (parsed a)
  rejects : Ends (failed bad_value)

-- The parser's fuel is enough for any tokens that end with the sentinel: it gives an expression or
-- fails with BadValue.
pub parse_tokens-Ends : (ts : Tokens) → is_ended ts ≡ true → Ends (parse_tokens ts)
unfolding parse_tokens
parse_tokens-Ends ts h =
    finished (Enough.or_expr (every-Enough (6 * length ts + 6)) ts h (omega arith))
  where
    finish-Ends : (e : QueryExpr) (ts : Tokens) → Ends (finish e ts)
    finish-Ends e [] = rejects
    finish-Ends e (QueryToken.end ∷ rest) = gives
    finish-Ends e (_ ∷ rest) = rejects

    finished :
        {n : ℕ} {m : Parsed (QueryExpr × Tokens)}
        → Stays n m
        → Ends (m >>= λ (e, ts'). finish e ts')
    finished (left {p = p} e less) = finish-Ends p.0 p.1
    finished stopped = rejects
