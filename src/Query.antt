-- ===== src/Query.antt =====
-- include/stratavm/query.hpp: the tokens and the expressions of the query language.
-- A text is its bytes, an int64_t its 64-bit pattern. A token's position serves messages only.
pub mod Lexer
pub mod Parser
pub mod Eval
pub mod Termination
pub mod Settling
pub mod Printing
pub mod RoundTrip
pub mod Search
pub mod Meaning
pub mod Reflecting
pub mod Deciding
use stratavm.Base.{ℕ, Bool, true, false, List, [], ◌∷◌}
use stratavm.Status.{Code}

-- What lexing and parsing end in: a value, an error code, or an exception that nothing catches. The
-- loops run on fuel; `out_of_fuel` has no counterpart in the program.
pub data Parsed (A : Type 0) : Type 0 where
  parsed : A → Parsed A
  failed : Code → Parsed A
  thrown out_of_fuel : Parsed A

infixl 5 ◌>>=◌
abbrev pub ◌>>=◌ : {A B : Type 0} → Parsed A → (A → Parsed B) → Parsed B
parsed a >>= f = f a
failed c >>= f = failed c
thrown >>= f = thrown
out_of_fuel >>= f = out_of_fuel

-- A token's kind, with `string_val` or `int_val` where it is populated.
pub data QueryToken : Type 0 where
  kind field has_child has_ref alive any and or not : QueryToken
  lparen rparen eq neq lt gt le ge colon end : QueryToken
  string ident : List ℕ → QueryToken
  integer : ℕ → QueryToken

-- `always` is `True`.
pub data QueryNodeKind : Type 0 where
  literal and or not kind_match field_cmp has_child has_ref any_alive always : QueryNodeKind

pub data CmpOp : Type 0 where
  eq neq lt gt le ge : CmpOp

-- The members of a node but its children.
pub record QueryNode : Type 0 where
  pub kind : QueryNodeKind
  pub cmp_op : CmpOp
  pub atom_name : List ℕ
  pub int_val : ℕ
  pub atom_val : List ℕ
  pub use_atom_val : Bool

mutual
  pub data QueryExpr : Type 0 where
    expr : QueryNode → QueryExprs → QueryExpr

  pub data QueryExprs : Type 0 where
    no_children : QueryExprs
    child : QueryExpr → QueryExprs → QueryExprs

-- `QueryExpr::make`, before any member is set.
abbrev pub make : QueryNodeKind → QueryNode
make k = record {
  kind = k;
  cmp_op = CmpOp.eq;
  atom_name = [];
  int_val = 0;
  atom_val = [];
  use_atom_val = false;
}

abbrev pub leaf : QueryNode → QueryExpr
leaf n = QueryExpr.expr n QueryExprs.no_children

abbrev pub unary : QueryNodeKind → QueryExpr → QueryExpr
unary k e = QueryExpr.expr (make k) (QueryExprs.child e QueryExprs.no_children)

abbrev pub binary : QueryNodeKind → QueryExpr → QueryExpr → QueryExpr
binary k lhs rhs =
    QueryExpr.expr (make k) (QueryExprs.child lhs (QueryExprs.child rhs QueryExprs.no_children))
