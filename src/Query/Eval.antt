-- ===== src/Query/Eval.antt =====
-- src/query_eval.cpp: the evaluator.
use stratavm.Base.{
  ℕ, ◌+◌, ◌%◌, ◌^◌, Bool, true, false, not, ◌&&◌, ◌||◌, ltb, ◌==◌, if◌then◌else◌, List, [], ◌∷◌,
  ◌++◌, get_elem?, length, take, Option, none, some,
}
use stratavm.Format.{invalid_id, u32_mod}
use stratavm.Value.{Value}
use stratavm.Atoms.{AtomPool}
use stratavm.Atoms.{find as find_atom}
use stratavm.Schema.{Schema, KindDef, FieldDef}
use stratavm.Schema.{kind as kind_of}
use stratavm.Node.{Node}
use stratavm.Node.{field as node_field}
use stratavm.Query.{
  Parsed, parsed, failed, thrown, out_of_fuel, QueryNodeKind, QueryNode, QueryExpr, QueryExprs,
  CmpOp,
}
use stratavm.Query.Parser.{parse}

pub record QueryResult : Type 0 where
  pub nodes : List ℕ
  pub scanned : ℕ
  pub matched : ℕ

abbrev pub no_result : QueryResult
no_result = record { nodes = []; scanned = 0; matched = 0 }

pub record QueryEngine : Type 0 where
  pub atoms : AtomPool
  pub schema : Schema
  pub nodes : List Node

-- `lhs < rhs` of int64_t patterns.
abbrev pub signed_lt : ℕ → ℕ → Bool
signed_lt lhs rhs = ltb ((lhs + 2 ^ 63) % 2 ^ 64) ((rhs + 2 ^ 63) % 2 ^ 64)

unfoldable pub apply_cmp : CmpOp → ℕ → ℕ → Bool
apply_cmp CmpOp.eq lhs rhs = lhs == rhs
apply_cmp CmpOp.neq lhs rhs = not (lhs == rhs)
apply_cmp CmpOp.lt lhs rhs = signed_lt lhs rhs
apply_cmp CmpOp.gt lhs rhs = signed_lt rhs lhs
apply_cmp CmpOp.le lhs rhs = not (signed_lt rhs lhs)
apply_cmp CmpOp.ge lhs rhs = not (signed_lt lhs rhs)

-- `atoms_.find(name)`, where kInvalidAtom is no atom.
abbrev pub resolve : QueryEngine → List ℕ → Option ℕ
resolve q name =
    if find_atom q.atoms name == invalid_id then none else some (find_atom q.atoms name)

-- `node.kind == kInvalidKind` or no such kind, or its definition.
abbrev pub kind_def : QueryEngine → Node → Option KindDef
kind_def q node = if node.kind == invalid_id then none else kind_of q.schema node.kind

-- The loop over fields counts up to their number cast to 32 bits.
abbrev pub counted_fields : KindDef → List FieldDef
counted_fields k = take (length k.fields % u32_mod) k.fields

-- The first field of that name, from field `i` on.
unfoldable pub find_field : ℕ → ℕ → List FieldDef → Option ℕ
find_field name i [] = none
find_field name i (f ∷ rest) = if f.name == name then some i else find_field name (i + 1) rest

unfoldable pub compare_atom : QueryEngine → QueryNode → Value → Bool
unfolding apply_cmp
compare_atom q e (Value.atom stored) = elim (resolve q e.atom_val) [
  | none ↦ false
  | some wanted ↦ apply_cmp e.cmp_op stored wanted
]
compare_atom q e _ = false

unfoldable pub compare_int : QueryNode → Value → Bool
unfolding apply_cmp
compare_int e (Value.int stored) = apply_cmp e.cmp_op stored e.int_val
compare_int e (Value.ref stored) = apply_cmp e.cmp_op stored e.int_val
compare_int e (Value.atom stored) = apply_cmp e.cmp_op stored e.int_val
compare_int e _ = false

abbrev pub compare_value : QueryEngine → QueryNode → Value → Bool
compare_value q e v = if e.use_atom_val then compare_atom q e v else compare_int e v

unfoldable pub kind_match : QueryEngine → List ℕ → Node → Bool
kind_match q name node = elim (resolve q name) [
  | none ↦ false
  | some wanted ↦ elim (kind_def q node) [ none ↦ false | some k ↦ k.name == wanted ]
]

unfoldable pub field_cmp : QueryEngine → QueryNode → Node → Bool
unfolding find_field compare_atom compare_int
field_cmp q e node = elim (kind_def q node) [
  | none ↦ false
  | some k ↦ elim (resolve q e.atom_name) [
    | none ↦ false
    | some name ↦ elim (find_field name 0 (counted_fields k)) [
      | none ↦ false
      | some fid ↦ elim (node_field node fid) [ none ↦ false | some v ↦ compare_value q e v ]
    ]
  ]
]

-- The loops over `node.children` and `node.refs`.
unfoldable pub any_named : List Node → ℕ → List ℕ → Bool
any_named nodes wanted [] = false
any_named nodes wanted (id ∷ rest) =
    let more = any_named nodes wanted rest in
    elim (get_elem? nodes id) [
      | none ↦ more
      | some n ↦ if n.alive && n.name == wanted then true else more
    ]

unfoldable pub has_named : QueryEngine → List ℕ → List ℕ → Bool
unfolding any_named
has_named q name ids = elim (resolve q name) [
  | none ↦ false
  | some wanted ↦ any_named q.nodes wanted ids
]

unfoldable mutual
  pub eval_node : QueryEngine → QueryExpr → Node → Bool
  eval_node q (QueryExpr.expr e operands) node = eval_kind q e.kind e operands node

  -- The switch.
  pub eval_kind : QueryEngine → QueryNodeKind → QueryNode → QueryExprs → Node → Bool
  eval_kind q QueryNodeKind.always e operands node = true
  eval_kind q QueryNodeKind.any_alive e operands node = true
  eval_kind q QueryNodeKind.and e (QueryExprs.child a (QueryExprs.child b more)) node =
      eval_node q a node && eval_node q b node
  eval_kind q QueryNodeKind.and e operands node = false
  eval_kind q QueryNodeKind.or e (QueryExprs.child a (QueryExprs.child b more)) node =
      eval_node q a node || eval_node q b node
  eval_kind q QueryNodeKind.or e operands node = false
  eval_kind q QueryNodeKind.not e (QueryExprs.child a more) node = not (eval_node q a node)
  eval_kind q QueryNodeKind.not e operands node = false
  eval_kind q QueryNodeKind.kind_match e operands node = kind_match q e.atom_name node
  eval_kind q QueryNodeKind.field_cmp e operands node = field_cmp q e node
  eval_kind q QueryNodeKind.has_child e operands node = has_named q e.atom_name node.children
  eval_kind q QueryNodeKind.has_ref e operands node = has_named q e.atom_name node.refs
  eval_kind q QueryNodeKind.literal e operands node = false

abbrev pub inspect : QueryEngine → QueryExpr → Node → QueryResult → QueryResult
inspect q e node r =
    let scanned = (r.scanned + 1) % u32_mod in
    if node.alive && eval_node q e node
    then record {
      nodes = r.nodes ++ node.id ∷ [];
      scanned = scanned;
      matched = (r.matched + 1) % u32_mod;
    }
    else record r { scanned = scanned }

unfoldable pub scan : QueryEngine → QueryExpr → List Node → QueryResult → QueryResult
scan q e [] r = r
scan q e (node ∷ rest) r = scan q e rest (inspect q e node r)

abbrev pub execute : QueryEngine → QueryExpr → QueryResult
execute q e = scan q e q.nodes no_result

-- The empty result stands for a failed parse; an exception goes through.
unfoldable pub execute_text : QueryEngine → List ℕ → Parsed QueryResult
execute_text q query_text = elim (parse query_text) [
  | parsed e ↦ parsed (execute q e)
  | failed c ↦ parsed no_result
  | thrown ↦ thrown
  | out_of_fuel ↦ out_of_fuel
]
