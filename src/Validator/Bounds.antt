-- ===== src/Validator/Bounds.antt =====
-- src/validator.cpp on arbitrary node tables.
use stratavm.Base.{
  ℕ, ◌+◌, ◌%◌, ◌≡◌, ◌≢◌, Bool, true, false, leb, if-both, Bool-cases, inl, inr, List, [], ◌∷◌,
  length, refl, get_elem?-lt, All, All-append, All-get, lt→ltb, ◌<◌, Option, none, some, arith,
}
use stratavm.Status.{
  Code, Result, ok, ◌>>=◌, unresolved_ref, kind_out_of_range, invariant_violation,
}
use stratavm.Format.{u32_mod}
use stratavm.Vm.{inc}
use stratavm.Schema.{Schema, FieldDef, KindDef, kind}
use stratavm.Node.{Node}
use stratavm.Validator.{
  ValidationReport, no_issues, add_issue, add_if, count_dangling, check_fields, check_field_list,
  check_ref, check_refs, check_children, check_live, check_node, check_nodes, validate_graph,
}

-- Unless the validation is strict, no issue is about a reference.
abbrev pub SoftOk : Bool → ValidationReport → Type 0
SoftOk strict rep = strict ≡ false → All (λ i. i.code ≢ unresolved_ref) rep.issues

hard_issue :
    (strict : Bool) (code : Code) (id : ℕ) (rep : ValidationReport)
    → code ≢ unresolved_ref
    → SoftOk strict rep
    → SoftOk strict (add_issue code id rep)
hard_issue strict code id rep other h soft =
    All-append (λ i. i.code ≢ unresolved_ref) rep.issues (record { code = code; node = id } ∷ [])
      (h soft) (other, tt)

soft_issue :
    (strict : Bool) (id : ℕ) (rep : ValidationReport)
    → SoftOk strict rep
    → SoftOk strict (add_if strict unresolved_ref id rep)
soft_issue true id rep h soft = cc
soft_issue false id rep h soft = h soft

dangling_issue :
    (strict : Bool) (id : ℕ) (rep : ValidationReport)
    → SoftOk strict rep
    → SoftOk strict (count_dangling strict id rep)
dangling_issue strict id rep h = soft_issue strict id _ h

check_field_list-SoftOk :
    (strict : Bool) (n : Node) (fi : ℕ) (fields : List FieldDef) (rep : ValidationReport)
    → SoftOk strict rep
    → SoftOk strict (check_field_list n fi fields rep)
unfolding check_field_list
check_field_list-SoftOk strict n fi [] rep h = h
check_field_list-SoftOk strict n fi (fd ∷ rest) rep h =
    check_field_list-SoftOk strict n ((fi + 1) % u32_mod) rest _ (
      if-both (SoftOk strict) _
        (hard_issue strict invariant_violation n.id
          (record rep { missing_required = inc rep.missing_required }) (λ e. cc) h)
        h)

-- The fields of a kind that the loop's counter can count.
abbrev pub IsCountable : KindDef → Type 0
IsCountable k = length k.fields < u32_mod

module _ (nodes : List Node) (schema : Schema) (strict : Bool) where
  -- A check that returns, and keeps `SoftOk`.
  abbrev Checks : Result ValidationReport → Type 0
  Checks m = (rep : ValidationReport) × (m ≡ ok rep) × SoftOk strict rep

  and_then :
      {f : ValidationReport → Result ValidationReport} (m : Result ValidationReport)
      → Checks m
      → ((rep : ValidationReport) → SoftOk strict rep → Checks (f rep))
      → Checks (m >>= f)
  and_then {f} m (rep, e, h) k = rw e (k rep h)

  check_ref_total :
      (id t : ℕ) (rep : ValidationReport)
      → SoftOk strict rep
      → Checks (check_ref nodes strict id t rep)
  unfolding check_ref
  check_ref_total id t rep h = elim (Bool-cases (leb (length nodes % u32_mod) t)) [
    | inl large ↦ rw large (_, refl, dangling_issue strict id rep h)
    | inr small ↦ rw small (
        let (n, e) = get_elem?-lt nodes t (ground arith) in
        rw e (_, refl, if-both (SoftOk strict) n.alive h (dangling_issue strict id rep h)))
  ]

  check_refs_total :
      (id : ℕ) (ts : List ℕ) (rep : ValidationReport)
      → SoftOk strict rep
      → Checks (check_refs nodes strict id ts rep)
  unfolding check_refs
  check_refs_total id [] rep h = (rep, refl, h)
  check_refs_total id (t ∷ rest) rep h =
      and_then _ (check_ref_total id t rep h) λ rep' h'. check_refs_total id rest rep' h'

  check_children-SoftOk :
      (count id : ℕ) (cs : List ℕ) (rep : ValidationReport)
      → SoftOk strict rep
      → SoftOk strict (check_children count strict id cs rep)
  unfolding check_children
  check_children-SoftOk count id [] rep h = h
  check_children-SoftOk count id (c ∷ rest) rep h =
      check_children-SoftOk count id rest _
        (if-both (SoftOk strict) (leb count c) (dangling_issue strict id rep h) h)

  check_live_total :
      (n : Node) (k : Option KindDef) (rep : ValidationReport)
      → ((def : KindDef) → k ≡ some def → IsCountable def)
      → SoftOk strict rep
      → Checks (check_live nodes strict n k rep)
  unfolding check_live check_fields
  check_live_total n none rep small h =
      (_, refl, hard_issue strict kind_out_of_range n.id rep (λ e. cc) h)
  check_live_total n (some k) rep small h = rw (lt→ltb _ _ (small k refl)) (
      and_then _
        (check_refs_total n.id n.refs _ (check_field_list-SoftOk strict n 0 k.fields rep h))
        λ rep' h'. (_, refl, check_children-SoftOk _ n.id n.children rep' h'))

  abbrev AreCountable : Type 0
  AreCountable = All IsCountable schema.kinds

  check_node_total :
      (n : Node) (rep : ValidationReport)
      → AreCountable
      → SoftOk strict rep
      → Checks (check_node nodes schema strict n rep)
  unfolding check_node
  check_node_total n rep small h =
      if-both Checks n.placeholder (_, refl, soft_issue strict n.id _ h)
        (if-both Checks n.alive
          (check_live_total n (kind schema n.kind) _
            (λ def e. All-get IsCountable schema.kinds n.kind small e) h)
          (rep, refl, h))

  check_nodes_total :
      (todo : List Node) (rep : ValidationReport)
      → AreCountable
      → SoftOk strict rep
      → Checks (check_nodes nodes schema strict todo rep)
  unfolding check_nodes
  check_nodes_total [] rep small h = (rep, refl, h)
  check_nodes_total (n ∷ rest) rep small h =
      and_then _ (check_node_total n rep small h) λ rep' h'. check_nodes_total rest rep' small h'

-- Validation of any node table against a schema whose kinds have fewer than 2^32 fields each ends with a
-- report, with no index out of range, and unless it is strict no issue of the report is an unresolved
-- reference.
pub validate_graph-SoftOk :
    (nodes : List Node) (schema : Schema) (strict : Bool)
    → All IsCountable schema.kinds
    → (rep : ValidationReport) × (validate_graph nodes schema strict ≡ ok rep) × SoftOk strict rep
unfolding validate_graph
validate_graph-SoftOk nodes schema strict small =
    check_nodes_total nodes schema strict nodes no_issues small (λ _. tt)
