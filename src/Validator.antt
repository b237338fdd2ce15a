-- ===== src/Validator.antt =====
-- include/stratavm/validator.hpp and src/validator.cpp: the checks on a reconstructed graph. An
-- issue's text is not kept.
pub mod Bounds
use stratavm.Base.{
  ℕ, suc, ◌+◌, ◌%◌, Bool, true, false, not, ◌&&◌, leb, ltb, List, [], ◌∷◌, ◌++◌, length, Option,
  none, some, if◌then◌else◌, get_elem?,
}
use stratavm.Status.{
  Code, Result, ok, fault, out_of_range, endless, ◌>>=◌, unresolved_ref, kind_out_of_range,
  invariant_violation,
}
use stratavm.Format.{u32_mod}
use stratavm.Schema.{Schema, FieldDef, KindDef, kind, is_required}
use stratavm.Value.{Value}
use stratavm.Node.{Node, field}
use stratavm.Vm.{inc}

pub record ValidationIssue : Type 0 where
  pub code : Code
  pub node : ℕ

pub record ValidationReport : Type 0 where
  pub issues : List ValidationIssue
  pub live_nodes : ℕ
  pub dangling_refs : ℕ
  pub unfilled_placeholders : ℕ
  pub missing_required : ℕ

abbrev pub no_issues : ValidationReport
no_issues = record {
  issues = [];
  live_nodes = 0;
  dangling_refs = 0;
  unfilled_placeholders = 0;
  missing_required = 0;
}

abbrev pub add_issue : Code → ℕ → ValidationReport → ValidationReport
add_issue code id rep = record rep { issues = rep.issues ++ record { code = code; node = id } ∷ [] }

-- `if (strict) add_issue(...)`
abbrev pub add_if : Bool → Code → ℕ → ValidationReport → ValidationReport
add_if strict code id rep = if strict then add_issue code id rep else rep

abbrev pub count_dangling : Bool → ℕ → ValidationReport → ValidationReport
count_dangling strict id rep =
    add_if strict unresolved_ref id (record rep { dangling_refs = inc rep.dangling_refs })

is_missing : Option Value → Bool
is_missing none = true
is_missing (some v) = false

-- The loop over the fields of the node's kind, from field `fi` on.
unfoldable pub check_field_list : Node → ℕ → List FieldDef → ValidationReport → ValidationReport
unfolding is_missing
check_field_list n fi [] rep = rep
check_field_list n fi (fd ∷ rest) rep = check_field_list n ((fi + 1) % u32_mod) rest (
    if is_required fd && is_missing (field n fi)
    then add_issue invariant_violation n.id
        (record rep { missing_required = inc rep.missing_required })
    else rep)

-- A uint32_t counts up to a size_t, which it never reaches from 2^32 on.
unfoldable pub check_fields : Node → List FieldDef → ValidationReport → Result ValidationReport
unfolding check_field_list
check_fields n fields rep =
    if ltb (length fields) u32_mod then ok (check_field_list n 0 fields rep) else fault endless

-- `nodes[t].alive`
abbrev pub alive_in : Option Node → Result Bool
alive_in none = fault out_of_range
alive_in (some n) = ok n.alive

unfoldable pub check_ref : List Node → Bool → ℕ → ℕ → ValidationReport → Result ValidationReport
check_ref nodes strict id t rep =
    if leb (length nodes % u32_mod) t
    then ok (count_dangling strict id rep)
    else (alive_in (get_elem? nodes t) >>= λ alive.
        ok (if alive then rep else count_dangling strict id rep))

unfoldable pub check_refs :
    List Node → Bool → ℕ → List ℕ → ValidationReport → Result ValidationReport
check_refs nodes strict id [] rep = ok rep
check_refs nodes strict id (t ∷ rest) rep =
    check_ref nodes strict id t rep >>= λ rep'. check_refs nodes strict id rest rep'

unfoldable pub check_children : ℕ → Bool → ℕ → List ℕ → ValidationReport → ValidationReport
check_children count strict id [] rep = rep
check_children count strict id (c ∷ rest) rep =
    check_children count strict id rest (if leb count c then count_dangling strict id rep else rep)

unfoldable pub check_live :
    List Node → Bool → Node → Option KindDef → ValidationReport → Result ValidationReport
check_live nodes strict n none rep = ok (add_issue kind_out_of_range n.id rep)
check_live nodes strict n (some k) rep = check_fields n k.fields rep >>= λ rep'.
    check_refs nodes strict n.id n.refs rep' >>= λ rep''.
    ok (check_children (length nodes % u32_mod) strict n.id n.children rep'')

-- One round of the loop over nodes.
unfoldable pub check_node :
    List Node → Schema → Bool → Node → ValidationReport → Result ValidationReport
check_node nodes schema strict n rep =
    if n.placeholder
    then ok (
        add_if strict unresolved_ref n.id
          (record rep { unfilled_placeholders = inc rep.unfilled_placeholders }))
    else if n.alive
    then check_live nodes strict n (kind schema n.kind)
        (record rep { live_nodes = inc rep.live_nodes })
    else ok rep

unfoldable pub check_nodes :
    List Node → Schema → Bool → List Node → ValidationReport → Result ValidationReport
check_nodes nodes schema strict [] rep = ok rep
check_nodes nodes schema strict (n ∷ rest) rep =
    check_node nodes schema strict n rep >>= λ rep'. check_nodes nodes schema strict rest rep'

unfoldable pub validate_graph : List Node → Schema → Bool → Result ValidationReport
validate_graph nodes schema strict = check_nodes nodes schema strict nodes no_issues
