-- ===== src/Runs/Diffs.antt =====
-- Runs of the comparison of node tables.
use stratavm.Base.{◌%◌, ◌≡◌, refl, [], ◌∷◌, ◌++◌, List, length, All, arith}
use stratavm.Base.Maps.{nat_eq, lookup}
use stratavm.Status.{ok}
use stratavm.Format.{u32_mod, invalid_id}
use stratavm.Reader.Reads.{Reads}
use stratavm.Writer.{varint}
use stratavm.Value.{Value}
use stratavm.Node.{Node}
use stratavm.Diff.{Walk, NodeChange, GraphDiff, added, no_changes, push_change, diff_node_graphs}
use stratavm.Diff.Codec.{serialize_diff, deserialize_diff}
use stratavm.Diff.Journal.{diff_to_journal}
use stratavm.Diff.RoundTrip.{IsChange, push_all, deserialize_diff-serialize_diff}
use stratavm.Diff.Same.{AreFields, IsQuiet, diff_node_graphs-IsQuiet}
use stratavm.Diff.Ops.{all_ops, ops_bytes, diff_to_journal-ops}
use stratavm.Runs.{root}

-- A node that is new, with a field and a child.
abbrev new_node : NodeChange
new_node = record {
  change = added;
  before_id = invalid_id;
  after_id = 3;
  name = 1;
  kind = 0;
  field_changes = record { field_idx = 0; before = Value.invalid; after = Value.int 5 } ∷ [];
  children_added = 0 ∷ [];
  children_removed = [];
}

abbrev one_added : GraphDiff
one_added = record no_changes { changes = new_node ∷ []; nodes_added = 1 }

new_node-IsChange : IsChange new_node
new_node-IsChange = record {
  change_fits = omega arith;
  name_fits = omega arith;
  before_fits = omega arith;
  after_fits = omega arith;
  kind_fits = omega arith;
  fields_fit = (
    omega arith,
    (record { field_fits = omega arith; before_fits = tt; after_fits = omega arith }, tt),
  );
  added_fit = (omega arith, (omega arith, tt));
  removed_fit = (omega arith, tt);
}

one_added_counted : push_all one_added.changes no_changes ≡ one_added
unfolding push_all push_change
one_added_counted = refl

deserialize_diff-serialize_diff_example :
    Reads deserialize_diff (serialize_diff one_added) one_added
deserialize_diff-serialize_diff_example =
    deserialize_diff-serialize_diff one_added (omega arith) (new_node-IsChange, tt)
      one_added_counted

diff_to_journal-ops_example :
    diff_to_journal one_added
    ≡ ok (
        varint (length (all_ops one_added.changes) % u32_mod)
        ++ ops_bytes (all_ops one_added.changes))
diff_to_journal-ops_example = diff_to_journal-ops one_added

abbrev in_order : Walk
in_order = record { visit = λ xs. xs; visits_all = λ P xs h. h; visits_only = λ P xs h. h }

abbrev table : List Node
table = record root { fields = (0, Value.float 1) ∷ []; children = 0 ∷ [] } ∷ []

table-AreFields : All (λ (n : Node). AreFields n.fields) table
unfolding lookup
table-AreFields = (((refl, refl), tt), tt)

diff_node_graphs-IsQuiet_example : IsQuiet (diff_node_graphs in_order table table)
diff_node_graphs-IsQuiet_example = diff_node_graphs-IsQuiet in_order table table-AreFields
