-- ===== src/Diff/Journal.antt =====
-- src/diff.cpp: the journal that a diff is turned into.
use stratavm.Base.{ℕ, ◌+◌, ◌%◌, Bool, true, false, ◌==◌, if◌then◌else◌, List, [], ◌∷◌, ◌++◌, length}
use stratavm.Status.{Result, ok}
use stratavm.Format.{invalid_id, u32_mod}
use stratavm.Writer.{u8, varint}
use stratavm.Value.{Value}
use stratavm.Diff.{FieldChange, NodeChange, GraphDiff, added, removed, modified, is_empty}
use stratavm.Diff.Codec.{emit_value_payload}

-- `body` and `op_count`.
pub record Emitted : Type 0 where
  pub body : List ℕ
  pub op_count : ℕ

abbrev pub emit_op : ℕ → List ℕ → Emitted → Emitted
emit_op opcode operands s = record {
  body = s.body ++ (u8 opcode ++ operands);
  op_count = (s.op_count + 1) % u32_mod;
}

abbrev pub is_invalid : Value → Bool
is_invalid Value.invalid = true
is_invalid _ = false

-- SetField for the fields that the after-state has.
unfoldable pub emit_fields : ℕ → List FieldChange → Emitted → Emitted
unfolding emit_value_payload
emit_fields after_id [] s = s
emit_fields after_id (fc ∷ rest) s = emit_fields after_id rest (
    if is_invalid fc.after
    then s
    else if after_id == invalid_id
    then s
    else emit_op 2 (varint after_id ++ (varint fc.field_idx ++ emit_value_payload fc.after)) s)

unfoldable pub emit_children : List ℕ → Emitted → Emitted
emit_children [] s = s
emit_children (child_name ∷ rest) s = emit_children rest (emit_op 5 (varint child_name) s)

-- A group, if there are children to add.
unfoldable pub emit_group : ℕ → List ℕ → Emitted → Emitted
unfolding emit_children
emit_group name children s =
    if is_empty children
    then s
    else emit_op 4 []
        (emit_children children (emit_op 3 (varint name ++ varint (length children)) s))

unfoldable pub emit_change : NodeChange → Emitted → Emitted
unfolding emit_fields emit_group
emit_change nc s =
    if nc.change == removed
    then if nc.before_id == invalid_id then s else emit_op 7 (varint nc.before_id) s
    else if nc.change == added
    then emit_group nc.name nc.children_added
        (emit_fields nc.after_id nc.field_changes (emit_op 1 (varint nc.kind ++ varint nc.name) s))
    else if nc.change == modified
    then emit_group nc.name nc.children_added (emit_fields nc.after_id nc.field_changes s)
    else s

unfoldable pub emit_changes : List NodeChange → Emitted → Emitted
unfolding emit_change
emit_changes [] s = s
emit_changes (nc ∷ rest) s = emit_changes rest (emit_change nc s)

unfoldable pub diff_to_journal : GraphDiff → Result (List ℕ)
unfolding emit_changes
diff_to_journal diff =
    let s = emit_changes diff.changes (record { body = []; op_count = 0 }) in
    ok (varint s.op_count ++ s.body)
