-- ===== src/Diff/Ops.antt =====
-- src/diff.cpp: the opcodes of a diff's journal.
use stratavm.Base.{
  ℕ, ◌+◌, ◌%◌, ◌<◌, ◌≡◌, refl, ap, sym, ◌∙◌, ◌==◌, if◌then◌else◌, Bool-cases, inl, inr, List, [],
  ◌∷◌, ◌++◌, length, length-append, append_assoc, append-nil, map, arith,
}
use stratavm.Status.{ok}
use stratavm.Format.{invalid_id, u32_mod}
use stratavm.Writer.{u8, varint}
use stratavm.Value.{Value}
use stratavm.Diff.{FieldChange, NodeChange, GraphDiff, added, removed, modified}
use stratavm.Diff.Codec.{emit_value_payload}
use stratavm.Diff.Journal.{
  Emitted, emit_op, is_invalid, emit_fields, emit_children, emit_group, emit_change, emit_changes,
  diff_to_journal,
}

-- What a journal says, an opcode with its operands.
pub data Op : Type 0 where
  drop_node : ℕ → Op
  new_node : ℕ → ℕ → Op
  set_field : ℕ → ℕ → Value → Op
  begin_group : ℕ → ℕ → Op
  add_child : ℕ → Op
  end_group : Op

unfoldable pub op_bytes : Op → List ℕ
op_bytes (Op.new_node kind name) = u8 1 ++ (varint kind ++ varint name)
op_bytes (Op.set_field node field v) =
    u8 2 ++ (varint node ++ (varint field ++ emit_value_payload v))
op_bytes (Op.begin_group owner hint) = u8 3 ++ (varint owner ++ varint hint)
op_bytes Op.end_group = u8 4 ++ []
op_bytes (Op.add_child name) = u8 5 ++ varint name
op_bytes (Op.drop_node node) = u8 7 ++ varint node

abbrev pub ops_bytes : List Op → List ℕ
ops_bytes [] = []
ops_bytes (op ∷ rest) = op_bytes op ++ ops_bytes rest

-- The after-states of a node that has an id.
abbrev pub field_ops : ℕ → List FieldChange → List Op
field_ops node [] = []
field_ops node (fc ∷ rest) =
    if is_invalid fc.after
    then field_ops node rest
    else if node == invalid_id
    then field_ops node rest
    else Op.set_field node fc.field_idx fc.after ∷ field_ops node rest

abbrev pub group_ops : ℕ → List ℕ → List Op
group_ops name [] = []
group_ops name (c ∷ cs) =
    Op.begin_group name (length (c ∷ cs)) ∷ (map Op.add_child (c ∷ cs) ++ Op.end_group ∷ [])

abbrev pub change_ops : NodeChange → List Op
change_ops nc =
    if nc.change == removed
    then if nc.before_id == invalid_id then [] else Op.drop_node nc.before_id ∷ []
    else if nc.change == added
    then Op.new_node nc.kind nc.name
      ∷ (field_ops nc.after_id nc.field_changes ++ group_ops nc.name nc.children_added)
    else if nc.change == modified
    then field_ops nc.after_id nc.field_changes ++ group_ops nc.name nc.children_added
    else []

abbrev pub all_ops : List NodeChange → List Op
all_ops [] = []
all_ops (nc ∷ rest) = change_ops nc ++ all_ops rest

abbrev extended : Emitted → List Op → Emitted
extended s ops = record {
  body = s.body ++ ops_bytes ops;
  op_count = (s.op_count + length ops) % u32_mod;
}

-- A step that writes the bytes of `ops` and counts them.
abbrev Writes : (Emitted → Emitted) → List Op → Type 0
Writes g ops = (s : Emitted) → s.op_count < u32_mod → g s ≡ extended s ops

ops_bytes-append : (xs ys : List Op) → ops_bytes (xs ++ ys) ≡ ops_bytes xs ++ ops_bytes ys
ops_bytes-append [] ys = refl
ops_bytes-append (x ∷ xs) ys =
    ap (λ b. op_bytes x ++ b) (ops_bytes-append xs ys)
    ∙ sym (append_assoc (op_bytes x) (ops_bytes xs) (ops_bytes ys))

then-Writes :
    (g h : Emitted → Emitted) (xs ys : List Op)
    → Writes g xs
    → Writes h ys
    → Writes (λ s. h (g s)) (xs ++ ys)
then-Writes g h xs ys p q s small = ap h (p s small) ∙ q (extended s xs) (omega arith) ∙ λ i.
    record { body = bytes i; op_count = count i }
  where
    bytes : s.body ++ ops_bytes xs ++ ops_bytes ys ≡ s.body ++ ops_bytes (xs ++ ys)
    bytes =
        append_assoc s.body (ops_bytes xs) (ops_bytes ys)
        ∙ ap (λ b. s.body ++ b) (sym (ops_bytes-append xs ys))

    count :
        ((s.op_count + length xs) % u32_mod + length ys) % u32_mod
        ≡ (s.op_count + length (xs ++ ys)) % u32_mod
    count = omega (arith, length-append xs ys)

none-Writes : Writes (λ s. s) []
none-Writes s small = λ i. record { body = sym (append-nil s.body) i; op_count = stays i }
  where
    stays : s.op_count ≡ (s.op_count + 0) % u32_mod
    stays = omega arith

one-Writes :
    (opcode : ℕ) (operands : List ℕ) (op : Op)
    → op_bytes op ≡ u8 opcode ++ operands
    → Writes (emit_op opcode operands) (op ∷ [])
one-Writes opcode operands op e s small = λ i. record {
  body = s.body ++ (sym e ∙ sym (append-nil (op_bytes op))) i;
  op_count = (s.op_count + 1) % u32_mod;
}

fields-Writes :
    (node : ℕ) (fcs : List FieldChange) → Writes (emit_fields node fcs) (field_ops node fcs)
unfolding emit_fields op_bytes
fields-Writes node [] = none-Writes
fields-Writes node (fc ∷ rest) = elim (Bool-cases (is_invalid fc.after)) [
  | inl gone ↦ rw gone (fields-Writes node rest)
  | inr there ↦ elim (Bool-cases (node == invalid_id)) [
    | inl none_such ↦ rw (there, none_such) (fields-Writes node rest)
    | inr known ↦
        rw (there, known)
          (then-Writes _ _ (Op.set_field node fc.field_idx fc.after ∷ []) (field_ops node rest)
            (one-Writes 2 _ (Op.set_field node fc.field_idx fc.after) refl)
            (fields-Writes node rest))
  ]
]

children-Writes : (cs : List ℕ) → Writes (emit_children cs) (map Op.add_child cs)
unfolding emit_children op_bytes
children-Writes [] = none-Writes
children-Writes (c ∷ cs) =
    then-Writes _ _ (Op.add_child c ∷ []) (map Op.add_child cs)
      (one-Writes 5 (varint c) (Op.add_child c) refl) (children-Writes cs)

group-Writes : (name : ℕ) (cs : List ℕ) → Writes (emit_group name cs) (group_ops name cs)
unfolding emit_group op_bytes
group-Writes name [] = none-Writes
group-Writes name (c ∷ cs) =
    then-Writes _ (λ s. emit_op 4 [] (emit_children (c ∷ cs) s))
      (Op.begin_group name (length (c ∷ cs)) ∷ []) (map Op.add_child (c ∷ cs) ++ Op.end_group ∷ [])
      (one-Writes 3 _ (Op.begin_group name (length (c ∷ cs))) refl)
      (then-Writes (emit_children (c ∷ cs)) (emit_op 4 []) (map Op.add_child (c ∷ cs))
        (Op.end_group ∷ []) (children-Writes (c ∷ cs)) (one-Writes 4 [] Op.end_group refl))

change-Writes : (nc : NodeChange) → Writes (emit_change nc) (change_ops nc)
unfolding emit_change op_bytes
change-Writes nc = elim (Bool-cases (nc.change == removed)) [
  | inl gone ↦ elim (Bool-cases (nc.before_id == invalid_id)) [
    | inl none_such ↦ rw (gone, none_such) none-Writes
    | inr known ↦
        rw (gone, known) (one-Writes 7 (varint nc.before_id) (Op.drop_node nc.before_id) refl)
  ]
  | inr stays ↦ elim (Bool-cases (nc.change == added)) [
    | inl new ↦
        rw (stays, new)
          (then-Writes _ _ (Op.new_node nc.kind nc.name ∷ []) _
            (one-Writes 1 _ (Op.new_node nc.kind nc.name) refl) rest)
    | inr old ↦ elim (Bool-cases (nc.change == modified)) [
      | inl other ↦ rw (stays, old, other) rest
      | inr same ↦ rw (stays, old, same) none-Writes
    ]
  ]
]
  where
    rest :
        Writes
          (λ s. emit_group nc.name nc.children_added (emit_fields nc.after_id nc.field_changes s))
          (field_ops nc.after_id nc.field_changes ++ group_ops nc.name nc.children_added)
    rest =
        then-Writes _ _ (field_ops nc.after_id nc.field_changes)
          (group_ops nc.name nc.children_added) (fields-Writes nc.after_id nc.field_changes)
          (group-Writes nc.name nc.children_added)

changes-Writes : (ncs : List NodeChange) → Writes (emit_changes ncs) (all_ops ncs)
unfolding emit_changes
changes-Writes [] = none-Writes
changes-Writes (nc ∷ rest) =
    then-Writes _ _ (change_ops nc) (all_ops rest) (change-Writes nc) (changes-Writes rest)

-- Every diff becomes a journal: the number of its opcodes, modulo 2^32, then the opcodes. They are,
-- change by change, a DropNode for a removed node that had an id, NewNode for an added one, SetField
-- for each field with an after-state where there is an after-id, and a group for the children added.
pub diff_to_journal-ops :
    (d : GraphDiff)
    → diff_to_journal d
      ≡ ok (varint (length (all_ops d.changes) % u32_mod) ++ ops_bytes (all_ops d.changes))
unfolding diff_to_journal
diff_to_journal-ops d =
    ap (λ s. ok (varint s.op_count ++ s.body))
      (changes-Writes d.changes (record { body = []; op_count = 0 }) (omega arith))
    ∙ ap (λ n. ok (varint n ++ ops_bytes (all_ops d.changes))) from_zero
  where
    from_zero : (0 + length (all_ops d.changes)) % u32_mod ≡ length (all_ops d.changes) % u32_mod
    from_zero = omega arith
