-- ===== src/Vm/Groups.antt =====
-- src/replay_vm.cpp: the construction stack of groups, and the loop that runs the journal.
use stratavm.Base.{
  ℕ, zero, suc, ◌+◌, ◌%◌, Bool, true, false, not, ◌||◌, ltb, leb, ◌==◌, if◌then◌else◌, List, [],
  ◌∷◌, ◌++◌, length,
}
use stratavm.Status.{
  Result, ok, err, group_overflow, unresolved_ref, invariant_violation, group_underflow,
  atom_out_of_range, limit_exceeded, bad_opcode,
}
use stratavm.Status.{◌>>=◌ as ◌>>>=◌}
use stratavm.Format.{OpCode, invalid_id, u32_mod, is_valid_opcode, opcode_of}
use stratavm.Reader.{Decoder, ◌>>=◌, ◌>>◌, return, refuse_if, lift, read_u8, read_varint_u32}
use stratavm.Atoms.{lacks}
use stratavm.Node.{fresh}
use stratavm.Table
use stratavm.Table.{Pointer}
use stratavm.Vm.State.{
  ReplayVm, Context, GroupFrame, inc, node_count, node_at, put_node, deref, register_name,
  find_named, count_op,
}
use stratavm.Vm.Ops.{
  push_node, do_new_node, do_set_field, do_link_ref, do_drop_node, do_snapshot, do_set_meta,
}

unfoldable pub open_group : Context → ℕ → ℕ → ℕ → ReplayVm → ReplayVm
open_group c owner_id owner_name hint vm =
    let nodes' = Table.reserve c.alloc (node_count vm + hint) vm.nodes in
    let frame : GroupFrame = record {
      owner_id = owner_id;
      owner_cache = record { block = nodes'.block; offset = owner_id };
      owner_name = owner_name;
      reserve_hint = hint;
      deferred_children = [];
    } in
    record vm { nodes = nodes'; frames = frame ∷ vm.frames }

unfoldable pub do_begin_group : Context → ReplayVm → Decoder ReplayVm
do_begin_group c vm = do
  owner_name ← read_varint_u32
  hint ← read_varint_u32
  refuse_if (leb c.limits.max_group_depth (length vm.frames)) group_overflow
  let owner_id = find_named vm owner_name
  refuse_if (owner_id == invalid_id || leb (node_count vm) owner_id) unresolved_ref
  owner ← lift (node_at vm owner_id)
  refuse_if (not owner.alive) invariant_violation
  return (open_group c owner_id owner_name hint vm)

abbrev pub queue_child : ℕ → List GroupFrame → Result (List GroupFrame)
queue_child name [] = err group_underflow
queue_child name (f ∷ rest) =
    ok (record f { deferred_children = f.deferred_children ++ name ∷ [] } ∷ rest)

unfoldable pub do_add_child : Context → ReplayVm → Decoder ReplayVm
do_add_child c vm = do
  child_name ← read_varint_u32
  frames' ← lift (queue_child child_name vm.frames)
  refuse_if (lacks c.atoms child_name) atom_out_of_range
  return (record vm { frames = frames' })

unfoldable pub materialize_placeholder : Context → ℕ → ReplayVm → ReplayVm
unfolding register_name
materialize_placeholder c name vm =
    let id = node_count vm % u32_mod in
    let node = record fresh { id = id; name = name; placeholder = true } in
    let vm' = register_name name id (push_node c node vm) in
    record vm' { stats = record (vm.stats) { placeholders = inc vm.stats.placeholders } }

-- The node that a child's name stands for, made if need be.
unfoldable pub resolve_name : Context → ℕ → ReplayVm → ReplayVm × ℕ
unfolding materialize_placeholder
resolve_name c name vm =
    if find_named vm name == invalid_id
    then (materialize_placeholder c name vm, node_count vm % u32_mod)
    else (vm, find_named vm name)

-- `owner->children.push_back(target); nodes_[target].refs.push_back(owner->id);`
unfoldable pub link_child : Pointer → ℕ → ReplayVm → Result ReplayVm
link_child owner target vm = deref vm owner >>>= λ o.
    let vm' = put_node owner.offset (record o { children = o.children ++ target ∷ [] }) vm in
    node_at vm' target >>>= λ t. deref vm' owner >>>= λ o'.
    let vm'' = put_node target (record t { refs = t.refs ++ o'.id ∷ [] }) vm' in
    ok
      (record vm'' { stats = record (vm.stats) { children_linked = inc vm.stats.children_linked } })

unfoldable pub resolve_children : Context → Pointer → List ℕ → ReplayVm → Result ReplayVm
resolve_children c owner [] vm = ok vm
resolve_children c owner (name ∷ rest) vm =
    let (vm', target) = resolve_name c name vm in
    link_child owner target vm' >>>= λ vm''. resolve_children c owner rest vm''

unfoldable pub resolve_frame : Context → GroupFrame → ReplayVm → Result ReplayVm
unfolding resolve_children
resolve_frame c frame vm = resolve_children c frame.owner_cache frame.deferred_children vm

abbrev pub end_top : Context → List GroupFrame → ReplayVm → Result ReplayVm
end_top c [] vm = err group_underflow
end_top c (frame ∷ rest) vm = resolve_frame c frame (record vm { frames = rest })

unfoldable pub do_end_group : Context → ReplayVm → Result ReplayVm
do_end_group c vm = end_top c vm.frames vm

unfoldable pub execute : Context → OpCode → ReplayVm → Decoder ReplayVm
execute c OpCode.new_node vm = do_new_node c vm
execute c OpCode.set_field vm = do_set_field c vm
execute c OpCode.begin_group vm = do_begin_group c vm
execute c OpCode.end_group vm = lift (do_end_group c vm)
execute c OpCode.add_child vm = do_add_child c vm
execute c OpCode.link_ref vm = do_link_ref c vm
execute c OpCode.drop_node vm = do_drop_node vm
execute c OpCode.snapshot vm = do_snapshot c vm
execute c OpCode.set_meta vm = do_set_meta c vm
execute c OpCode.nop vm = return vm

-- One round of the loop of `run`.
unfoldable pub step : Context → ReplayVm → Decoder ReplayVm
step c vm = do
  raw ← read_u8
  refuse_if (not (is_valid_opcode raw)) bad_opcode
  vm' ← execute c (opcode_of raw) vm
  return (count_op vm')

unfoldable pub run_ops : Context → ℕ → ReplayVm → Decoder ReplayVm
run_ops c zero vm = return vm
run_ops c (suc rounds) vm = do vm' ← step c vm; run_ops c rounds vm'

abbrev pub has_frames : List GroupFrame → Bool
has_frames [] = false
has_frames (f ∷ rest) = true

unfoldable pub run : Context → ReplayVm → Decoder ReplayVm
run c vm = do
  op_count ← read_varint_u32
  refuse_if (ltb c.limits.max_journal_ops op_count) limit_exceeded
  vm' ← run_ops c op_count vm
  refuse_if (has_frames vm'.frames) group_underflow
  return vm'
