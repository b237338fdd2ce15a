-- ===== src/Vm/Ops.antt =====
-- src/replay_vm.cpp: the handlers of the opcodes that work outside groups.
use stratavm.Base.{
  ℕ, ◌%◌, Bool, true, false, not, ◌&&◌, ltb, leb, ◌==◌, if◌then◌else◌, List, [], ◌∷◌, ◌++◌, Option,
  none, some,
}
use stratavm.Base.Maps.{nat_eq, lookup, insert, erase}
use stratavm.Status.{
  kind_out_of_range, atom_out_of_range, limit_exceeded, node_out_of_range, field_out_of_range,
  invariant_violation, type_mismatch,
}
use stratavm.Format.{ValueType, invalid_id, u32_mod}
use stratavm.Reader.{Decoder, ◌>>=◌, ◌>>◌, return, refuse_if, or_fail, lift, read_varint_u32}
use stratavm.Value.{Value}
use stratavm.Value
use stratavm.Atoms.{get, lacks}
use stratavm.Schema.{kind, field_type}
use stratavm.Node.{Node, fresh, set_field}
use stratavm.Table
use stratavm.Vm.State.{
  ReplayVm, Context, Snapshot, inc, node_count, node_at, put_node, register_name, find_named,
}

-- `nodes_.push_back`
abbrev pub push_node : Context → Node → ReplayVm → ReplayVm
push_node c n vm = record vm { nodes = Table.push_back c.alloc n vm.nodes }

-- What `do_new_node` does once its operands are in order.
unfoldable pub create_node : Context → ℕ → ℕ → ReplayVm → ReplayVm
unfolding register_name
create_node c kind_id name vm =
    let id = node_count vm % u32_mod in
    let vm' = push_node c (record fresh { id = id; kind = kind_id; name = name }) vm in
    let vm'' = register_name name id vm' in
    record vm'' { stats = record (vm.stats) { nodes_created = inc vm.stats.nodes_created } }

unfoldable pub do_new_node : Context → ReplayVm → Decoder ReplayVm
do_new_node c vm = do
  kind_id ← read_varint_u32
  name ← read_varint_u32
  _ ← or_fail (kind c.schema kind_id) kind_out_of_range
  refuse_if (lacks c.atoms name) atom_out_of_range
  refuse_if (leb c.limits.max_nodes (node_count vm)) limit_exceeded
  return (create_node c kind_id name vm)

is_invalid : ValueType → Bool
is_invalid ValueType.invalid = true
is_invalid _ = false

-- The targets of a reference-bearing value.
abbrev pub targets_of : Value → List ℕ
targets_of (Value.ref t) = t ∷ []
targets_of (Value.list items) = items
targets_of _ = []

-- In-range targets become edges; the others are only counted. `kInvalidNode` is tested apart for a
-- single reference.
abbrev pub is_edge : Value → ℕ → ℕ → Bool
is_edge (Value.ref t) count target = not (target == invalid_id) && ltb target count
is_edge _ count target = ltb target count

unfoldable pub edges : Value → ℕ → List ℕ → List ℕ
edges v count [] = []
edges v count (t ∷ rest) =
    let more = edges v count rest in if is_edge v count t then t ∷ more else more

unfoldable pub count_unresolved : Value → ℕ → List ℕ → ℕ → ℕ
count_unresolved v count [] n = n
count_unresolved v count (t ∷ rest) n =
    count_unresolved v count rest (if is_edge v count t then n else inc n)

-- What `do_set_field` does once the node is known to be alive.
unfoldable pub store_field : ℕ → Node → ℕ → Value → ReplayVm → ReplayVm
unfolding edges count_unresolved
store_field node_id node field_idx v vm =
    let node' = record node { refs = node.refs ++ edges v (node_count vm) (targets_of v) } in
    let vm' = put_node node_id (set_field field_idx v node') vm in
    let unresolved = count_unresolved v (node_count vm) (targets_of v) vm.stats.unresolved_refs in
    record vm' { stats = record (vm.stats) { unresolved_refs = unresolved } }

unfoldable pub do_set_field : Context → ReplayVm → Decoder ReplayVm
unfolding is_invalid
do_set_field c vm = do
  node_id ← read_varint_u32
  field_idx ← read_varint_u32
  refuse_if (leb (node_count vm) node_id) node_out_of_range
  typed ← lift (node_at vm node_id)
  let vt = field_type c.schema typed.kind field_idx
  refuse_if (is_invalid vt) field_out_of_range
  v ← Value.decode c.limits vt
  node ← lift (node_at vm node_id)
  refuse_if (not node.alive) invariant_violation
  return (store_field node_id node field_idx v vm)

is_ref : ValueType → Bool
is_ref ValueType.ref = true
is_ref _ = false

unfoldable pub link_target : ℕ → Node → ℕ → ℕ → ReplayVm → ReplayVm
link_target src node field_idx target vm =
    if target == invalid_id
    then record vm { stats = record (vm.stats) { unresolved_refs = inc vm.stats.unresolved_refs } }
    else put_node src
        (record node {
          fields = insert field_idx (Value.ref target) node.fields;
          refs = node.refs ++ target ∷ [];
        })
        vm

unfoldable pub do_link_ref : Context → ReplayVm → Decoder ReplayVm
unfolding is_ref
do_link_ref c vm = do
  src ← read_varint_u32
  field_idx ← read_varint_u32
  target_atom ← read_varint_u32
  refuse_if (leb (node_count vm) src) node_out_of_range
  node ← lift (node_at vm src)
  refuse_if (not (is_ref (field_type c.schema node.kind field_idx))) type_mismatch
  return (link_target src node field_idx (find_named vm target_atom) vm)

abbrev pub is_at : ℕ → Option ℕ → Bool
is_at node_id none = false
is_at node_id (some id) = id == node_id

-- `if (it != end && it->second == node_id) erase(it)`, for a node that has a name.
unfoldable pub forget_name : ℕ → ℕ → ReplayVm → ReplayVm
forget_name name node_id vm = record vm {
  name_index =
      if not (name == invalid_id) && is_at node_id (lookup name vm.name_index)
      then erase name vm.name_index
      else vm.name_index;
}

unfoldable pub drop_node : ℕ → Node → ReplayVm → ReplayVm
unfolding forget_name
drop_node node_id node vm =
    let dead = record node { alive = false; generation = inc node.generation } in
    let vm' = forget_name node.name node_id (put_node node_id dead vm) in
    record vm' {
      free_list = vm.free_list ++ node_id ∷ [];
      stats = record (vm.stats) { nodes_dropped = inc vm.stats.nodes_dropped };
    }

unfoldable pub do_drop_node : ReplayVm → Decoder ReplayVm
do_drop_node vm = do
  node_id ← read_varint_u32
  refuse_if (leb (node_count vm) node_id) node_out_of_range
  node ← lift (node_at vm node_id)
  return (if node.alive then drop_node node_id node vm else vm)

unfoldable pub count_alive : List Node → ℕ → ℕ
count_alive [] n = n
count_alive (node ∷ rest) n = count_alive rest (if node.alive then inc n else n)

unfoldable pub take_snapshot : ℕ → ReplayVm → ReplayVm
unfolding count_alive
take_snapshot label vm = record vm {
  snapshots = vm.snapshots ++ snap ∷ [];
  stats = record (vm.stats) { snapshot_count = inc vm.stats.snapshot_count };
}
  where
    snap : Snapshot
    snap = record {
      label = label;
      node_count = node_count vm % u32_mod;
      alive_count = count_alive vm.nodes.items 0;
    }

unfoldable pub do_snapshot : Context → ReplayVm → Decoder ReplayVm
do_snapshot c vm = do
  label ← read_varint_u32
  refuse_if (lacks c.atoms label) atom_out_of_range
  return (take_snapshot label vm)

unfoldable pub do_set_meta : Context → ReplayVm → Decoder ReplayVm
do_set_meta c vm = do
  key ← read_varint_u32
  value ← read_varint_u32
  _ ← or_fail (get c.atoms key) atom_out_of_range
  refuse_if (lacks c.atoms value) atom_out_of_range
  return (record vm { metadata = insert key value vm.metadata })
