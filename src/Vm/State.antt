-- ===== src/Vm/State.antt =====
-- include/stratavm/replay_vm.hpp: the machine's state, and access to its node table.
use stratavm.Base.{ℕ, ◌+◌, ◌%◌, ◌==◌, if◌then◌else◌, List, [], ◌∷◌, length, Option, none, some}
use stratavm.Base.Maps.{Map, nat_eq, lookup, insert}
use stratavm.Status.{Result, ok, fault, out_of_range, dangling}
use stratavm.Format.{Limits, invalid_id, u32_mod}
use stratavm.Atoms.{AtomPool}
use stratavm.Schema.{Schema}
use stratavm.Node.{Node}
use stratavm.Table
use stratavm.Table.{Allocator, Table, Pointer}

pub record Snapshot : Type 0 where
  pub label : ℕ
  pub node_count : ℕ
  pub alive_count : ℕ

pub record GroupFrame : Type 0 where
  pub owner_id : ℕ
  pub owner_cache : Pointer
  pub owner_name : ℕ
  pub reserve_hint : ℕ
  pub deferred_children : List ℕ

pub record ReplayStats : Type 0 where
  pub ops_executed : ℕ
  pub nodes_created : ℕ
  pub placeholders : ℕ
  pub nodes_dropped : ℕ
  pub children_linked : ℕ
  pub unresolved_refs : ℕ
  pub snapshot_count : ℕ

pub record ReplayVm : Type 0 where
  pub nodes : Table Node
  pub name_index : Map ℕ ℕ
  pub frames : List GroupFrame
  pub free_list : List ℕ
  pub snapshots : List Snapshot
  pub metadata : Map ℕ ℕ
  pub stats : ReplayStats

-- The references that the constructor takes, and the allocator behind `nodes_`.
pub record Context : Type 0 where
  pub alloc : Allocator
  pub schema : Schema
  pub atoms : AtomPool
  pub limits : Limits

abbrev pub no_stats : ReplayStats
no_stats = record {
  ops_executed = 0;
  nodes_created = 0;
  placeholders = 0;
  nodes_dropped = 0;
  children_linked = 0;
  unresolved_refs = 0;
  snapshot_count = 0;
}

abbrev pub initial : ReplayVm
initial = record {
  nodes = Table.empty;
  name_index = [];
  frames = [];
  free_list = [];
  snapshots = [];
  metadata = [];
  stats = no_stats;
}

-- `++` on a uint32_t.
abbrev pub inc : ℕ → ℕ
inc n = (n + 1) % u32_mod

abbrev pub count_op : ReplayVm → ReplayVm
count_op vm = record vm { stats = record (vm.stats) { ops_executed = inc vm.stats.ops_executed } }

abbrev pub node_count : ReplayVm → ℕ
node_count vm = length vm.nodes.items

-- `nodes_[i]`
abbrev pub node_in : Option Node → Result Node
node_in none = fault out_of_range
node_in (some n) = ok n

unfoldable pub node_at : ReplayVm → ℕ → Result Node
node_at vm i = node_in (Table.at vm.nodes i)

-- `nodes_[i] = n` for an index that was read.
abbrev pub put_node : ℕ → Node → ReplayVm → ReplayVm
put_node i n vm = record vm { nodes = Table.put i n vm.nodes }

-- `*p`, good only while the elements are where they were when `p` was taken.
unfoldable pub deref : ReplayVm → Pointer → Result Node
unfolding node_at
deref vm p = if p.block == vm.nodes.block then node_at vm p.offset else fault dangling

abbrev pub id_or_invalid : Option ℕ → ℕ
id_or_invalid none = invalid_id
id_or_invalid (some id) = id

unfoldable pub find_named : ReplayVm → ℕ → ℕ
find_named vm name = id_or_invalid (lookup name vm.name_index)

abbrev pub registered : ℕ → ℕ → Map ℕ ℕ → Map ℕ ℕ
registered name id index = if name == invalid_id then index else insert name id index

unfoldable pub register_name : ℕ → ℕ → ReplayVm → ReplayVm
register_name name id vm = record vm { name_index = registered name id vm.name_index }

unfoldable pub index_names : List Node → Map ℕ ℕ → Map ℕ ℕ
index_names [] index = index
index_names (n ∷ rest) index = index_names rest (registered n.name n.id index)

-- The heap's storage becomes the table's; pointers into the old table are left behind.
unfoldable pub seed : Table Node → ReplayVm → ReplayVm
unfolding index_names
seed heap vm = record vm {
  nodes = record heap { block = vm.nodes.block + 1 };
  name_index = index_names heap.items [];
  stats = record (vm.stats) { nodes_created = length heap.items % u32_mod };
}
