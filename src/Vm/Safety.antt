-- ===== src/Vm/Safety.antt =====
-- The handlers outside groups of src/replay_vm.cpp, on arbitrary operands.
use stratavm.Base.{
  ℕ, suc, ◌%◌, ◌≤◌, ◌<◌, ◌≡◌, refl, sym, Bool, true, false, not, leb, ◌==◌, if◌then◌else◌,
  Bool-cases, inl, inr, List, [], ◌∷◌, ◌++◌, get_elem?, get_elem?-lt, All, All-append, All-get,
  Option, none, some, arith, subst, append-nil,
}
use stratavm.Base.Maps.{Map, nat_eq, lookup, lookup-insert, lookup-erase}
use stratavm.Status.{
  Ensures, returns, kind_out_of_range, atom_out_of_range, limit_exceeded, node_out_of_range,
  field_out_of_range, invariant_violation, type_mismatch,
}
use stratavm.Format.{invalid_id, u32_mod}
use stratavm.Reader.Bounds.{Safe, bind-Safe, return-Safe, refuse_if-Safe, or_fail-Safe}
use stratavm.Reader.Words.{read_varint_u32-Safe}
use stratavm.Reader.Tame.{lift-Safe}
use stratavm.Value.{Value}
use stratavm.Value.Safety.{decode-Safe}
use stratavm.Atoms.{get, lacks}
use stratavm.Schema.{kind, field_type}
use stratavm.Node.{Node}
use stratavm.Table
use stratavm.Vm.State.{
  ReplayVm, Context, node_count, node_at, node_in, inc, registered, find_named, id_or_invalid,
  put_node,
}
use stratavm.Vm.Ops.{
  create_node, do_new_node, is_edge, edges, store_field, do_set_field, link_target, do_link_ref,
  forget_name, drop_node, do_drop_node, take_snapshot, do_snapshot, do_set_meta,
}
use stratavm.Vm.Kept.{Below, NodeOk, IsInRange, KeptVm, Kept-refl, set-Kept, push-Kept}

pub registered-names :
    (name id n k : ℕ) (index : Map ℕ ℕ)
    → ((j i : ℕ) → lookup j index ≡ some i → i < n)
    → n ≤ k
    → id < k
    → (j i : ℕ) → lookup j (registered name id index) ≡ some i
    → i < k
registered-names name id n k index h le new j i =
    ground (arith, lookup-insert name j id index, h j i)

pub fresh-NodeOk :
    (n count : ℕ) (x : Node)
    → count ≡ suc n
    → x.id ≡ n % u32_mod
    → x.refs ≡ []
    → x.children ≡ []
    → NodeOk count x
fresh-NodeOk n count x e i r c = record {
  id_ok = omega arith;
  refs_ok = subst (All (Below count)) (sym r) tt;
  children_ok = subst (All (Below count)) (sym c) tt;
}

create_node-Kept :
    (c : Context) (kind_id name : ℕ) (vm : ReplayVm)
    → IsInRange vm
    → KeptVm 1 vm (create_node c kind_id name vm)
unfolding create_node Table.push_back
create_node-Kept c kind_id name vm h =
    push-Kept vm.nodes.items vm.name_index _ vm.frames _ h
      (fresh-NodeOk (node_count vm) _ _ refl refl refl refl)
      (registered-names name (node_count vm % u32_mod) (node_count vm) _ vm.name_index h.names_ok
        (omega arith) (omega arith))

pub do_new_node-Safe :
    (c : Context) (vm : ReplayVm) → IsInRange vm → Safe (do_new_node c vm) (KeptVm 1 vm)
unfolding do_new_node
do_new_node-Safe c vm h = bind-Safe read_varint_u32-Safe λ kind_id _.
    bind-Safe read_varint_u32-Safe λ name _.
      bind-Safe (or_fail-Safe (kind c.schema kind_id) kind_out_of_range) λ _ _.
        bind-Safe (refuse_if-Safe (lacks c.atoms name) atom_out_of_range) λ _ _.
          bind-Safe (refuse_if-Safe (leb c.limits.max_nodes (node_count vm)) limit_exceeded)
            λ _ _. return-Safe _ (create_node-Kept c kind_id name vm h)

pub leb→lt : (a b : ℕ) → leb a b ≡ false → b < a
leb→lt a b h = ground arith

node_in-Ensures : (o : Option Node) (n : Node) → o ≡ some n → Ensures (λ m. o ≡ some m) (node_in o)
node_in-Ensures none n e = cc
node_in-Ensures (some m) n e = returns refl

-- `nodes_[i]` in range.
pub node_at-Ensures :
    (vm : ReplayVm) (i : ℕ)
    → i < node_count vm
    → Ensures (λ n. get_elem? vm.nodes.items i ≡ some n) (node_at vm i)
unfolding node_at
node_at-Ensures vm i h =
    let (n, e) = get_elem?-lt vm.nodes.items i h in node_in-Ensures (get_elem? vm.nodes.items i) n e

is_edge-lt : (v : Value) (count t : ℕ) → is_edge v count t ≡ true → t < count
is_edge-lt (Value.ref w) count t h = ground arith
is_edge-lt (Value.int w) count t h = ground arith
is_edge-lt (Value.float w) count t h = ground arith
is_edge-lt (Value.atom w) count t h = ground arith
is_edge-lt (Value.list w) count t h = ground arith
is_edge-lt Value.invalid count t h = ground arith

edges-Below : (v : Value) (count : ℕ) (ts : List ℕ) → All (Below count) (edges v count ts)
unfolding edges
edges-Below v count [] = tt
edges-Below v count (t ∷ rest) = elim (Bool-cases (is_edge v count t)) [
  | inl edge ↦ rw edge (is_edge-lt v count t edge, edges-Below v count rest)
  | inr other ↦ rw other (edges-Below v count rest)
]

-- A node that gains in-range edges.
pub add_refs-NodeOk :
    (count : ℕ) (n n' : Node) (ts : List ℕ)
    → NodeOk count n
    → All (Below count) ts
    → n'.id ≡ n.id
    → n'.refs ≡ n.refs ++ ts
    → n'.children ≡ n.children
    → NodeOk count n'
add_refs-NodeOk count n n' ts h fine i r c = record {
  id_ok = omega (arith, h.id_ok);
  refs_ok = subst (All (Below count)) (sym r) (All-append (Below count) n.refs ts h.refs_ok fine);
  children_ok = subst (All (Below count)) (sym c) h.children_ok;
}

store_field-Kept :
    (node_id : ℕ) (node : Node) (field_idx : ℕ) (v : Value) (vm : ReplayVm)
    → IsInRange vm
    → get_elem? vm.nodes.items node_id ≡ some node
    → KeptVm 1 vm (store_field node_id node field_idx v vm)
unfolding store_field
store_field-Kept node_id node field_idx v vm h e =
    set-Kept 1 vm.nodes.items vm.name_index vm.frames node_id node _ h e
      (record {
        same_id = refl;
        same_kind = refl;
        same_name = refl;
        same_placeholder = refl;
        stays_dead = λ d. d;
      })
      (add_refs-NodeOk (node_count vm) node _ _
        (All-get (NodeOk (node_count vm)) vm.nodes.items node_id h.nodes_ok e)
        (edges-Below v (node_count vm) _) refl refl refl)

pub do_set_field-Safe :
    (c : Context) (vm : ReplayVm) → IsInRange vm → Safe (do_set_field c vm) (KeptVm 1 vm)
unfolding do_set_field
do_set_field-Safe c vm h = bind-Safe read_varint_u32-Safe λ node_id _.
    bind-Safe read_varint_u32-Safe λ field_idx _.
      bind-Safe (refuse_if-Safe (leb (node_count vm) node_id) node_out_of_range) λ _ small.
        bind-Safe (lift-Safe (node_at-Ensures vm node_id (leb→lt _ _ small))) λ typed _.
          bind-Safe (refuse_if-Safe _ field_out_of_range) λ _ _.
            bind-Safe (decode-Safe c.limits (field_type c.schema typed.kind field_idx)) λ v _.
              bind-Safe (lift-Safe (node_at-Ensures vm node_id (leb→lt _ _ small))) λ node e.
                bind-Safe (refuse_if-Safe (not node.alive) invariant_violation)
                  λ _ _. return-Safe _ (store_field-Kept node_id node field_idx v vm h e)

pub find_named-lt :
    (vm : ReplayVm) (name : ℕ)
    → IsInRange vm
    → (find_named vm name == invalid_id) ≡ false
    → find_named vm name < node_count vm
unfolding find_named
find_named-lt vm name h known =
    ground (arith, h.names_ok name (id_or_invalid (lookup name vm.name_index)))

link_target-Kept :
    (src : ℕ) (node : Node) (field_idx target : ℕ) (vm : ReplayVm)
    → IsInRange vm
    → get_elem? vm.nodes.items src ≡ some node
    → ((target == invalid_id) ≡ false → target < node_count vm)
    → KeptVm 1 vm (link_target src node field_idx target vm)
unfolding link_target
link_target-Kept src node field_idx target vm h e known = elim (Bool-cases (target == invalid_id)) [
  | inl unknown ↦ rw unknown (Kept-refl 1 vm h)
  | inr found ↦ rw found (
      set-Kept 1 vm.nodes.items vm.name_index vm.frames src node _ h e
        (record {
          same_id = refl;
          same_kind = refl;
          same_name = refl;
          same_placeholder = refl;
          stays_dead = λ d. d;
        })
        (add_refs-NodeOk (node_count vm) node _ (target ∷ [])
          (All-get (NodeOk (node_count vm)) vm.nodes.items src h.nodes_ok e) (known found, tt) refl
          refl refl))
]

pub do_link_ref-Safe :
    (c : Context) (vm : ReplayVm) → IsInRange vm → Safe (do_link_ref c vm) (KeptVm 1 vm)
unfolding do_link_ref
do_link_ref-Safe c vm h = bind-Safe read_varint_u32-Safe λ src _.
    bind-Safe read_varint_u32-Safe λ field_idx _. bind-Safe read_varint_u32-Safe λ target_atom _.
      bind-Safe (refuse_if-Safe (leb (node_count vm) src) node_out_of_range) λ _ small.
        bind-Safe (lift-Safe (node_at-Ensures vm src (leb→lt _ _ small))) λ node e.
          bind-Safe (refuse_if-Safe _ type_mismatch) λ _ _.
            return-Safe _
              (link_target-Kept src node field_idx _ vm h e (find_named-lt vm target_atom h))

-- Forgetting a name leaves no new one.
forget_name-names :
    (name node_id : ℕ) (vm : ReplayVm) (n : ℕ)
    → ((j i : ℕ) → lookup j vm.name_index ≡ some i → i < n)
    → (j i : ℕ) → lookup j (forget_name name node_id vm).name_index ≡ some i
    → i < n
unfolding forget_name
forget_name-names name node_id vm n h j i = ground (arith, lookup-erase name j vm.name_index, h j i)

drop_node-Kept :
    (node_id : ℕ) (node : Node) (vm : ReplayVm)
    → IsInRange vm
    → get_elem? vm.nodes.items node_id ≡ some node
    → KeptVm 1 vm (drop_node node_id node vm)
unfolding drop_node
drop_node-Kept node_id node vm h e = record {
  in_range = record {
    nodes_ok = set.in_range.nodes_ok;
    names_ok =
        forget_name-names node.name node_id (put_node node_id dead vm) _ set.in_range.names_ok;
    frames_ok = set.in_range.frames_ok;
  };
  evolved = set.evolved;
  budget = set.budget;
}
  where
    dead : Node
    dead = record node { alive = false; generation = inc node.generation }

    set : KeptVm 1 vm (put_node node_id dead vm)
    set =
        set-Kept 1 vm.nodes.items vm.name_index vm.frames node_id node dead h e
          (record {
            same_id = refl;
            same_kind = refl;
            same_name = refl;
            same_placeholder = refl;
            stays_dead = λ _. refl;
          })
          (add_refs-NodeOk (node_count vm) node dead []
            (All-get (NodeOk (node_count vm)) vm.nodes.items node_id h.nodes_ok e) tt refl
            (sym (append-nil node.refs)) refl)

drop_if-Kept :
    (test : Bool) (node_id : ℕ) (node : Node) (vm : ReplayVm)
    → IsInRange vm
    → get_elem? vm.nodes.items node_id ≡ some node
    → KeptVm 1 vm (if test then drop_node node_id node vm else vm)
drop_if-Kept true node_id node vm h e = drop_node-Kept node_id node vm h e
drop_if-Kept false node_id node vm h e = Kept-refl 1 vm h

pub do_drop_node-Safe : (vm : ReplayVm) → IsInRange vm → Safe (do_drop_node vm) (KeptVm 1 vm)
unfolding do_drop_node
do_drop_node-Safe vm h = bind-Safe read_varint_u32-Safe λ node_id _.
    bind-Safe (refuse_if-Safe (leb (node_count vm) node_id) node_out_of_range) λ _ small.
      bind-Safe (lift-Safe (node_at-Ensures vm node_id (leb→lt _ _ small)))
        λ node e. return-Safe _ (drop_if-Kept node.alive node_id node vm h e)

pub do_snapshot-Safe :
    (c : Context) (vm : ReplayVm) → IsInRange vm → Safe (do_snapshot c vm) (KeptVm 1 vm)
unfolding do_snapshot take_snapshot
do_snapshot-Safe c vm h = bind-Safe read_varint_u32-Safe λ label _.
    bind-Safe (refuse_if-Safe (lacks c.atoms label) atom_out_of_range)
      λ _ _. return-Safe _ (Kept-refl 1 vm h)

pub do_set_meta-Safe :
    (c : Context) (vm : ReplayVm) → IsInRange vm → Safe (do_set_meta c vm) (KeptVm 1 vm)
unfolding do_set_meta
do_set_meta-Safe c vm h = bind-Safe read_varint_u32-Safe λ key _.
    bind-Safe read_varint_u32-Safe λ value _.
      bind-Safe (or_fail-Safe (get c.atoms key) atom_out_of_range) λ _ _.
        bind-Safe (refuse_if-Safe (lacks c.atoms value) atom_out_of_range)
          λ _ _. return-Safe _ (Kept-refl 1 vm h)
