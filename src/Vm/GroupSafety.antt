-- ===== src/Vm/GroupSafety.antt =====
-- src/replay_vm.cpp: groups and the journal's loop on arbitrary bytes.
use stratavm.Base.{
  ℕ, zero, suc, ◌%◌, ◌<◌, ◌≡◌, refl, Bool, false, not, ◌||◌, ltb, leb, ◌==◌, Bool-cases, inl, inr,
  ltb→le, List, [], ◌∷◌, ◌++◌, length, length-append, length-set, get_elem?, get_elem?-lt,
  lt_of_get_elem?, some, All-append, All-get, arith,
}
use stratavm.Status.{
  Ensures, returns, refuses, Contained, gives, declines, dangles, bind-Contained, Ensures-Contained,
  Contained-imp, group_overflow, unresolved_ref, invariant_violation, group_underflow,
  atom_out_of_range, limit_exceeded, bad_opcode,
}
use stratavm.Format.{OpCode, invalid_id, u32_mod, is_valid_opcode, opcode_of}
use stratavm.Reader.Bounds.{Safe, bind-Safe, return-Safe, refuse_if-Safe, read_u8-Safe}
use stratavm.Reader.Words.{read_varint_u32-Safe}
use stratavm.Reader.Tame.{Tame, Safe-Tame, bind-Tame, Tame-imp, lift-Tame, lift-Safe}
use stratavm.Atoms.{lacks}
use stratavm.Node.{Node}
use stratavm.Table
use stratavm.Table.{Pointer}
use stratavm.Vm.{
  ReplayVm, Context, GroupFrame, node_count, put_node, deref, find_named, open_group,
  do_begin_group, queue_child, do_add_child, materialize_placeholder, resolve_name, link_child,
  resolve_children, resolve_frame, do_end_group, end_top, count_op, execute, step, run_ops, run,
  has_frames,
}
use stratavm.Vm.Kept.{
  Below, NodeOk, InRange, IsInRange, Evolved, Kept, KeptVm, Kept-refl, Kept-trans, Kept-mono,
  set-Kept, push-Kept,
}
use stratavm.Vm.Safety.{
  registered-names, fresh-NodeOk, node_at-Ensures, find_named-lt, leb→lt, add_refs-NodeOk,
  do_new_node-Safe, do_set_field-Safe, do_link_ref-Safe, do_drop_node-Safe, do_snapshot-Safe,
  do_set_meta-Safe,
}

open_group-Kept :
    (c : Context) (owner_id owner_name hint : ℕ) (vm : ReplayVm)
    → IsInRange vm
    → owner_id < node_count vm
    → KeptVm 1 vm (open_group c owner_id owner_name hint vm)
unfolding open_group Table.reserve
open_group-Kept c owner_id owner_name hint vm h small = record {
  in_range = record {
    nodes_ok = h.nodes_ok;
    names_ok = h.names_ok;
    frames_ok = (small, h.frames_ok);
  };
  evolved = (Kept-refl 1 vm h).evolved;
  budget = omega arith;
}

known-false : (a b : Bool) → (a || b) ≡ false → (a ≡ false) × (b ≡ false)
known-false a b h = ground arith

do_begin_group-Safe :
    (c : Context) (vm : ReplayVm) → IsInRange vm → Safe (do_begin_group c vm) (KeptVm 1 vm)
unfolding do_begin_group
do_begin_group-Safe c vm h = bind-Safe read_varint_u32-Safe λ owner_name _.
    bind-Safe read_varint_u32-Safe λ hint _.
      bind-Safe (refuse_if-Safe (leb c.limits.max_group_depth (length vm.frames)) group_overflow)
        λ _ _. bind-Safe (refuse_if-Safe _ unresolved_ref) λ _ known.
          bind-Safe
            (lift-Safe (
              node_at-Ensures vm (find_named vm owner_name) (leb→lt _ _ (known-false _ _ known).1)))
            λ owner _. bind-Safe (refuse_if-Safe (not owner.alive) invariant_violation) λ _ _.
              return-Safe _
                (open_group-Kept c _ owner_name hint vm h (leb→lt _ _ (known-false _ _ known).1))

queue_child-Ensures :
    (name : ℕ) (vm : ReplayVm) (frames : List GroupFrame)
    → InRange vm.nodes.items vm.name_index frames
    → Ensures
        (λ frames'. Kept 1 vm.nodes.items frames vm.nodes.items vm.name_index frames')
        (queue_child name frames)
queue_child-Ensures name vm [] h = refuses
queue_child-Ensures name vm (f ∷ rest) h = returns (record {
  in_range = record { nodes_ok = h.nodes_ok; names_ok = h.names_ok; frames_ok = h.frames_ok };
  evolved = (Kept-refl 1 (record vm { frames = f ∷ rest }) h).evolved;
  budget = omega (arith, length-append f.deferred_children (name ∷ []));
})

do_add_child-Safe :
    (c : Context) (vm : ReplayVm) → IsInRange vm → Safe (do_add_child c vm) (KeptVm 1 vm)
unfolding do_add_child
do_add_child-Safe c vm h = bind-Safe read_varint_u32-Safe λ child_name _.
    bind-Safe (lift-Safe (queue_child-Ensures child_name vm vm.frames h)) λ frames' k.
      bind-Safe (refuse_if-Safe (lacks c.atoms child_name) atom_out_of_range) λ _ _. return-Safe _ k

materialize_placeholder-Kept :
    (c : Context) (name : ℕ) (vm : ReplayVm)
    → IsInRange vm
    → KeptVm 1 vm (materialize_placeholder c name vm)
unfolding materialize_placeholder Table.push_back
materialize_placeholder-Kept c name vm h =
    push-Kept vm.nodes.items vm.name_index _ vm.frames _ h
      (fresh-NodeOk (node_count vm) _ _ refl refl refl refl)
      (registered-names name (node_count vm % u32_mod) (node_count vm) _ vm.name_index h.names_ok
        (omega arith) (omega arith))

placeholder_count :
    (c : Context) (name : ℕ) (vm : ReplayVm)
    → node_count (materialize_placeholder c name vm) ≡ suc (node_count vm)
unfolding materialize_placeholder Table.push_back
placeholder_count c name vm = omega (arith, length-append vm.nodes.items)

pub resolve_name-Kept :
    (c : Context) (name : ℕ) (vm : ReplayVm)
    → IsInRange vm
    → KeptVm 1 vm (resolve_name c name vm).0
      × ((resolve_name c name vm).1 < node_count (resolve_name c name vm).0)
unfolding resolve_name
resolve_name-Kept c name vm h = elim (Bool-cases (find_named vm name == invalid_id)) [
  | inl unknown ↦
      rw unknown
        (materialize_placeholder-Kept c name vm h, omega (arith, placeholder_count c name vm))
  | inr known ↦ rw known (Kept-refl 1 vm h, find_named-lt vm name h known)
]

-- `*p` for an offset in range: the node, unless the storage was given up.
pub deref-Contained :
    (vm : ReplayVm) (p : Pointer)
    → p.offset < node_count vm
    → Contained (λ n. get_elem? vm.nodes.items p.offset ≡ some n) (deref vm p)
unfolding deref
deref-Contained vm p h = elim (Bool-cases (p.block == vm.nodes.block)) [
  | inl same ↦ rw same (Ensures-Contained (node_at-Ensures vm p.offset h))
  | inr other ↦ rw other dangles
]

-- A node that gains a child in range.
add_child-NodeOk :
    (count : ℕ) (n : Node) (target : ℕ)
    → NodeOk count n
    → target < count
    → NodeOk count (record n { children = n.children ++ target ∷ [] })
add_child-NodeOk count n target h small = record {
  id_ok = h.id_ok;
  refs_ok = h.refs_ok;
  children_ok = All-append (Below count) n.children (target ∷ []) h.children_ok (small, tt);
}

pub link_child-Contained :
    (owner : Pointer) (target : ℕ) (vm : ReplayVm)
    → IsInRange vm
    → owner.offset < node_count vm
    → target < node_count vm
    → Contained (λ vm'. KeptVm 0 vm vm') (link_child owner target vm)
unfolding link_child
link_child-Contained owner target vm h inside small =
    bind-Contained (deref-Contained vm owner inside) λ o at_owner.
      let n = node_count vm in
      let o' : Node = record o { children = o.children ++ target ∷ [] } in
      let vm' : ReplayVm = put_node owner.offset o' vm in
      let len : node_count vm' ≡ n = length-set vm.nodes.items owner.offset o' in
      let first : KeptVm 0 vm vm' =
        set-Kept 0 vm.nodes.items vm.name_index vm.frames owner.offset o o' h at_owner
          (record {
            same_id = refl;
            same_kind = refl;
            same_name = refl;
            same_placeholder = refl;
            stays_dead = λ d. d;
          })
          (add_child-NodeOk n o target
            (All-get (NodeOk n) vm.nodes.items owner.offset h.nodes_ok at_owner) small) in
      bind-Contained (Ensures-Contained (node_at-Ensures vm' target (omega arith))) λ t at_target.
        bind-Contained (deref-Contained vm' owner (omega arith)) λ o'' at_owner'.
          let back : NodeOk (node_count vm') o'' =
            All-get (NodeOk (node_count vm')) vm'.nodes.items owner.offset first.in_range.nodes_ok
              at_owner' in
          let t' : Node = record t { refs = t.refs ++ o''.id ∷ [] } in
          gives (
            Kept-trans 0 0 vm vm' (put_node target t' vm') first (
              set-Kept 0 vm'.nodes.items vm.name_index vm.frames target t t' first.in_range
                at_target
                (record {
                  same_id = refl;
                  same_kind = refl;
                  same_name = refl;
                  same_placeholder = refl;
                  stays_dead = λ d. d;
                })
                (add_refs-NodeOk (node_count vm') t t' (o''.id ∷ [])
                  (All-get (NodeOk (node_count vm')) vm'.nodes.items target first.in_range.nodes_ok
                    at_target)
                  (back.id_ok, tt) refl refl refl)))

Evolved-lt : (xs ys : List Node) (i : ℕ) → Evolved xs ys → i < length xs → i < length ys
Evolved-lt xs ys i h small =
    let (n, e) = get_elem?-lt xs i small in let (n', e', _) = h i n e in lt_of_get_elem? ys i e'

resolve_children-Contained :
    (c : Context) (owner : Pointer) (names : List ℕ) (vm : ReplayVm)
    → IsInRange vm
    → owner.offset < node_count vm
    → Contained (λ vm'. KeptVm (length names) vm vm') (resolve_children c owner names vm)
unfolding resolve_children
resolve_children-Contained c owner [] vm h inside = gives (Kept-refl 0 vm h)
resolve_children-Contained c owner (name ∷ rest) vm h inside =
    let vm' : ReplayVm = (resolve_name c name vm).0 in
    let (made, small) = resolve_name-Kept c name vm h in
    let inside' : owner.offset < node_count vm' =
      Evolved-lt vm.nodes.items vm'.nodes.items owner.offset made.evolved inside in
    bind-Contained (link_child-Contained owner _ vm' made.in_range inside' small) λ vm'' linked.
      Contained-imp
        (λ end more.
          Kept-mono vm end (omega arith)
            (Kept-trans 1 (length rest) vm vm'' end (Kept-trans 1 0 vm vm' vm'' made linked) more))
        (resolve_children-Contained c owner rest vm'' linked.in_range
          (Evolved-lt vm'.nodes.items vm''.nodes.items owner.offset linked.evolved inside'))

end_top-Contained :
    (c : Context) (vm : ReplayVm) (frames : List GroupFrame)
    → InRange vm.nodes.items vm.name_index frames
    → Contained
        (λ vm'. Kept 1 vm.nodes.items frames vm'.nodes.items vm'.name_index vm'.frames)
        (end_top c frames vm)
unfolding resolve_frame
end_top-Contained c vm [] h = declines
end_top-Contained c vm (f ∷ rest) h =
    Contained-imp
      (λ vm' k. record {
        in_range = k.in_range;
        evolved = k.evolved;
        budget = omega (arith, k.budget);
      })
      (resolve_children-Contained c f.owner_cache f.deferred_children (record vm { frames = rest })
        (record { nodes_ok = h.nodes_ok; names_ok = h.names_ok; frames_ok = h.frames_ok.1 })
        h.frames_ok.0)

execute-Tame :
    (c : Context) (op : OpCode) (vm : ReplayVm)
    → IsInRange vm
    → Tame (execute c op vm) (KeptVm 1 vm)
unfolding execute do_end_group
execute-Tame c OpCode.new_node vm h = Safe-Tame (do_new_node-Safe c vm h)
execute-Tame c OpCode.set_field vm h = Safe-Tame (do_set_field-Safe c vm h)
execute-Tame c OpCode.begin_group vm h = Safe-Tame (do_begin_group-Safe c vm h)
execute-Tame c OpCode.end_group vm h = lift-Tame (end_top-Contained c vm vm.frames h)
execute-Tame c OpCode.add_child vm h = Safe-Tame (do_add_child-Safe c vm h)
execute-Tame c OpCode.link_ref vm h = Safe-Tame (do_link_ref-Safe c vm h)
execute-Tame c OpCode.drop_node vm h = Safe-Tame (do_drop_node-Safe vm h)
execute-Tame c OpCode.snapshot vm h = Safe-Tame (do_snapshot-Safe c vm h)
execute-Tame c OpCode.set_meta vm h = Safe-Tame (do_set_meta-Safe c vm h)
execute-Tame c OpCode.nop vm h = Safe-Tame (return-Safe vm (Kept-refl 1 vm h))

-- One opcode, from any machine whose ids are in range and on any bytes, indexes nothing out of range:
-- it fails with a code, follows a stale owner pointer, or keeps ids in range and every node's id, kind,
-- name and placeholder mark, keeps dropped nodes dropped, and adds at most one to the nodes that there
-- are or that queued children may still make.
pub step-Tame : (c : Context) (vm : ReplayVm) → IsInRange vm → Tame (step c vm) (KeptVm 1 vm)
unfolding step
step-Tame c vm h = bind-Tame (Safe-Tame read_u8-Safe) λ raw _.
    bind-Tame (Safe-Tame (refuse_if-Safe (not (is_valid_opcode raw)) bad_opcode)) λ _ _.
      bind-Tame (execute-Tame c (opcode_of raw) vm h)
        λ vm' k. Safe-Tame (return-Safe _ (counted vm' k))
  where
    counted : (vm' : ReplayVm) → KeptVm 1 vm vm' → KeptVm 1 vm (count_op vm')
    counted vm' k = k

pub run_ops-Tame :
    (c : Context) (rounds : ℕ) (vm : ReplayVm)
    → IsInRange vm
    → Tame (run_ops c rounds vm) (KeptVm rounds vm)
unfolding run_ops
run_ops-Tame c zero vm h = Safe-Tame (return-Safe vm (Kept-refl 0 vm h))
run_ops-Tame c (suc rounds) vm h = bind-Tame (step-Tame c vm h) λ vm' k.
    Tame-imp (λ end more. Kept-mono vm end (omega arith) (Kept-trans 1 rounds vm vm' end k more))
      (run_ops-Tame c rounds vm' k.in_range)

closed : (frames : List GroupFrame) → has_frames frames ≡ false → frames ≡ []
closed [] h = refl
closed (f ∷ rest) h = cc

-- Replay of any journal, from a machine whose ids are in range, indexes nothing out of range: it fails
-- with a code, follows a stale owner pointer, or ends with no group open and ids in range, having kept
-- every node's id, kind, name and placeholder mark and left dropped nodes dropped, with at most
-- `max_journal_ops` nodes more than there were nodes and queued children.
pub run-Tame :
    (c : Context) (vm : ReplayVm)
    → IsInRange vm
    → Tame (run c vm) (λ vm'. KeptVm c.limits.max_journal_ops vm vm' × (vm'.frames ≡ []))
unfolding run
run-Tame c vm h = bind-Tame (Safe-Tame read_varint_u32-Safe) λ op_count _.
    bind-Tame (Safe-Tame (refuse_if-Safe (ltb c.limits.max_journal_ops op_count) limit_exceeded))
      λ _ few. bind-Tame (run_ops-Tame c op_count vm h) λ vm' k.
        bind-Tame (Safe-Tame (refuse_if-Safe (has_frames vm'.frames) group_underflow)) λ _ shut.
          Safe-Tame (return-Safe vm' (Kept-mono vm vm' (ltb→le _ _ few) k, closed vm'.frames shut))
