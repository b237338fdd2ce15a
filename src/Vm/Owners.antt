-- ===== src/Vm/Owners.antt =====
-- src/replay_vm.cpp, `resolve_frame`: the pointer to the owner that a group's frame keeps.
use stratavm.Base.{
  ℕ, suc, ◌+◌, ◌≤◌, ◌<◌, ◌≡◌, refl, sym, ap, ◌∙◌, true, false, ◌==◌, Bool-cases, inl, inr, List, [],
  ◌∷◌, ◌++◌, append_assoc, append-nil, length, length-append, length-set, get_elem?, get_elem?-lt,
  get_elem?-set_self, get_elem?-set_ne, get_elem?-append_left, lt_of_get_elem?, set, subst, lt→ltb,
  le→ltb, some, some-injective, arith,
}
use stratavm.Status.{ok, fault, dangling, ◌>>=◌, Contained, Contained-ok}
use stratavm.Format.{invalid_id}
use stratavm.Node.{Node}
use stratavm.Table
use stratavm.Table.{Pointer, Table}
use stratavm.Vm.{
  ReplayVm, Context, GroupFrame, node_count, node_at, deref, find_named, materialize_placeholder,
  resolve_name, link_child, resolve_children, resolve_frame,
}
use stratavm.Vm.Kept.{IsInRange, KeptVm}
use stratavm.Vm.GroupSafety.{resolve_name-Kept, link_child-Contained}
use native.Mathlib.Decide.{ℕ_discrete}

-- The table's elements stay put while there is room.
pub record SameBlock (vm vm' : ReplayVm) : Type 0 where
  pub block_same : vm'.nodes.block ≡ vm.nodes.block
  pub capacity_same : vm'.nodes.capacity ≡ vm.nodes.capacity

-- The children that a slot has are those that it had, and `added`.
abbrev pub Adopted : ℕ → List ℕ → ReplayVm → ReplayVm → Type 0
Adopted slot added vm vm' =
    (n : Node)
    → get_elem? vm.nodes.items slot ≡ some n
    → (n' : Node) × (get_elem? vm'.nodes.items slot ≡ some n') × (n'.children ≡ n.children ++ added)

-- Setting a node that has the children of the one before it.
set-children :
    (items : List Node) (i slot : ℕ) (t t' n : Node)
    → get_elem? items i ≡ some t
    → t'.children ≡ t.children
    → get_elem? items slot ≡ some n
    → (n' : Node) × (get_elem? (set items i t') slot ≡ some n') × (n'.children ≡ n.children)
set-children items i slot t t' n at_i same at_slot = elim (ℕ_discrete i slot) [
  | yes here ↦ (
    t',
    ap (get_elem? (set items i t')) (sym here)
        ∙ get_elem?-set_self items i t' (lt_of_get_elem? items i at_i),
    same ∙ ap Node.children (some-injective t n (sym at_i ∙ ap (get_elem? items) here ∙ at_slot)),
  )
  | no other ↦ (n, get_elem?-set_ne items i slot t' other ∙ at_slot, refl)
]

-- Linking one child through a good pointer.
link_child-Adopted :
    (owner : Pointer) (target : ℕ) (vm : ReplayVm)
    → owner.block ≡ vm.nodes.block
    → owner.offset < node_count vm
    → target < node_count vm
    → (vm' : ReplayVm) × (link_child owner target vm ≡ ok vm')
      × SameBlock vm vm'
      × (node_count vm' ≡ node_count vm)
      × Adopted owner.offset (target ∷ []) vm vm'
unfolding link_child deref node_at
link_child-Adopted owner target vm same inside small =
    let items = vm.nodes.items in
    let (o, at_owner) = get_elem?-lt items owner.offset inside in
    let o' : Node = record o { children = o.children ++ target ∷ [] } in
    let items' = set items owner.offset o' in
    let len : length items' ≡ length items = length-set items owner.offset o' in
    let (t, at_target) = get_elem?-lt items' target (omega arith) in
    let at_owner' : get_elem? items' owner.offset ≡ some o' =
      get_elem?-set_self items owner.offset o' inside in
    let good : (owner.block == vm.nodes.block) ≡ true = ground arith in
    let t' : Node = record t { refs = t.refs ++ o'.id ∷ [] } in
    rw (good, at_owner, at_target, at_owner')
      (
        _,
        refl,
        record { block_same = refl; capacity_same = refl },
        length-set items' target t' ∙ len,
        λ n e.
            let same_node : o ≡ n = some-injective o n e in
            let (n', e', c) =
              set-children items' target owner.offset t t' o' at_target refl at_owner' in
            (n', e', c ∙ ap (λ (m : Node). m.children ++ target ∷ []) same_node),
      )

-- Resolving a name while there is room for one more node.
resolve_name-room :
    (c : Context) (name slot : ℕ) (vm : ReplayVm)
    → node_count vm < vm.nodes.capacity
    → SameBlock vm (resolve_name c name vm).0
      × (node_count (resolve_name c name vm).0 ≤ suc (node_count vm))
      × (slot < node_count vm
          → get_elem? (resolve_name c name vm).0.nodes.items slot ≡ get_elem? vm.nodes.items slot)
unfolding resolve_name materialize_placeholder Table.push_back
resolve_name-room c name slot vm room = elim (Bool-cases (find_named vm name == invalid_id)) [
  | inl unknown ↦
      rw (unknown, le→ltb vm.nodes.capacity (node_count vm + 1) (omega arith))
        (
          record { block_same = refl; capacity_same = refl },
          omega (arith, length-append vm.nodes.items),
          λ h. get_elem?-append_left vm.nodes.items _ slot h,
        )
  | inr known ↦
      rw known (record { block_same = refl; capacity_same = refl }, omega arith, λ _. refl)
]

pub resolve_children-Adopted :
    (c : Context) (owner : Pointer) (names : List ℕ) (vm : ReplayVm)
    → IsInRange vm
    → owner.block ≡ vm.nodes.block
    → owner.offset < node_count vm
    → node_count vm + length names ≤ vm.nodes.capacity
    → (vm' : ReplayVm) × (targets : List ℕ) × (resolve_children c owner names vm ≡ ok vm')
      × Adopted owner.offset targets vm vm'
      × (length targets ≡ length names)
unfolding resolve_children
resolve_children-Adopted c owner [] vm h same inside room =
    (vm, [], refl, (λ n e. (n, e, sym (append-nil n.children))), refl)
resolve_children-Adopted c owner (name ∷ rest) vm h same inside room =
    let vm1 : ReplayVm = (resolve_name c name vm).0 in
    let target : ℕ = (resolve_name c name vm).1 in
    let (made, small) = resolve_name-Kept c name vm h in
    let (stay, grown, kept) = resolve_name-room c name owner.offset vm (omega arith) in
    let at_owner = kept inside in
    let (n, e) = get_elem?-lt vm.nodes.items owner.offset inside in
    let inside1 : owner.offset < node_count vm1 =
      lt_of_get_elem? vm1.nodes.items owner.offset (at_owner ∙ e) in
    let same1 : owner.block ≡ vm1.nodes.block = omega (arith, stay.block_same) in
    let (vm2, linked, stay2, len, adopted) =
      link_child-Adopted owner target vm1 same1 inside1 small in
    let safe =
      subst (Contained (KeptVm 0 vm1)) linked
        (link_child-Contained owner target vm1 made.in_range inside1 small) in
    let (vm', targets, e', adopted', len') =
      resolve_children-Adopted c owner rest vm2 (Contained-ok safe).in_range
        (omega (arith, stay2.block_same)) (omega arith)
        (omega (arith, stay.capacity_same, stay2.capacity_same)) in
    (
      vm',
      target ∷ targets,
      ap (λ r. r >>= resolve_children c owner rest) linked ∙ e',
      (λ m f.
          let (m1, f1, c1) = adopted m (at_owner ∙ f) in
          let (m2, f2, c2) = adopted' m1 f1 in
          (
            m2,
            f2,
            c2 ∙ ap (λ xs. xs ++ targets) c1 ∙ append_assoc m.children (target ∷ []) targets,
          )),
      ap suc len',
    )

-- The end of a group in a machine whose ids are in range, where the owner's pointer is current and to a
-- slot of the table, and the table has room for one node for each queued name: the group is resolved, without a stale pointer, and the owner has one child more for
-- each queued name, after those that it had.
pub resolve_frame-Adopted :
    (c : Context) (frame : GroupFrame) (vm : ReplayVm)
    → IsInRange vm
    → frame.owner_cache.block ≡ vm.nodes.block
    → frame.owner_cache.offset < node_count vm
    → node_count vm + length frame.deferred_children ≤ vm.nodes.capacity
    → (vm' : ReplayVm) × (targets : List ℕ) × (resolve_frame c frame vm ≡ ok vm')
      × Adopted frame.owner_cache.offset targets vm vm'
      × (length targets ≡ length frame.deferred_children)
unfolding resolve_frame
resolve_frame-Adopted c frame vm =
    resolve_children-Adopted c frame.owner_cache frame.deferred_children vm

stale : (b b' : ℕ) → b ≡ b' → (b == suc b') ≡ false
stale b b' h = ground arith

-- The end of a group when the table is full and the first queued name is unknown: the placeholder that
-- is made for it moves the table's elements, and the next use of the owner's pointer, which was current
-- until then, is through a stale pointer. This holds whatever else was queued.
pub resolve_frame-dangling :
    (c : Context) (frame : GroupFrame) (name : ℕ) (rest : List ℕ) (vm : ReplayVm)
    → frame.deferred_children ≡ name ∷ rest
    → frame.owner_cache.block ≡ vm.nodes.block
    → (find_named vm name == invalid_id) ≡ true
    → vm.nodes.capacity ≤ node_count vm
    → resolve_frame c frame vm ≡ fault dangling
unfolding resolve_frame resolve_children resolve_name link_child deref materialize_placeholder
    Table.push_back
resolve_frame-dangling c frame name rest vm queued same unknown full =
    rw
      (
        queued,
        unknown,
        lt→ltb vm.nodes.capacity (node_count vm + 1) (omega arith),
        stale frame.owner_cache.block vm.nodes.block same,
      )
      refl
