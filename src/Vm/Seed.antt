-- ===== src/Vm/Seed.antt =====
-- src/replay_vm.cpp, `seed`: the machine as the initial heap leaves it.
use stratavm.Base.{
  ℕ, ◌<◌, ◌≡◌, sym, subst, List, [], ◌∷◌, length, lt_of_get_elem?, All, All-from_get, some, arith,
}
use stratavm.Base.Maps.{Map, nat_eq, lookup}
use stratavm.Atoms.{AtomPool}
use stratavm.Schema.{Schema}
use stratavm.Node.{Node}
use stratavm.Table.{Table}
use stratavm.Heap.Safety.{AreLoaded}
use stratavm.Vm.{initial, index_names, registered, seed}
use stratavm.Vm.Kept.{Below, NodeOk, IsInRange}
use stratavm.Vm.Safety.{registered-names}

index_names-lt :
    (n : ℕ) (items : List Node) (index : Map ℕ ℕ)
    → All (λ x. x.id < n) items
    → ((j i : ℕ) → lookup j index ≡ some i → i < n)
    → (j i : ℕ) → lookup j (index_names items index) ≡ some i
    → i < n
unfolding index_names
index_names-lt n [] index small h = h
index_names-lt n (x ∷ rest) index small h =
    index_names-lt n rest (registered x.name x.id index) small.1
      (registered-names x.name x.id n n index h (omega arith) small.0)

-- A fresh machine that is seeded with an accepted heap has its ids in range.
pub seed-IsInRange :
    (schema : Schema) (atoms : AtomPool) (heap : Table Node)
    → AreLoaded schema atoms heap.items
    → IsInRange (seed heap initial)
unfolding seed lookup
seed-IsInRange schema atoms heap h = record {
  nodes_ok = All-from_get (NodeOk (length heap.items)) heap.items λ i n e. record {
    id_ok = omega (arith, (h i n e).id_ok, lt_of_get_elem? heap.items i e);
    refs_ok = subst (All (Below (length heap.items))) (sym (h i n e).no_refs) tt;
    children_ok = subst (All (Below (length heap.items))) (sym (h i n e).no_children) tt;
  };
  names_ok =
      index_names-lt (length heap.items) heap.items []
        (All-from_get (λ x. x.id < length heap.items) heap.items
          λ i n e. omega (arith, (h i n e).id_ok, lt_of_get_elem? heap.items i e))
        (λ j i e. cc);
  frames_ok = tt;
}

pub initial-IsInRange : IsInRange initial
unfolding lookup
initial-IsInRange = record { nodes_ok = tt; names_ok = λ j i e. cc; frames_ok = tt }
