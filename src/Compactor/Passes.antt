-- ===== src/Compactor/Passes.antt =====
-- src/compactor.cpp: the passes that mark operations dead, but for the one over groups.
-- `last_set_field` is written and never read.
use stratavm.Base.{
  ℕ, ◌+◌, ◌%◌, Bool, true, false, not, ◌&&◌, ◌||◌, ◌==◌, if◌then◌else◌, List, [], ◌∷◌,
}
use stratavm.Format.{OpCode, u32_mod}
use stratavm.Compactor.{OpRecord}

abbrev pub is_nop : OpCode → Bool
is_nop OpCode.nop = true
is_nop _ = false

abbrev pub is_set_field : OpCode → Bool
is_set_field OpCode.set_field = true
is_set_field _ = false

-- SetField or LinkRef.
abbrev pub is_node_op : OpCode → Bool
is_node_op OpCode.set_field = true
is_node_op OpCode.link_ref = true
is_node_op _ = false

abbrev pub kill : OpRecord → OpRecord
kill rec = record rec { dead = true }

unfoldable pub contains : ℕ → List ℕ → Bool
contains a [] = false
contains a (b ∷ rest) = b == a || contains a rest

unfoldable pub remove : ℕ → List ℕ → List ℕ
remove a [] = []
remove a (b ∷ rest) = let kept = remove a rest in if b == a then kept else b ∷ kept

-- The nodes that NewNode makes and no later DropNode removes.
unfoldable pub live_nodes : ℕ → List ℕ → List OpRecord → List ℕ
unfolding contains remove
live_nodes next_id live [] = live
live_nodes next_id live (rec ∷ rest) = elim rec.op [
  | OpCode.new_node ↦
      live_nodes ((next_id + 1) % u32_mod) (if contains next_id live then live else next_id ∷ live)
        rest
  | OpCode.drop_node ↦ live_nodes next_id (remove rec.node_id live) rest
  | _ ↦ live_nodes next_id live rest
]

-- The operations and how many were marked.
abbrev pub Marked : Type 0
Marked = List OpRecord × ℕ

abbrev pub counted : Bool → ℕ → ℕ
counted true n = (n + 1) % u32_mod
counted false n = n

unfoldable pub mark_nops : List OpRecord → Marked
mark_nops [] = ([], 0)
mark_nops (rec ∷ rest) =
    let (ops, n) = mark_nops rest in
    ((if is_nop rec.op then kill rec else rec) ∷ ops, counted (is_nop rec.op) n)

unfoldable pub has_key : ℕ → ℕ → List (ℕ × ℕ) → Bool
has_key node field [] = false
has_key node field ((m, f) ∷ rest) = (m == node && f == field) || has_key node field rest

-- From the last operation to the first, with the keys that later SetFields write.
unfoldable pub mark_redundant : List OpRecord → List OpRecord × (List (ℕ × ℕ) × ℕ)
unfolding has_key
mark_redundant [] = ([], ([], 0))
mark_redundant (rec ∷ rest) =
    let (ops, (seen_last, n)) = mark_redundant rest in
    let seen = has_key rec.node_id rec.field_idx seen_last in
    if is_set_field rec.op
    then (
      (if seen then kill rec else rec) ∷ ops,
      ((if seen then seen_last else (rec.node_id, rec.field_idx) ∷ seen_last), counted seen n),
    )
    else (rec ∷ ops, (seen_last, n))

-- A SetField or LinkRef that is not dead yet, on a node that is not live.
abbrev pub on_dead_node : List ℕ → OpRecord → Bool
on_dead_node live rec = not rec.dead && (is_node_op rec.op && not (contains rec.node_id live))

unfoldable pub mark_dead_nodes : List ℕ → List OpRecord → Marked
mark_dead_nodes live [] = ([], 0)
mark_dead_nodes live (rec ∷ rest) =
    let (ops, n) = mark_dead_nodes live rest in
    ((if on_dead_node live rec then kill rec else rec) ∷ ops, counted (on_dead_node live rec) n)
