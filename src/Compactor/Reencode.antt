-- ===== src/Compactor/Reencode.antt =====
-- src/compactor.cpp: `JournalCompactor::compact`, phases 3 to 5.
use stratavm.Base.{ℕ, suc, ◌+◌, ◌%◌, if◌then◌else◌, List, [], ◌∷◌, ◌++◌, length, none, some}
use stratavm.Base.Maps.{Map, nat_eq, lookup}
use stratavm.Status.{Result, ok, ◌>>=◌}
use stratavm.Format.{OpCode, u32_mod}
use stratavm.Writer.{varint}
use stratavm.Compactor.{OpRecord, encode_op}
use stratavm.Compactor.Passes.{live_nodes, mark_nops, mark_redundant, mark_dead_nodes}
use stratavm.Compactor.Groups.{mark_groups, count_children}

pub record CompactionStats : Type 0 where
  pub input_op_count : ℕ
  pub output_op_count : ℕ
  pub dead_node_ops_removed : ℕ
  pub redundant_field_sets_removed : ℕ
  pub nops_removed : ℕ
  pub dead_group_ops_removed : ℕ

pub record CompactionResult : Type 0 where
  pub journal_bytes : List ℕ
  pub stats : CompactionStats

-- The hint of a group that survives, as counted.
abbrev pub patch_hint : ℕ → Map ℕ ℕ → OpRecord → OpRecord
patch_hint i surviving rec = elim rec.op [
  | OpCode.begin_group ↦ elim (lookup i surviving) [
    | some n ↦ record rec { reserve_hint = n }
    | none ↦ rec
  ]
  | _ ↦ rec
]

-- The bytes of the operations that are not dead, and how many there are.
unfoldable pub encode_ops : ℕ → Map ℕ ℕ → List OpRecord → List ℕ × ℕ
unfolding encode_op
encode_ops i surviving [] = ([], 0)
encode_ops i surviving (rec ∷ rest) =
    let (body, out_count) = encode_ops (suc i) surviving rest in
    if rec.dead
    then (body, out_count)
    else (encode_op (patch_hint i surviving rec) ++ body, (out_count + 1) % u32_mod)

-- All passes that mark, in order: the operations, and the four counts.
unfoldable pub mark : List OpRecord → Result (List OpRecord × (ℕ × (ℕ × (ℕ × ℕ))))
unfolding live_nodes mark_nops mark_redundant mark_dead_nodes mark_groups
mark ops =
    let live = live_nodes 0 [] ops in
    let nops = mark_nops ops in
    let redundant = mark_redundant nops.0 in
    let on_dead = mark_dead_nodes live redundant.0 in
    mark_groups on_dead.0 >>= λ grouped.
    ok (grouped.0, (nops.1, (redundant.1.1, (on_dead.1, grouped.1))))

unfoldable pub reencode : List OpRecord → Result CompactionResult
unfolding mark encode_ops count_children
reencode ops = mark ops >>= λ marked.
    let surviving = (count_children 0 marked.0 (record { stack = []; surviving = [] })).surviving in
    let out = encode_ops 0 surviving marked.0 in
    ok (record {
      journal_bytes = varint out.1 ++ out.0;
      stats = record {
        input_op_count = length ops % u32_mod;
        output_op_count = out.1;
        dead_node_ops_removed = marked.1.1.1.0;
        redundant_field_sets_removed = marked.1.1.0;
        nops_removed = marked.1.0;
        dead_group_ops_removed = marked.1.1.1.1;
      };
    })
