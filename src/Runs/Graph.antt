-- ===== src/Runs/Graph.antt =====
-- Runs on a directory, a heap and a node table.
use stratavm.Base.{ℕ, ◌%◌, ◌^◌, ◌≡◌, ◌≤◌, refl, true, false, List, [], ◌∷◌, length, arith}
use stratavm.Base.Maps.{nat_eq}
use stratavm.Status.{ok, bad_xref}
use stratavm.Format.{default_limits, invalid_id, version_major, u32_mod}
use stratavm.Reader.Bounds.{Safe}
use stratavm.Heap.{decode_heap}
use stratavm.Heap.Safety.{AreLoaded, decode_heap-AreLoaded}
use stratavm.Section
use stratavm.Section.Directory.{DirectoryOk, decode-DirectoryOk}
use stratavm.Xref.{build, by_name, referrers, decode_and_reconcile}
use stratavm.Xref.Safety.{sources, last_live, referrers-sources, by_name-last_live}
use stratavm.Xref.Reconciling.{stale, in_range, decode_and_reconcile-stale}
use stratavm.Reader.Reads.{Reads, Refuses}
use stratavm.Builder.Serialize.{build_pair_section}
use stratavm.Validator.{ValidationReport, validate_graph}
use stratavm.Validator.Bounds.{SoftOk, validate_graph-SoftOk}
use stratavm.Runs.{doubling, pool, one_kind, root, leaf}

decode-DirectoryOk_example : Safe (Section.decode 34 default_limits) (λ t.
    DirectoryOk 34 t.entries
    × (length t.entries ≡ t.header.section_count)
    × (t.header.section_count ≤ 64)
    × (t.header.version_major ≡ version_major))
decode-DirectoryOk_example = decode-DirectoryOk 34 default_limits

decode_heap-AreLoaded_example :
    Safe
      (decode_heap doubling one_kind pool default_limits)
      (λ t. AreLoaded one_kind pool t.items × (length t.items ≤ 2 ^ 22))
decode_heap-AreLoaded_example = decode_heap-AreLoaded doubling one_kind pool default_limits

referrers-sources_example : referrers (build (root ∷ leaf ∷ [])) 0 ≡ sources 0 (root ∷ leaf ∷ [])
referrers-sources_example = referrers-sources (root ∷ leaf ∷ []) 0 (omega arith)

by_name-last_live_example :
    by_name (build (root ∷ leaf ∷ [])) 1 ≡ last_live 1 (root ∷ leaf ∷ []) invalid_id
by_name-last_live_example = by_name-last_live (root ∷ leaf ∷ []) 1 refl

-- An entry whose node is not the last live one of its name.
abbrev written : List (ℕ × ℕ)
written = (0, 1) ∷ []

decode_and_reconcile-stale_example :
    (in_range (length pool.atoms) 2 written ≡ true
      → Reads
          (decode_and_reconcile (build (root ∷ leaf ∷ [])) pool default_limits 2 0)
          (build_pair_section written)
          (stale (root ∷ leaf ∷ []) written % u32_mod))
    × (in_range (length pool.atoms) 2 written ≡ false
        → Refuses
            (decode_and_reconcile (build (root ∷ leaf ∷ [])) pool default_limits 2 0)
            (build_pair_section written)
            bad_xref)
decode_and_reconcile-stale_example =
    decode_and_reconcile-stale (root ∷ leaf ∷ []) pool 2 default_limits written
      ((omega arith, omega arith), tt) (omega arith) (omega arith)

validate_graph-SoftOk_example :
    (rep : ValidationReport) × (validate_graph (root ∷ leaf ∷ []) one_kind false ≡ ok rep)
    × SoftOk false rep
validate_graph-SoftOk_example =
    validate_graph-SoftOk (root ∷ leaf ∷ []) one_kind false (omega arith, tt)
