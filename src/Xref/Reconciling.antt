-- ===== src/Xref/Reconciling.antt =====
-- src/xref_index.cpp: `decode_and_reconcile` of the section that src/builder.cpp writes.
use stratavm.Base.{
  ℕ, suc, ◌+◌, ◌%◌, ◌<◌, ◌≤◌, ◌^◌, ◌≡◌, refl, ap, ◌∙◌, Bool, true, false, not, ◌&&◌, ◌||◌, ltb, leb,
  ◌==◌, if◌then◌else◌, Bool-cases, inl, inr, le→ltb, List, [], ◌∷◌, length, All, arith, subst,
}
use stratavm.Base.Maps.{Map, nat_eq, lookup, insert, lookup-insert}
use stratavm.Status.{bad_xref, limit_exceeded}
use stratavm.Format.{Limits, invalid_id, u32_mod}
use stratavm.Reader.Reads.{
  Reads, Refuses, bind-Reads, bind-Refuses, refused-Refuses, first-Refuses, refuse_if-Reads,
  return_as-Reads, bind_last-Reads,
}
use stratavm.Writer.{varint}
use stratavm.Writer.RoundTrip.{varint_u32-Reads}
use stratavm.Atoms.{AtomPool, lacks}
use stratavm.Atoms.Invariant.{lacks-names}
use stratavm.Node.{Node}
use stratavm.Builder.Serialize.{write_pairs, build_pair_section}
use stratavm.Xref.{by_name, id_or_none, name_live, build, reconcile, decode_and_reconcile}
use stratavm.Xref.Safety.{last_live, by_name-last_live}

-- The node that an entry of a name should give: none for no name.
abbrev pub expected : List Node → ℕ → ℕ
expected nodes name = if name == invalid_id then invalid_id else last_live name nodes invalid_id

-- How many entries give another node.
unfoldable pub stale : List Node → List (ℕ × ℕ) → ℕ
stale nodes [] = 0
stale nodes ((name, node) ∷ rest) =
    let more = stale nodes rest in if expected nodes name == node then more else suc more

-- Every name is none or an atom's, and every node none or in the table.
unfoldable pub in_range : ℕ → ℕ → List (ℕ × ℕ) → Bool
in_range atom_count node_count [] = true
in_range atom_count node_count ((name, node) ∷ rest) =
    (name == invalid_id || ltb name atom_count)
    && ((node == invalid_id || ltb node node_count) && in_range atom_count node_count rest)

lookup-name_live_none :
    (nodes : List Node) (m : Map ℕ ℕ) → lookup invalid_id (name_live nodes m) ≡ lookup invalid_id m
unfolding name_live
lookup-name_live_none [] m = refl
lookup-name_live_none (n ∷ rest) m = lookup-name_live_none rest _ ∙ kept
  where
    kept :
        lookup invalid_id
          (if not (n.name == invalid_id) && n.alive then insert n.name n.id m else m)
        ≡ lookup invalid_id m
    kept = ground (arith, lookup-insert n.name invalid_id n.id m)

by_name-expected : (nodes : List Node) (name : ℕ) → by_name (build nodes) name ≡ expected nodes name
unfolding by_name build lookup
by_name-expected nodes name = elim (Bool-cases (name == invalid_id)) [
  | inl none ↦
      ap (λ n. by_name (build nodes) n) (ground (arith, none))
      ∙ ap id_or_none (lookup-name_live_none nodes [])
      ∙ ground (arith, none)
  | inr named ↦ rw named (by_name-last_live nodes name named)
]

module _ (nodes : List Node) (atoms : AtomPool) (count : ℕ) where
  -- An entry that is in range, and what the loop makes of it.
  reconcile-Reads :
      (entries : List (ℕ × ℕ)) (warnings : ℕ)
      → All (λ e. (e.0 < 2 ^ 32) × (e.1 < 2 ^ 32)) entries
      → warnings < u32_mod
      → in_range (length atoms.atoms) count entries ≡ true
      → Reads
          (reconcile (build nodes) atoms count (length entries) warnings)
          (write_pairs entries)
          ((warnings + stale nodes entries) % u32_mod)
  unfolding reconcile write_pairs in_range stale
  reconcile-Reads [] w fit small h = return_as-Reads _ _ (omega (arith, small))
  reconcile-Reads ((name, node) ∷ rest) w ((fit_name, fit_node), fit) small h =
      bind-Reads _ _ (varint name) _ name _ (varint_u32-Reads name fit_name) (
        bind-Reads _ _ (varint node) _ node _ (varint_u32-Reads node fit_node) (
          bind-Reads _ _ [] _ tt _
            (refuse_if-Reads bad_xref _ (lacks-names atoms name ∙ ground (arith, h)))
            (bind-Reads _ _ [] _ tt _ (refuse_if-Reads bad_xref _ (ground (arith, h))) (
              subst
                (λ n.
                  Reads
                    (reconcile (build nodes) atoms count (length rest)
                      (if by_name (build nodes) name == node then w else (w + 1) % u32_mod))
                    (write_pairs rest) n)
                (ground (arith, by_name-expected nodes name))
                (reconcile-Reads rest
                  (if by_name (build nodes) name == node then w else (w + 1) % u32_mod) fit
                  (ground (arith, small)) (ground (arith, h)))))))

  -- An entry that is out of range.
  reconcile-Refuses :
      (entries : List (ℕ × ℕ)) (warnings : ℕ)
      → All (λ e. (e.0 < 2 ^ 32) × (e.1 < 2 ^ 32)) entries
      → in_range (length atoms.atoms) count entries ≡ false
      → Refuses
          (reconcile (build nodes) atoms count (length entries) warnings)
          (write_pairs entries)
          bad_xref
  unfolding reconcile write_pairs in_range
  reconcile-Refuses [] w fit h = cc
  reconcile-Refuses ((name, node) ∷ rest) w ((fit_name, fit_node), fit) h =
      bind-Refuses _ _ (varint name) _ name _ (varint_u32-Reads name fit_name) (
        bind-Refuses _ _ (varint node) _ node _ (varint_u32-Reads node fit_node)
          (elim (Bool-cases (lacks atoms name)) [
            | inl no_name ↦ refused-Refuses bad_xref _ _ (write_pairs rest) no_name
            | inr named ↦
                bind-Refuses _ _ [] (write_pairs rest) tt _ (refuse_if-Reads bad_xref _ named)
                  (elim (Bool-cases (not (node == invalid_id) && leb count node)) [
                    | inl no_node ↦ refused-Refuses bad_xref _ _ (write_pairs rest) no_node
                    | inr there ↦
                        bind-Refuses _ _ [] (write_pairs rest) tt _
                          (refuse_if-Reads bad_xref _ there)
                          (reconcile-Refuses rest _ fit
                            (ground (arith, h, lacks-names atoms name, named, there)))
                  ])
          ]))

  -- On the section that the builder writes for at most max_nodes 32-bit entries, reconciling the index built
  -- from the nodes counts, modulo 2^32, the entries whose node is not the last live node of their name, and
  -- none for kInvalidAtom, if every name and every node is in range, and otherwise fails with BadXref.
  pub decode_and_reconcile-stale :
      (limits : Limits) (entries : List (ℕ × ℕ))
      → All (λ e. (e.0 < 2 ^ 32) × (e.1 < 2 ^ 32)) entries
      → length entries ≤ limits.max_nodes
      → length entries < 2 ^ 32
      → (in_range (length atoms.atoms) count entries ≡ true
          → Reads
              (decode_and_reconcile (build nodes) atoms limits count 0)
              (build_pair_section entries)
              (stale nodes entries % u32_mod))
        × (in_range (length atoms.atoms) count entries ≡ false
            → Refuses
                (decode_and_reconcile (build nodes) atoms limits count 0)
                (build_pair_section entries)
                bad_xref)
  unfolding decode_and_reconcile build_pair_section
  decode_and_reconcile-stale limits entries fit few small = (
    (λ h. bind-Reads _ _ (varint (length entries)) _ _ _ (varint_u32-Reads (length entries) small) (
        bind-Reads _ _ [] _ tt _ (refuse_if-Reads limit_exceeded _ (le→ltb _ _ few)) (
          bind_last-Reads _ _ (write_pairs entries) _ _
            (reconcile-Reads entries 0 fit (omega arith) h) (return_as-Reads _ _ (omega arith))))),
    (λ h.
        bind-Refuses _ _ (varint (length entries)) _ _ _ (varint_u32-Reads (length entries) small) (
          bind-Refuses _ _ [] _ tt _ (refuse_if-Reads limit_exceeded _ (le→ltb _ _ few))
            (first-Refuses _ _ (write_pairs entries) _ (reconcile-Refuses entries 0 fit h)))),
  )
