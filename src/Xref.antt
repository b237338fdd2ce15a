-- ===== src/Xref.antt =====
-- include/stratavm/xref_index.hpp and src/xref_index.cpp: the cross-reference index.
pub mod Safety
pub mod Reconciling
use stratavm.Base.{
  ℕ, zero, suc, ◌+◌, ◌%◌, Bool, not, ◌&&◌, ltb, leb, ◌==◌, List, [], ◌∷◌, ◌++◌, length, get_elem?,
  set, replicate, map, Option, none, some, if◌then◌else◌,
}
use stratavm.Base.Maps.{Map, nat_eq, lookup, insert}
use stratavm.Status.{limit_exceeded, bad_xref}
use stratavm.Format.{Limits, invalid_id, u32_mod}
use stratavm.Reader.{Decoder, ◌>>=◌, ◌>>◌, return, refuse_if, read_varint_u32}
use stratavm.Atoms.{AtomPool, lacks}
use stratavm.Node.{Node}

pub record XrefIndex : Type 0 where
  pub name_to_id : Map ℕ ℕ
  pub kind_to_ids : Map ℕ (List ℕ)
  pub reverse_adj : List (List ℕ)

abbrev pub list_or_nil : Option (List ℕ) → List ℕ
list_or_nil none = []
list_or_nil (some ids) = ids

abbrev pub id_or_none : Option ℕ → ℕ
id_or_none none = invalid_id
id_or_none (some id) = id

unfoldable pub by_name : XrefIndex → ℕ → ℕ
by_name x name = id_or_none (lookup name x.name_to_id)

unfoldable pub by_kind : XrefIndex → ℕ → List ℕ
by_kind x k = list_or_nil (lookup k x.kind_to_ids)

unfoldable pub referrers : XrefIndex → ℕ → List ℕ
referrers x target = list_or_nil (get_elem? x.reverse_adj target)

unfoldable pub name_live : List Node → Map ℕ ℕ → Map ℕ ℕ
name_live [] m = m
name_live (n ∷ rest) m =
    name_live rest (if not (n.name == invalid_id) && n.alive then insert n.name n.id m else m)

unfoldable pub group_kinds : List Node → Map ℕ (List ℕ) → Map ℕ (List ℕ)
group_kinds [] m = m
group_kinds (n ∷ rest) m = group_kinds rest (
    if n.kind == invalid_id
    then m
    else insert n.kind (list_or_nil (lookup n.kind m) ++ n.id ∷ []) m)

-- `reverse_adj_[t].push_back(id)`, for a target in range.
unfoldable pub note_source : ℕ → ℕ → List (List ℕ) → List (List ℕ)
note_source id t adj =
    if ltb t (length adj) then set adj t (list_or_nil (get_elem? adj t) ++ id ∷ []) else adj

unfoldable pub note_sources : ℕ → List ℕ → List (List ℕ) → List (List ℕ)
unfolding note_source
note_sources id [] adj = adj
note_sources id (t ∷ rest) adj = note_sources id rest (note_source id t adj)

unfoldable pub reverse_edges : List Node → List (List ℕ) → List (List ℕ)
unfolding note_sources
reverse_edges [] adj = adj
reverse_edges (n ∷ rest) adj =
    reverse_edges rest (note_sources n.id n.children (note_sources n.id n.refs adj))

unfoldable pub build : List Node → XrefIndex
unfolding name_live group_kinds reverse_edges
build nodes = record {
  name_to_id = name_live nodes [];
  kind_to_ids = group_kinds nodes [];
  reverse_adj = reverse_edges nodes (replicate (length nodes) []);
}

-- The loop over the section's entries, with `rounds` left; it counts the entries that disagree.
unfoldable pub reconcile : XrefIndex → AtomPool → ℕ → ℕ → ℕ → Decoder ℕ
reconcile x atoms node_count zero warnings = return warnings
reconcile x atoms node_count (suc rounds) warnings = do
  name ← read_varint_u32
  node ← read_varint_u32
  refuse_if (lacks atoms name) bad_xref
  refuse_if (not (node == invalid_id) && leb node_count node) bad_xref
  reconcile x atoms node_count rounds
      (if by_name x name == node then warnings else (warnings + 1) % u32_mod)

unfoldable pub decode_and_reconcile : XrefIndex → AtomPool → Limits → ℕ → ℕ → Decoder ℕ
decode_and_reconcile x atoms limits node_count reconcile_warnings = do
  entry_count ← read_varint_u32
  refuse_if (ltb limits.max_nodes entry_count) limit_exceeded
  warnings ← reconcile x atoms node_count entry_count 0
  return ((reconcile_warnings + warnings) % u32_mod)
