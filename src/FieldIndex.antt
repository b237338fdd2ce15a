-- ===== src/FieldIndex.antt =====
-- include/stratavm/field_index.hpp and src/field_index.cpp: nodes by kind, field and value.
-- A multimap's entries are lists under keys; the order of its keys is not observed.
pub mod Lookups
use stratavm.Base.{
  ℕ, suc, ◌+◌, Bool, true, false, not, ◌&&◌, ◌||◌, ◌==◌, if◌then◌else◌, List, [], ◌∷◌, ◌++◌, Option,
  none, some, map,
}
use stratavm.Base.Maps.{Eq, Map, nat_eq, pair_eq, lookup, insert}
use stratavm.Format.{invalid_id}
use stratavm.Value.{Value}
use stratavm.Node.{Node}

pub record KindEntry : Type 0 where
  pub node_id : ℕ
  pub field_idx : ℕ
  pub value : Value

pub record FieldIndex : Type 0 where
  pub int_index : Map (ℕ × (ℕ × ℕ)) (List ℕ)
  pub atom_index : Map (ℕ × (ℕ × ℕ)) (List ℕ)
  pub has_field_index : Map (ℕ × ℕ) (List ℕ)
  pub name_index : Map ℕ (List ℕ)
  pub kind_entries : Map ℕ (List KindEntry)
  pub entry_count : ℕ
  pub node_count : ℕ

-- `clear()`.
abbrev pub cleared : FieldIndex
cleared = record {
  int_index = [];
  atom_index = [];
  has_field_index = [];
  name_index = [];
  kind_entries = [];
  entry_count = 0;
  node_count = 0;
}

abbrev pub or_empty : {A : Type 0} → Option (List A) → List A
or_empty none = []
or_empty (some xs) = xs

module _ {K V : Type 0} ⦃e : Eq K⦄ where
  -- `it == end() ? {} : it->second`
  abbrev pub listed : K → Map K (List V) → List V
  listed k m = or_empty (lookup k m)

  -- `m[k].push_back(v)`
  abbrev pub push_at : K → V → Map K (List V) → Map K (List V)
  push_at k v m = insert k (listed k m ++ v ∷ []) m

abbrev pub is_valid : Value → Bool
is_valid Value.invalid = false
is_valid _ = true

abbrev pub index_int : ℕ → ℕ → ℕ → Value → Map (ℕ × (ℕ × ℕ)) (List ℕ) → Map (ℕ × (ℕ × ℕ)) (List ℕ)
index_int id kind field (Value.int v) m = push_at (kind, (field, v)) id m
index_int id kind field _ m = m

abbrev pub index_atom : ℕ → ℕ → ℕ → Value → Map (ℕ × (ℕ × ℕ)) (List ℕ) → Map (ℕ × (ℕ × ℕ)) (List ℕ)
index_atom id kind field (Value.atom v) m = push_at (kind, (field, v)) id m
index_atom id kind field _ m = m

-- One field of a node.
unfoldable pub index_field : Node → ℕ → Value → FieldIndex → FieldIndex
index_field n field_idx val ix =
    if is_valid val
    then record ix {
      has_field_index = push_at (n.kind, field_idx) n.id ix.has_field_index;
      int_index = index_int n.id n.kind field_idx val ix.int_index;
      atom_index = index_atom n.id n.kind field_idx val ix.atom_index;
      kind_entries =
          push_at n.kind (record { node_id = n.id; field_idx = field_idx; value = val })
            ix.kind_entries;
      entry_count = ix.entry_count + 1;
    }
    else ix

unfoldable pub index_fields : Node → Map ℕ Value → FieldIndex → FieldIndex
unfolding index_field
index_fields n [] ix = ix
index_fields n ((field_idx, val) ∷ rest) ix = index_fields n rest (index_field n field_idx val ix)

-- The node's name, if it has one.
abbrev pub index_name : Node → FieldIndex → FieldIndex
index_name n ix = record ix {
  node_count = ix.node_count + 1;
  name_index = if n.name == invalid_id then ix.name_index else push_at n.name n.id ix.name_index;
}

unfoldable pub index_nodes : List Node → FieldIndex → FieldIndex
unfolding index_fields
index_nodes [] ix = ix
index_nodes (n ∷ rest) ix =
    index_nodes rest
      (if not n.alive || n.placeholder then ix else index_fields n n.fields (index_name n ix))

abbrev pub build : List Node → FieldIndex
build nodes = index_nodes nodes cleared

unfoldable pub lookup_int : FieldIndex → ℕ → ℕ → ℕ → List ℕ
lookup_int ix kind field_idx int_val = listed (kind, (field_idx, int_val)) ix.int_index

unfoldable pub lookup_atom : FieldIndex → ℕ → ℕ → ℕ → List ℕ
lookup_atom ix kind field_idx atom_val = listed (kind, (field_idx, atom_val)) ix.atom_index

unfoldable pub lookup_has_field : FieldIndex → ℕ → ℕ → List ℕ
lookup_has_field ix kind field_idx = listed (kind, field_idx) ix.has_field_index

unfoldable pub lookup_by_name : FieldIndex → ℕ → List ℕ
lookup_by_name ix name = listed name ix.name_index

-- The results of the callback, in the order of the calls.
unfoldable pub for_each_in_kind : {A : Type 0} → FieldIndex → ℕ → (ℕ → ℕ → Value → A) → List A
for_each_in_kind ix kind fn =
    map (λ (e : KindEntry). fn e.node_id e.field_idx e.value) (listed kind ix.kind_entries)
