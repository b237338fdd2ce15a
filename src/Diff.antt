-- ===== src/Diff.antt =====
-- include/stratavm/diff.hpp and src/diff.cpp: the comparison of two node tables by name.
-- The order in which the hash tables are walked is the library's choice, a parameter.
pub mod Codec
pub mod Journal
pub mod RoundTrip
pub mod Same
pub mod Ops
use stratavm.Base.{
  ℕ, suc, ◌+◌, ◌%◌, ◌^◌, ◌≡◌, Bool, true, false, not, ◌&&◌, ◌||◌, ltb, ◌==◌, if◌then◌else◌, List,
  [], ◌∷◌, ◌++◌, length, get_elem?, All, Option, none, some,
}
use stratavm.Base.Maps.{Map, nat_eq, bytes_beq, lookup}
use stratavm.Format.{invalid_id, u32_mod}
use stratavm.Value.{Value}
use stratavm.Node.{Node}

-- `for (auto& x : table)`: every element, in some order.
pub record Walk : Type 1 where
  pub visit : {A : Type 0} → List A → List A
  pub visits_all : {A : Type 0} (P : A → Type 0) (xs : List A) → All P xs → All P (visit xs)
  pub visits_only : {A : Type 0} (P : A → Type 0) (xs : List A) → All P (visit xs) → All P xs

-- `NodeChangeKind`, whose casts keep any byte.
abbrev pub added : ℕ
added = 0

abbrev pub removed : ℕ
removed = 1

abbrev pub modified : ℕ
modified = 2

abbrev pub unchanged : ℕ
unchanged = 3

pub record FieldChange : Type 0 where
  pub field_idx : ℕ
  pub before : Value
  pub after : Value

pub record NodeChange : Type 0 where
  pub change : ℕ
  pub before_id : ℕ
  pub after_id : ℕ
  pub name : ℕ
  pub kind : ℕ
  pub field_changes : List FieldChange
  pub children_added : List ℕ
  pub children_removed : List ℕ

pub record GraphDiff : Type 0 where
  pub changes : List NodeChange
  pub nodes_added : ℕ
  pub nodes_removed : ℕ
  pub nodes_modified : ℕ
  pub total_field_changes : ℕ

abbrev pub no_changes : GraphDiff
no_changes = record {
  changes = [];
  nodes_added = 0;
  nodes_removed = 0;
  nodes_modified = 0;
  total_field_changes = 0;
}

-- Counts a change by its kind and appends it.
unfoldable pub push_change : NodeChange → GraphDiff → GraphDiff
push_change nc d = record {
  changes = d.changes ++ nc ∷ [];
  nodes_added = if nc.change == added then (d.nodes_added + 1) % u32_mod else d.nodes_added;
  nodes_removed = if nc.change == removed then (d.nodes_removed + 1) % u32_mod else d.nodes_removed;
  nodes_modified =
      if nc.change == modified then (d.nodes_modified + 1) % u32_mod else d.nodes_modified;
  total_field_changes =
      if nc.change == modified
      then (d.total_field_changes + length nc.field_changes) % u32_mod
      else d.total_field_changes;
}

abbrev pub is_nan : ℕ → Bool
is_nan v = ltb 0x7ff0_0000_0000_0000 (v % 2 ^ 63)

-- `==` of doubles, on their bits: a NaN equals nothing, and the two zeros are equal.
abbrev pub double_eq : ℕ → ℕ → Bool
double_eq a b = not (is_nan a) && not (is_nan b) && (a == b || (a % 2 ^ 63 == 0 && b % 2 ^ 63 == 0))

unfoldable pub values_equal : Value → Value → Bool
values_equal (Value.int a) (Value.int b) = a == b
values_equal (Value.float a) (Value.float b) = double_eq a b
values_equal (Value.atom a) (Value.atom b) = a == b
values_equal (Value.ref a) (Value.ref b) = a == b
values_equal (Value.list a) (Value.list b) = bytes_beq a b
values_equal Value.invalid Value.invalid = true
values_equal _ _ = false

-- `emplace` keeps the entry that is there.
abbrev pub emplace : {V : Type 0} → ℕ → V → Map ℕ V → Map ℕ V
emplace k v m = elim (lookup k m) [ none ↦ m ++ (k, v) ∷ [] | some _ ↦ m ]

-- The live, named nodes by name, the first of each.
unfoldable pub by_name : List Node → Map ℕ Node → Map ℕ Node
by_name [] m = m
by_name (n ∷ rest) m =
    by_name rest (if n.alive && not (n.name == invalid_id) then emplace n.name n m else m)

-- The names of the children that are in range and named.
unfoldable pub child_names : List Node → List ℕ → List ℕ
child_names nodes [] = []
child_names nodes (id ∷ rest) =
    let more = child_names nodes rest in
    elim (get_elem? nodes id) [
      | none ↦ more
      | some n ↦ if n.name == invalid_id then more else n.name ∷ more
    ]

unfoldable pub contains : ℕ → List ℕ → Bool
contains a [] = false
contains a (b ∷ rest) = b == a || contains a rest

-- `std::unordered_set`, filled in order.
unfoldable pub set_of : List ℕ → List ℕ → List ℕ
unfolding contains
set_of out [] = out
set_of out (a ∷ rest) = set_of (if contains a out then out else out ++ a ∷ []) rest

-- Those of the first list that are not in the set.
unfoldable pub missing : List ℕ → List ℕ → List ℕ
unfolding contains
missing [] known = []
missing (a ∷ rest) known =
    let more = missing rest known in if contains a known then more else a ∷ more

unfoldable pub all_added : Map ℕ Value → List FieldChange
all_added [] = []
all_added ((fid, val) ∷ rest) =
    record { field_idx = fid; before = Value.invalid; after = val } ∷ all_added rest

-- Fields of the after-state that are new or changed.
unfoldable pub set_fields : Map ℕ Value → Map ℕ Value → List FieldChange
unfolding values_equal
set_fields before [] = []
set_fields before ((fid, val) ∷ rest) =
    let more = set_fields before rest in
    elim (lookup fid before) [
      | none ↦ record { field_idx = fid; before = Value.invalid; after = val } ∷ more
      | some old ↦
          if values_equal old val
          then more
          else record { field_idx = fid; before = old; after = val } ∷ more
    ]

-- Fields of the before-state that are gone.
unfoldable pub lost_fields : Map ℕ Value → Map ℕ Value → List FieldChange
lost_fields after [] = []
lost_fields after ((fid, val) ∷ rest) =
    let more = lost_fields after rest in
    elim (lookup fid after) [
      | none ↦ record { field_idx = fid; before = val; after = Value.invalid } ∷ more
      | some _ ↦ more
    ]

abbrev pub is_empty : {A : Type 0} → List A → Bool
is_empty [] = true
is_empty (_ ∷ _) = false

module _ (walk : Walk) (before_nodes after_nodes : List Node) where
  unfoldable pub added_node : ℕ → Node → NodeChange
  unfolding all_added child_names
  added_node name after_node = record {
    change = added;
    before_id = invalid_id;
    after_id = after_node.id;
    name = name;
    kind = after_node.kind;
    field_changes = all_added (walk.visit after_node.fields);
    children_added = child_names after_nodes after_node.children;
    children_removed = [];
  }

  unfoldable pub compared_node : ℕ → Node → Node → NodeChange
  unfolding set_fields lost_fields child_names set_of missing
  compared_node name before_node after_node =
      let before_names = set_of [] (child_names before_nodes before_node.children) in
      let after_names = set_of [] (child_names after_nodes after_node.children) in
      let field_changes =
        set_fields before_node.fields (walk.visit after_node.fields)
        ++ lost_fields after_node.fields (walk.visit before_node.fields) in
      let children_added = missing (walk.visit after_names) before_names in
      let children_removed = missing (walk.visit before_names) after_names in
      let same =
        is_empty field_changes
        && is_empty children_added
        && is_empty children_removed
        && before_node.kind == after_node.kind in
      record {
        change = if same then unchanged else modified;
        before_id = before_node.id;
        after_id = after_node.id;
        name = name;
        kind = after_node.kind;
        field_changes = field_changes;
        children_added = children_added;
        children_removed = children_removed;
      }

  abbrev pub removed_node : ℕ → Node → NodeChange
  removed_node name before_node = record {
    change = removed;
    before_id = before_node.id;
    after_id = invalid_id;
    name = name;
    kind = before_node.kind;
    field_changes = [];
    children_added = [];
    children_removed = [];
  }

  unfoldable pub compare_after : Map ℕ Node → Map ℕ Node → GraphDiff → GraphDiff
  unfolding added_node compared_node push_change
  compare_after before [] d = d
  compare_after before ((name, n) ∷ rest) d = compare_after before rest (elim (lookup name before) [
    | none ↦ push_change (added_node name n) d
    | some old ↦ push_change (compared_node name old n) d
  ])

  unfoldable pub find_removed : Map ℕ Node → Map ℕ Node → GraphDiff → GraphDiff
  unfolding push_change
  find_removed after [] d = d
  find_removed after ((name, n) ∷ rest) d =
      find_removed after rest
        (elim (lookup name after) [ none ↦ push_change (removed_node name n) d | some _ ↦ d ])

  unfoldable pub diff_node_graphs : GraphDiff
  unfolding by_name compare_after find_removed
  diff_node_graphs =
      let before = by_name before_nodes [] in
      let after = by_name after_nodes [] in
      find_removed after (walk.visit before) (compare_after before (walk.visit after) no_changes)
