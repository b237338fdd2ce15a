-- ===== src/Diff/Same.antt =====
-- src/diff.cpp: a table compared with itself.
use stratavm.Base.{
  ℕ, ◌≡◌, refl, sym, inl, inr, true, false, not, ◌&&◌, ◌==◌, ==_self, if-both, Option-cases, List,
  [], ◌∷◌, ◌++◌, All, All-append, All-map, none, some, arith, subst,
}
use stratavm.Base.Maps.{Map, nat_eq, bytes_beq_iff, lookup}
use stratavm.Format.{invalid_id}
use stratavm.Value.{Value}
use stratavm.Node.{Node}
use stratavm.Diff.{
  Walk, NodeChange, GraphDiff, no_changes, push_change, unchanged, is_nan, values_equal, emplace,
  by_name, child_names, contains, set_of, missing, set_fields, lost_fields, compared_node,
  compare_after, find_removed, diff_node_graphs,
}

-- No double that is not a number.
abbrev pub IsNumber : Value → Type 0
IsNumber (Value.float v) = is_nan v ≡ false
IsNumber _ = Unit

-- A field table with one entry for each key and no NaN.
abbrev pub AreFields : Map ℕ Value → Type 0
AreFields fields = All (λ e. (lookup e.0 fields ≡ some e.1) × IsNumber e.1) fields

values_equal_self : (v : Value) → IsNumber v → values_equal v v ≡ true
unfolding values_equal
values_equal_self (Value.int a) h = ==_self a
values_equal_self (Value.float a) h = rw (h, ==_self a) refl
values_equal_self (Value.atom a) h = ==_self a
values_equal_self (Value.ref a) h = ==_self a
values_equal_self (Value.list a) h = (bytes_beq_iff a a).1 refl
values_equal_self Value.invalid h = refl

set_fields_same :
    (before after : Map ℕ Value)
    → All (λ e. (lookup e.0 before ≡ some e.1) × IsNumber e.1) after
    → set_fields before after ≡ []
unfolding set_fields
set_fields_same before [] h = refl
set_fields_same before ((fid, val) ∷ rest) (k, h) =
    rw (set_fields, k.0, values_equal_self val k.1) (set_fields_same before rest h)

lost_fields_same :
    (before after : Map ℕ Value)
    → All (λ e. (lookup e.0 after ≡ some e.1) × IsNumber e.1) before
    → lost_fields after before ≡ []
unfolding lost_fields
lost_fields_same [] after h = refl
lost_fields_same ((fid, val) ∷ rest) after (k, h) =
    rw (lost_fields, k.0) (lost_fields_same rest after h)

missing_none : (xs known : List ℕ) → All (λ a. contains a known ≡ true) xs → missing xs known ≡ []
unfolding missing
missing_none [] known h = refl
missing_none (a ∷ rest) known (k, h) = rw k (missing_none rest known h)

contains_more : (a b : ℕ) (xs : List ℕ) → contains a xs ≡ true → contains a (b ∷ xs) ≡ true
unfolding contains
contains_more a b xs h = ground (arith)

contains-All : (xs : List ℕ) → All (λ a. contains a xs ≡ true) xs
contains-All [] = tt
contains-All (x ∷ xs) = (
  unfold contains in rw (==_self x) refl,
  All-map _ _ xs (λ a. contains_more a x xs) (contains-All xs),
)

-- Entries that are found under their keys.
abbrev Keyed : (Node → Type 0) → Map ℕ Node → Map ℕ Node → Type 0
Keyed P table = All (λ e. (lookup e.0 table ≡ some e.1) × P e.1)

lookup_kept :
    {V : Type 0} (k : ℕ) (v : V) (j : ℕ) (w : V) (m : Map ℕ V)
    → lookup k m ≡ some v
    → lookup k (m ++ (j, w) ∷ []) ≡ some v
unfolding lookup
lookup_kept k v j w [] h = cc
lookup_kept k v j w ((i, u) ∷ m) h = ground (arith, lookup_kept k v j w m)

lookup_last :
    {V : Type 0} (k : ℕ) (v : V) (m : Map ℕ V)
    → lookup k m ≡ none
    → lookup k (m ++ (k, v) ∷ []) ≡ some v
unfolding lookup
lookup_last k v [] h = rw (==_self k) refl
lookup_last k v ((i, u) ∷ m) h = ground (arith, lookup_last k v m)

module _ (P : Node → Type 0) where
  emplace-Keyed :
      (k : ℕ) (n : Node) (m : Map ℕ Node)
      → P n
      → Keyed P m m
      → Keyed P (emplace k n m) (emplace k n m)
  emplace-Keyed k n m p h = elim (Option-cases (lookup k m)) [
    | inl new ↦
        rw (emplace, new)
          (All-append _ m ((k, n) ∷ [])
            (All-map _ _ m (λ (j, w) (e, q). (lookup_kept j w k n m e, q)) h)
            ((lookup_last k n m new, p), tt))
    | inr (w, old) ↦ rw (emplace, old) h
  ]

  by_name-Keyed :
      (ns : List Node) (m : Map ℕ Node)
      → All P ns
      → Keyed P m m
      → Keyed P (by_name ns m) (by_name ns m)
  unfolding by_name
  by_name-Keyed [] m h k = k
  by_name-Keyed (n ∷ rest) m (p, h) k = by_name-Keyed rest _ h (
      if-both (λ t. Keyed P t t) (n.alive && not (n.name == invalid_id))
        (emplace-Keyed n.name n m p k) k)

-- A diff with no change but `Unchanged` ones.
pub record IsQuiet (d : GraphDiff) : Type 0 where
  pub changes_quiet : All (λ nc. nc.change ≡ unchanged) d.changes
  pub none_added : d.nodes_added ≡ 0
  pub none_removed : d.nodes_removed ≡ 0
  pub none_modified : d.nodes_modified ≡ 0
  pub no_fields : d.total_field_changes ≡ 0

push_change-IsQuiet :
    (nc : NodeChange) (d : GraphDiff)
    → nc.change ≡ unchanged
    → IsQuiet d
    → IsQuiet (push_change nc d)
unfolding push_change
push_change-IsQuiet nc d e h = record {
  changes_quiet = All-append _ d.changes (nc ∷ []) h.changes_quiet (e, tt);
  none_added = rw e h.none_added;
  none_removed = rw e h.none_removed;
  none_modified = rw e h.none_modified;
  no_fields = rw e h.no_fields;
}

module _ (walk : Walk) (ns : List Node) where
  compared_same :
      (name : ℕ) (n : Node)
      → AreFields n.fields
      → (compared_node walk ns ns name n n).change ≡ unchanged
  unfolding compared_node
  compared_same name n h =
      rw
        (
          set_fields_same n.fields (walk.visit n.fields) (walk.visits_all _ n.fields h),
          lost_fields_same (walk.visit n.fields) n.fields (walk.visits_all _ n.fields h),
          missing_none (walk.visit names) names (walk.visits_all _ names (contains-All names)),
          ==_self n.kind,
        )
        refl
    where
      names : List ℕ
      names = set_of [] (child_names ns n.children)

  compare_after-IsQuiet :
      (before after : Map ℕ Node) (d : GraphDiff)
      → Keyed (λ n. AreFields n.fields) before after
      → IsQuiet d
      → IsQuiet (compare_after walk ns ns before after d)
  unfolding compare_after
  compare_after-IsQuiet before [] d k q = q
  compare_after-IsQuiet before ((name, n) ∷ rest) d (k, ks) q =
      compare_after-IsQuiet before rest _ ks
        (rw (k.0) (push_change-IsQuiet _ d (compared_same name n k.1) q))

  find_removed_none :
      (before after : Map ℕ Node) (d : GraphDiff)
      → Keyed (λ n. AreFields n.fields) after before
      → find_removed walk ns ns after before d ≡ d
  unfolding find_removed
  find_removed_none [] after d k = refl
  find_removed_none ((name, n) ∷ rest) after d (k, ks) =
      rw (find_removed, k.0) (find_removed_none rest after d ks)

-- A table compared with itself, in whatever order the hash tables are walked, has no change but
-- `Unchanged` ones, and all counters are 0, provided each node's field table has one entry for a key
-- and no value of a field is a NaN.
pub diff_node_graphs-IsQuiet :
    (walk : Walk) (ns : List Node)
    → All (λ n. AreFields n.fields) ns
    → IsQuiet (diff_node_graphs walk ns ns)
unfolding diff_node_graphs
diff_node_graphs-IsQuiet walk ns h =
    subst IsQuiet (sym (find_removed_none walk ns (walk.visit table) table _ visited)) (
      compare_after-IsQuiet walk ns table (walk.visit table) no_changes visited (record {
        changes_quiet = tt;
        none_added = refl;
        none_removed = refl;
        none_modified = refl;
        no_fields = refl;
      }))
  where
    table : Map ℕ Node
    table = by_name ns []

    visited : Keyed (λ n. AreFields n.fields) table (walk.visit table)
    visited = walk.visits_all _ table (by_name-Keyed (λ n. AreFields n.fields) ns [] h tt)
