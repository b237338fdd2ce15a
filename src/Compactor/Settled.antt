-- ===== src/Compactor/Settled.antt =====
-- src/compactor.cpp: what the passes 4a to 4c leave, told operation by operation.
use stratavm.Base.{
  ℕ, ◌+◌, ◌%◌, ◌≡◌, refl, ap, ap₂, ◌∙◌, Bool, true, false, not, ◌&&◌, ◌||◌, ◌==◌, if◌then◌else◌,
  Bool-cases, inl, inr, List, [], ◌∷◌, All, arith,
}
use stratavm.Format.{OpCode, u32_mod}
use stratavm.Compactor.{OpRecord}
use stratavm.Compactor.Passes.{
  is_set_field, kill, contains, remove, live_nodes, mark_nops, has_key, mark_redundant,
  on_dead_node, mark_dead_nodes,
}

-- Whether a node lives at the end, where `next` is the id that the next NewNode gives, and it lives now
-- or not: its NewNode makes it live, and a DropNode of it ends that.
unfoldable pub lives : ℕ → ℕ → Bool → List OpRecord → Bool
lives node next now [] = now
lives node next now (r ∷ rest) = elim r.op [
  | OpCode.new_node ↦ lives node ((next + 1) % u32_mod) (next == node || now) rest
  | OpCode.drop_node ↦ lives node next (not (r.node_id == node) && now) rest
  | _ ↦ lives node next now rest
]

-- Whether a later SetField writes a field.
unfoldable pub overwritten : ℕ → ℕ → List OpRecord → Bool
overwritten node field [] = false
overwritten node field (r ∷ rest) =
    (is_set_field r.op && (r.node_id == node && r.field_idx == field))
    || overwritten node field rest

-- An operation, given those behind it and which nodes live: every Nop goes, a SetField goes if it is
-- overwritten or its node does not live, a LinkRef if its node does not live, and no other.
abbrev pub is_removed : (ℕ → Bool) → OpRecord → List OpRecord → Bool
is_removed live r rest = elim r.op [
  | OpCode.nop ↦ true
  | OpCode.set_field ↦ overwritten r.node_id r.field_idx rest || not (live r.node_id)
  | OpCode.link_ref ↦ not (live r.node_id)
  | _ ↦ false
]

unfoldable pub settled : (ℕ → Bool) → List OpRecord → List OpRecord
settled live [] = []
settled live (r ∷ rest) = (if is_removed live r rest then kill r else r) ∷ settled live rest

abbrev pub IsUnmarked : OpRecord → Type 0
IsUnmarked r = r.dead ≡ false

contains-remove :
    (a n : ℕ) (xs : List ℕ) → contains n (remove a xs) ≡ (not (a == n) && contains n xs)
unfolding contains remove
contains-remove a n [] = ground arith
contains-remove a n (b ∷ rest) = ground (arith, contains-remove a n rest)

already : (a n : ℕ) (xs : List ℕ) → contains a xs ≡ true → contains n xs ≡ (a == n || contains n xs)
unfolding contains
already a n [] h = cc
already a n (b ∷ rest) h = ground (arith, already a n rest, h)

seen_again :
    (a b n f : ℕ) (keys : List (ℕ × ℕ))
    → has_key a b keys ≡ true
    → has_key n f keys ≡ ((a == n && b == f) || has_key n f keys)
unfolding has_key
seen_again a b n f [] h = cc
seen_again a b n f ((m, g) ∷ rest) h = ground (arith, seen_again a b n f rest, h)

-- The set of live nodes holds just those that live.
pub contains-live_nodes :
    (node next : ℕ) (live : List ℕ) (ops : List OpRecord)
    → contains node (live_nodes next live ops) ≡ lives node next (contains node live) ops
unfolding live_nodes lives
contains-live_nodes node next live [] = refl
contains-live_nodes node next live (r ∷ rest) =
    by_op (λ n l. contains-live_nodes node n l rest) r.op
  where
    joined :
        contains node (if contains next live then live else next ∷ live)
        ≡ (next == node || contains node live)
    joined = elim (Bool-cases (contains next live)) [
      | inl there ↦ rw there (already next node live there)
      | inr new ↦ rw new refl
    ]

    by_op :
        ((n : ℕ) (l : List ℕ)
          → contains node (live_nodes n l rest) ≡ lives node n (contains node l) rest)
        → (op : OpCode)
        → contains node (live_nodes next live (record r { op = op } ∷ rest))
          ≡ lives node next (contains node live) (record r { op = op } ∷ rest)
    by_op ih OpCode.new_node =
        ih ((next + 1) % u32_mod) (if contains next live then live else next ∷ live)
        ∙ ap (λ b. lives node ((next + 1) % u32_mod) b rest) joined
    by_op ih OpCode.drop_node =
        ih next (remove r.node_id live)
        ∙ ap (λ b. lives node next b rest) (contains-remove r.node_id node live)
    by_op ih OpCode.set_field = ih next live
    by_op ih OpCode.begin_group = ih next live
    by_op ih OpCode.end_group = ih next live
    by_op ih OpCode.add_child = ih next live
    by_op ih OpCode.link_ref = ih next live
    by_op ih OpCode.snapshot = ih next live
    by_op ih OpCode.set_meta = ih next live
    by_op ih OpCode.nop = ih next live

-- The keys that the pass from the end has seen.
keys_lem :
    (node field : ℕ) (ops : List OpRecord)
    → has_key node field (mark_redundant (mark_nops ops).0).1.0 ≡ overwritten node field ops
unfolding mark_redundant mark_nops has_key overwritten
keys_lem node field [] = refl
keys_lem node field (r ∷ rest) = by_op (λ n f. keys_lem n f rest) r.op
  where
    keys : List (ℕ × ℕ)
    keys = (mark_redundant (mark_nops rest).0).1.0

    seen_before :
        (b : Bool)
        → has_key r.node_id r.field_idx keys ≡ b
        → has_key node field (if b then keys else (r.node_id, r.field_idx) ∷ keys)
          ≡ ((r.node_id == node && r.field_idx == field) || has_key node field keys)
    seen_before true e = seen_again r.node_id r.field_idx node field keys e
    seen_before false e = refl

    by_op :
        ((n f : ℕ) → has_key n f (mark_redundant (mark_nops rest).0).1.0 ≡ overwritten n f rest)
        → (op : OpCode)
        → has_key node field (mark_redundant (mark_nops (record r { op = op } ∷ rest)).0).1.0
          ≡ overwritten node field (record r { op = op } ∷ rest)
    by_op ih OpCode.set_field =
        seen_before (has_key r.node_id r.field_idx keys) refl
        ∙ ap (λ b. (r.node_id == node && r.field_idx == field) || b) (ih node field)
    by_op ih OpCode.begin_group = ih node field
    by_op ih OpCode.end_group = ih node field
    by_op ih OpCode.add_child = ih node field
    by_op ih OpCode.link_ref = ih node field
    by_op ih OpCode.snapshot = ih node field
    by_op ih OpCode.set_meta = ih node field
    by_op ih OpCode.nop = ih node field
    by_op ih OpCode.new_node = ih node field
    by_op ih OpCode.drop_node = ih node field

-- The passes 4a to 4c, on operations of which none is marked.
pub passes-settled :
    (live : List ℕ) (ops : List OpRecord)
    → All IsUnmarked ops
    → (mark_dead_nodes live (mark_redundant (mark_nops ops).0).0).0
      ≡ settled (λ n. contains n live) ops
unfolding mark_dead_nodes mark_redundant mark_nops settled
passes-settled live [] h = refl
passes-settled live (r ∷ rest) (new, h) = by_op (passes-settled live rest h) r.op
  where
    left : List OpRecord
    left = (mark_dead_nodes live (mark_redundant (mark_nops rest).0).0).0

    write : OpRecord
    write = record r { op = OpCode.set_field }

    go :
        (b : Bool)
        → (if on_dead_node live (if b then kill write else write)
            then kill (if b then kill write else write)
            else (if b then kill write else write))
          ≡ (if b || not (contains r.node_id live) then kill write else write)
    go true = refl
    go false = rw new refl

    -- One operation in front.
    cons : {a b : OpRecord} {xs ys : List OpRecord} → a ≡ b → xs ≡ ys → a ∷ xs ≡ b ∷ ys
    cons e k = ap₂ (λ (a : OpRecord) (xs : List OpRecord). a ∷ xs) e k

    by_op :
        left ≡ settled (λ n. contains n live) rest
        → (op : OpCode)
        → (mark_dead_nodes live (mark_redundant (mark_nops (record r { op = op } ∷ rest)).0).0).0
          ≡ settled (λ n. contains n live) (record r { op = op } ∷ rest)
    by_op more OpCode.set_field =
        cons
          (go (has_key r.node_id r.field_idx (mark_redundant (mark_nops rest).0).1.0)
            ∙ ap (λ b. if b || not (contains r.node_id live) then kill write else write)
                (keys_lem r.node_id r.field_idx rest))
          more
    by_op more OpCode.link_ref = cons (rw new refl) more
    by_op more OpCode.nop = cons refl more
    by_op more OpCode.new_node = cons (rw new refl) more
    by_op more OpCode.drop_node = cons (rw new refl) more
    by_op more OpCode.begin_group = cons (rw new refl) more
    by_op more OpCode.end_group = cons (rw new refl) more
    by_op more OpCode.add_child = cons (rw new refl) more
    by_op more OpCode.snapshot = cons (rw new refl) more
    by_op more OpCode.set_meta = cons (rw new refl) more
