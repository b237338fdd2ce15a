-- ===== src/Vm/Kept.antt =====
-- What is asked of every opcode of src/replay_vm.cpp, and lemmas on rewriting and adding a node.
use stratavm.Base.{
  ℕ, suc, ◌+◌, ◌≤◌, ◌<◌, ◌≡◌, refl, sym, ap, ◌∙◌, false, List, [], ◌∷◌, ◌++◌, length, length-append,
  length-set, get_elem?, get_elem?-append_left, get_elem?-set_self, get_elem?-set_ne,
  lt_of_get_elem?, set, All, All-append, All-map, All-set, some, some-injective, arith, subst,
}
use stratavm.Base.Maps.{Map, nat_eq, lookup}
use stratavm.Node.{Node}
use stratavm.Vm.State.{ReplayVm, GroupFrame}
use native.Mathlib.Decide.{ℕ_discrete}

abbrev pub Below : ℕ → ℕ → Type 0
Below count id = id < count

-- A node whose id, edges and children are slots of a table of `count` nodes.
pub record NodeOk (count : ℕ) (n : Node) : Type 0 where
  pub id_ok : n.id < count
  pub refs_ok : All (Below count) n.refs
  pub children_ok : All (Below count) n.children

-- So are the ids that names stand for, and the owners of the open groups.
pub record InRange (items : List Node) (index : Map ℕ ℕ) (frames : List GroupFrame) : Type 0 where
  pub nodes_ok : All (NodeOk (length items)) items
  pub names_ok : (name id : ℕ) → lookup name index ≡ some id → id < length items
  pub frames_ok : All (λ f. f.owner_cache.offset < length items) frames

abbrev pub IsInRange : ReplayVm → Type 0
IsInRange vm = InRange vm.nodes.items vm.name_index vm.frames

-- What replay never changes of a node: its id, kind, name and whether it is a placeholder. A dropped
-- node stays dropped, and edges and children are only added.
pub record Evolves (n n' : Node) : Type 0 where
  pub same_id : n'.id ≡ n.id
  pub same_kind : n'.kind ≡ n.kind
  pub same_name : n'.name ≡ n.name
  pub same_placeholder : n'.placeholder ≡ n.placeholder
  pub stays_dead : n.alive ≡ false → n'.alive ≡ false

abbrev pub Evolved : List Node → List Node → Type 0
Evolved items items' =
    (i : ℕ) (n : Node)
    → get_elem? items i ≡ some n
    → (n' : Node) × (get_elem? items' i ≡ some n') × Evolves n n'

pub Evolves-refl : (n : Node) → Evolves n n
Evolves-refl n = record {
  same_id = refl;
  same_kind = refl;
  same_name = refl;
  same_placeholder = refl;
  stays_dead = λ d. d;
}

pub Evolves-trans : {l m n : Node} → Evolves l m → Evolves m n → Evolves l n
Evolves-trans a b = record {
  same_id = b.same_id ∙ a.same_id;
  same_kind = b.same_kind ∙ a.same_kind;
  same_name = b.same_name ∙ a.same_name;
  same_placeholder = b.same_placeholder ∙ a.same_placeholder;
  stays_dead = λ d. b.stays_dead (a.stays_dead d);
}

pub Evolved-refl : (items : List Node) → Evolved items items
Evolved-refl items i n e = (n, e, Evolves-refl n)

pub Evolved-trans : (xs ys zs : List Node) → Evolved xs ys → Evolved ys zs → Evolved xs zs
Evolved-trans xs ys zs f g i n e =
    let (m, e', a) = f i n e in let (l, e'', b) = g i m e' in (l, e'', Evolves-trans a b)

pub Evolved-push : (items : List Node) (x : Node) → Evolved items (items ++ x ∷ [])
Evolved-push items x i n e =
    (n, get_elem?-append_left items (x ∷ []) i (lt_of_get_elem? items i e) ∙ e, Evolves-refl n)

pub Evolved-set :
    (items : List Node) (j : ℕ) (m m' : Node)
    → get_elem? items j ≡ some m
    → Evolves m m'
    → Evolved items (set items j m')
Evolved-set items j m m' at_j grows i n e = elim (ℕ_discrete j i) [
  | yes same ↦ (m', here same, subst (λ x. Evolves x m') (some-injective m n (found same)) grows)
  | no other ↦ (n, get_elem?-set_ne items j i m' other ∙ e, Evolves-refl n)
]
  where
    found : j ≡ i → some m ≡ some n
    found same = sym at_j ∙ ap (get_elem? items) same ∙ e

    here : j ≡ i → get_elem? (set items j m') i ≡ some m'
    here same =
        ap (get_elem? (set items j m')) (sym same)
        ∙ get_elem?-set_self items j m' (lt_of_get_elem? items j at_j)

pub NodeOk-mono : {m n : ℕ} → m ≤ n → (x : Node) → NodeOk m x → NodeOk n x
NodeOk-mono {m} {n} h x k = record {
  id_ok = omega (arith, k.id_ok);
  refs_ok = All-map (Below m) (Below n) x.refs (λ a p. omega arith) k.refs_ok;
  children_ok = All-map (Below m) (Below n) x.children (λ a p. omega arith) k.children_ok;
}

-- The names that wait to be resolved.
abbrev pub pending : List GroupFrame → ℕ
pending [] = 0
pending (f ∷ rest) = length f.deferred_children + pending rest

-- Replay from one state to another, with at most `k` more nodes to be had, now or later.
pub record Kept (k : ℕ) (items : List Node) (frames : List GroupFrame) (items' : List Node)
    (index' : Map ℕ ℕ) (frames' : List GroupFrame) : Type 0 where
  pub in_range : InRange items' index' frames'
  pub evolved : Evolved items items'
  pub budget : length items' + pending frames' ≤ k + length items + pending frames

abbrev pub KeptVm : ℕ → ReplayVm → ReplayVm → Type 0
KeptVm k vm vm' = Kept k vm.nodes.items vm.frames vm'.nodes.items vm'.name_index vm'.frames

pub Kept-refl : (k : ℕ) (vm : ReplayVm) → IsInRange vm → KeptVm k vm vm
Kept-refl k vm h = record {
  in_range = h;
  evolved = Evolved-refl vm.nodes.items;
  budget = omega arith;
}

pub Kept-trans : (j k : ℕ) (a b c : ReplayVm) → KeptVm j a b → KeptVm k b c → KeptVm (j + k) a c
Kept-trans j k a b c h l = record {
  in_range = l.in_range;
  evolved = Evolved-trans a.nodes.items b.nodes.items c.nodes.items h.evolved l.evolved;
  budget = omega (arith, h.budget, l.budget);
}

pub Kept-mono : {j k : ℕ} (a b : ReplayVm) → j ≤ k → KeptVm j a b → KeptVm k a b
Kept-mono a b le h = record {
  in_range = h.in_range;
  evolved = h.evolved;
  budget = omega (arith, h.budget);
}

-- Rewriting one node.
pub set-Kept :
    (k : ℕ) (items : List Node) (index : Map ℕ ℕ) (frames : List GroupFrame) (i : ℕ) (n n' : Node)
    → InRange items index frames
    → get_elem? items i ≡ some n
    → Evolves n n'
    → NodeOk (length items) n'
    → Kept k items frames (set items i n') index frames
set-Kept k items index frames i n n' h e grows fine = record {
  in_range = record {
    nodes_ok =
        subst (λ c. All (NodeOk c) (set items i n')) (sym (length-set items i n'))
          (All-set (NodeOk (length items)) items i n' h.nodes_ok fine);
    names_ok = λ name id f. omega (arith, h.names_ok name id f, length-set items i n');
    frames_ok =
        subst (λ c. All (λ (f : GroupFrame). f.owner_cache.offset < c) frames)
          (sym (length-set items i n')) h.frames_ok;
  };
  evolved = Evolved-set items i n n' e grows;
  budget = omega (arith, length-set items i n');
}

-- One node more, and its name.
pub push-Kept :
    (items : List Node) (index index' : Map ℕ ℕ) (frames : List GroupFrame) (x : Node)
    → InRange items index frames
    → NodeOk (suc (length items)) x
    → ((name id : ℕ) → lookup name index' ≡ some id → id < suc (length items))
    → Kept 1 items frames (items ++ x ∷ []) index' frames
push-Kept items index index' frames x h fine names = record {
  in_range = record {
    nodes_ok =
        subst (λ c. All (NodeOk c) (items ++ x ∷ [])) (sym len)
          (All-append (NodeOk (suc (length items))) items (x ∷ [])
            (All-map (NodeOk (length items)) (NodeOk (suc (length items))) items
              (NodeOk-mono (omega arith)) h.nodes_ok)
            (fine, tt));
    names_ok = λ name id f. omega (arith, names name id f, len);
    frames_ok =
        subst (λ c. All (λ (f : GroupFrame). f.owner_cache.offset < c) frames) (sym len)
          (All-map (λ f. f.owner_cache.offset < length items)
            (λ f. f.owner_cache.offset < suc (length items)) frames (λ f p. omega arith)
            h.frames_ok);
  };
  evolved = Evolved-push items x;
  budget = omega (arith, len);
}
  where
    len : length (items ++ x ∷ []) ≡ suc (length items)
    len = omega (arith, length-append items (x ∷ []))
