-- ===== src/Compactor/Brackets.antt =====
-- src/compactor.cpp: what the pass over groups makes dead.
use stratavm.Base.{
  ◌%◌, ℕ, zero, suc, ◌+◌, ◌≡◌, ◌≢◌, refl, ap, sym, subst, ◌∙◌, Bool, true, false, if◌then◌else◌,
  List, [], ◌∷◌, All, All-map, All-append, get_elem?, set, some, some-injective, arith,
}
use stratavm.Status.{Result, ok, bind-ok}
use stratavm.Format.{OpCode, u32_mod}
use stratavm.Compactor.{OpRecord}
use stratavm.Compactor.Passes.{kill}
use stratavm.Compactor.Groups.{
  GroupFrame, Pairing, pair_op, end_frame, add_index, pair_groups, is_dead, kill_at, has_live_child,
  kill_children, kill_frame, kill_frames, mark_groups,
}

-- BeginGroup or EndGroup.
abbrev pub is_bracket : OpCode → Bool
is_bracket OpCode.begin_group = true
is_bracket OpCode.end_group = true
is_bracket _ = false

-- The same operations, some brackets of groups marked dead.
pub data Cut : List OpRecord → List OpRecord → Type 0 where
  done : Cut [] []
  same : {r : OpRecord} {xs ys : List OpRecord} → Cut xs ys → Cut (r ∷ xs) (r ∷ ys)
  cut :
      {r : OpRecord} {xs ys : List OpRecord}
      → is_bracket r.op ≡ true
      → Cut xs ys
      → Cut (r ∷ xs) (kill r ∷ ys)

Cut-refl : (xs : List OpRecord) → Cut xs xs
Cut-refl [] = done
Cut-refl (x ∷ xs) = same (Cut-refl xs)

pub Cut-trans : {xs ys zs : List OpRecord} → Cut xs ys → Cut ys zs → Cut xs zs
Cut-trans done k = k
Cut-trans (same h) (same k) = same (Cut-trans h k)
Cut-trans (same h) (cut b k) = cut b (Cut-trans h k)
Cut-trans (cut b h) (same k) = cut b (Cut-trans h k)
Cut-trans (cut b h) (cut _ k) = cut b (Cut-trans h k)

kill-set-Cut :
    (i : ℕ) (ops : List OpRecord) {r : OpRecord}
    → get_elem? ops i ≡ some r
    → is_bracket r.op ≡ true
    → Cut ops (set ops i (kill r))
kill-set-Cut i [] e b = cc
kill-set-Cut zero (x ∷ xs) e b =
    let same_op = some-injective _ _ e in
    subst (λ q. Cut (x ∷ xs) (kill q ∷ xs)) same_op
      (cut (subst (λ (q : OpRecord). is_bracket q.op ≡ true) (sym same_op) b) (Cut-refl xs))
kill-set-Cut (suc i) (x ∷ xs) e b = same (kill-set-Cut i xs e b)

-- A bracket at an index.
abbrev pub BracketAt : List OpRecord → ℕ → Type 0
BracketAt ops i = (r : OpRecord) × (get_elem? ops i ≡ some r) × (is_bracket r.op ≡ true)

-- An AddChild at an index that is not dead.
abbrev pub ChildAt : List OpRecord → ℕ → Type 0
ChildAt ops i =
    (r : OpRecord) × (get_elem? ops i ≡ some r) × (r.op ≡ OpCode.add_child) × (r.dead ≡ false)

pub Cut-BracketAt : {xs ys : List OpRecord} (i : ℕ) → Cut xs ys → BracketAt xs i → BracketAt ys i
Cut-BracketAt i done h = h
Cut-BracketAt zero (same k) h = h
Cut-BracketAt zero (cut {r = r} b k) (q, e, c) = (kill r, refl, b)
Cut-BracketAt (suc i) (same k) h = Cut-BracketAt i k h
Cut-BracketAt (suc i) (cut b k) h = Cut-BracketAt i k h

Cut-ChildAt : {xs ys : List OpRecord} (i : ℕ) → Cut xs ys → ChildAt xs i → ChildAt ys i
Cut-ChildAt i done h = h
Cut-ChildAt zero (same k) h = h
Cut-ChildAt zero (cut {r = r} b k) (q, e, c, d) =
    let same_op = some-injective _ _ e in absurd (bracket_child r.op b (ap OpRecord.op same_op ∙ c))
  where
    bracket_child : (op : OpCode) → is_bracket op ≡ true → op ≢ OpCode.add_child
    bracket_child op b e = cc (e, b)
Cut-ChildAt (suc i) (same k) h = Cut-ChildAt i k h
Cut-ChildAt (suc i) (cut b k) h = Cut-ChildAt i k h

-- A completed frame, whose indices are of its brackets and of its children.
pub record FrameOk (ops : List OpRecord) (f : GroupFrame) : Type 0 where
  pub begins : BracketAt ops f.begin_idx
  pub ends : BracketAt ops f.end_idx
  pub children : All (ChildAt ops) f.child_indices

pub Cut-FrameOk : {xs ys : List OpRecord} (f : GroupFrame) → Cut xs ys → FrameOk xs f → FrameOk ys f
Cut-FrameOk f k h = record {
  begins = Cut-BracketAt f.begin_idx k h.begins;
  ends = Cut-BracketAt f.end_idx k h.ends;
  children = All-map _ _ f.child_indices (λ i c. Cut-ChildAt i k c) h.children;
}

-- An operation at an index that is dead.
abbrev pub DeadAt : List OpRecord → ℕ → Type 0
DeadAt ops i = (r : OpRecord) × (get_elem? ops i ≡ some r) × (r.dead ≡ true)

Cut-DeadAt : {xs ys : List OpRecord} (i : ℕ) → Cut xs ys → DeadAt xs i → DeadAt ys i
Cut-DeadAt i done h = h
Cut-DeadAt zero (same k) h = h
Cut-DeadAt zero (cut {r = r} b k) (q, e, c) = (kill r, refl, refl)
Cut-DeadAt (suc i) (same k) h = Cut-DeadAt i k h
Cut-DeadAt (suc i) (cut b k) h = Cut-DeadAt i k h

set-DeadAt :
    (i : ℕ) (ops : List OpRecord) {r : OpRecord}
    → get_elem? ops i ≡ some r
    → DeadAt (set ops i (kill r)) i
set-DeadAt i [] e = cc
set-DeadAt zero (x ∷ xs) {r = r} e = (kill r, refl, refl)
set-DeadAt (suc i) (x ∷ xs) e = set-DeadAt i xs e

-- If a frame has no child, both its ends are dead.
abbrev pub IsDropped : List OpRecord → GroupFrame → Type 0
IsDropped left f = f.child_indices ≡ [] → DeadAt left f.begin_idx × DeadAt left f.end_idx

-- A step that indexes nothing out of range, cuts brackets only, and drops the frames without a child.
abbrev pub Cuts : List GroupFrame → List OpRecord → Result (List OpRecord × ℕ) → Type 0
Cuts fs ops m = (s : List OpRecord × ℕ) × (m ≡ ok s) × Cut ops s.0 × All (IsDropped s.0) fs

pub kill_at-Cut :
    (i : ℕ) (ops : List OpRecord)
    → BracketAt ops i
    → (ops' : List OpRecord) × (kill_at i ops ≡ ok ops') × Cut ops ops' × DeadAt ops' i
kill_at-Cut i ops (r, e, b) =
    (set ops i (kill r), rw (kill_at, e) refl, kill-set-Cut i ops e b, set-DeadAt i ops e)

is_dead_lem :
    (i : ℕ) (ops : List OpRecord) {r : OpRecord}
    → get_elem? ops i ≡ some r
    → is_dead ops i ≡ ok r.dead
is_dead_lem i ops e = rw (is_dead, e) refl

pub kill_frame-Cuts :
    (f : GroupFrame) (ops : List OpRecord) (n : ℕ)
    → FrameOk ops f
    → Cuts (f ∷ []) ops (kill_frame f (ops, n))
unfolding kill_frame has_live_child kill_children
kill_frame-Cuts f ops n h = go f.child_indices h.children
  where
    go :
        (cs : List ℕ)
        → All (ChildAt ops) cs
        → Cuts
            (record f { child_indices = cs } ∷ [])
            ops
            (kill_frame (record f { child_indices = cs }) (ops, n))
    go [] _ =
        let (ops', e', c', d') = kill_at-Cut f.begin_idx ops h.begins in
        let (ops'', e'', c'', d'') =
          kill_at-Cut f.end_idx ops' (Cut-BracketAt f.end_idx c' h.ends) in
        (
          (ops'', (n + 2) % u32_mod),
          rw (e', e'') refl,
          Cut-trans c' c'',
          (λ _. (Cut-DeadAt f.begin_idx c'' d', d''), tt),
        )
    go (c ∷ cs) ((r, e, is_child, alive), _) =
        let found : is_dead ops c ≡ ok false = is_dead_lem c ops e ∙ ap ok alive in
        let has : has_live_child ops (c ∷ cs) ≡ ok true = bind-ok _ found in
        ((ops, n), bind-ok _ has, Cut-refl ops, (λ none_left. cc none_left, tt))

pub kill_frames-Cuts :
    (fs : List GroupFrame) (ops : List OpRecord) (n : ℕ)
    → All (FrameOk ops) fs
    → Cuts fs ops (kill_frames fs (ops, n))
unfolding kill_frames
kill_frames-Cuts [] ops n h = ((ops, n), refl, Cut-refl ops, tt)
kill_frames-Cuts (f ∷ fs) ops n (ok_f, ok_fs) =
    let ((ops', n'), e, c, (d, _)) = kill_frame-Cuts f ops n ok_f in
    let (s, e', c', d') =
      kill_frames-Cuts fs ops' n' (All-map _ _ fs (λ g k. Cut-FrameOk g c k) ok_fs) in
    (
      s,
      rw e e',
      Cut-trans c c',
      (
        λ no_child.
            let (begins, ends) = d no_child in
            (Cut-DeadAt f.begin_idx c' begins, Cut-DeadAt f.end_idx c' ends),
        d',
      ),
    )

-- A frame that is still open.
abbrev pub OpenOk : List OpRecord → GroupFrame → Type 0
OpenOk ops f = BracketAt ops f.begin_idx × All (ChildAt ops) f.child_indices

abbrev pub PairingOk : List OpRecord → Pairing → Type 0
PairingOk ops s = All (OpenOk ops) s.frame_stack × All (FrameOk ops) s.completed

pair_op-PairingOk :
    (ops : List OpRecord) (i : ℕ) (r : OpRecord) (s : Pairing)
    → get_elem? ops i ≡ some r
    → r.dead ≡ false
    → PairingOk ops s
    → PairingOk ops (pair_op i r.op s)
pair_op-PairingOk ops i r s e alive h = by_op r.op refl
  where
    end_it :
        (stack : List GroupFrame)
        → All (OpenOk ops) stack
        → is_bracket r.op ≡ true
        → PairingOk ops (end_frame i (record s { frame_stack = stack }))
    end_it [] k b = (tt, h.1)
    end_it (top ∷ rest) (t, k) b = (
      k,
      All-append _ s.completed _ h.1
          (record { begins = t.0; ends = (r, e, b); children = t.1 }, tt),
    )

    add_it :
        (stack : List GroupFrame)
        → All (OpenOk ops) stack
        → r.op ≡ OpCode.add_child
        → PairingOk ops (add_index i (record s { frame_stack = stack }))
    add_it [] k c = (tt, h.1)
    add_it (top ∷ rest) (t, k) c =
        (((t.0, All-append _ top.child_indices (i ∷ []) t.1 ((r, e, c, alive), tt)), k), h.1)

    by_op : (op : OpCode) → r.op ≡ op → PairingOk ops (pair_op i op s)
    by_op OpCode.begin_group c = ((((r, e, ap is_bracket c), tt), h.0), h.1)
    by_op OpCode.end_group c = end_it s.frame_stack h.0 (ap is_bracket c)
    by_op OpCode.add_child c = add_it s.frame_stack h.0 c
    by_op OpCode.new_node c = h
    by_op OpCode.set_field c = h
    by_op OpCode.link_ref c = h
    by_op OpCode.drop_node c = h
    by_op OpCode.snapshot c = h
    by_op OpCode.set_meta c = h
    by_op OpCode.nop c = h

pub pair_groups-PairingOk :
    (ops : List OpRecord) (i : ℕ) (rest : List OpRecord) (s : Pairing)
    → ((j : ℕ) → get_elem? rest j ≡ get_elem? ops (i + j))
    → PairingOk ops s
    → PairingOk ops (pair_groups i rest s)
unfolding pair_groups
pair_groups-PairingOk ops i [] s at h = h
pair_groups-PairingOk ops i (r ∷ rest) s at h =
    pair_groups-PairingOk ops (suc i) rest _ (λ j. at (suc j) ∙ ap (get_elem? ops) (omega arith))
      (paired r.dead refl)
  where
    paired : (d : Bool) → r.dead ≡ d → PairingOk ops (if d then s else pair_op i r.op s)
    paired true e = h
    paired false e = pair_op-PairingOk ops i r s (ap (get_elem? ops) (omega arith) ∙ sym (at 0)) e h

-- The groups that pair up, as their indices, and their AddChilds'.
abbrev pub groups : List OpRecord → List GroupFrame
groups ops = (pair_groups 0 ops (record { frame_stack = []; completed = [] })).completed

-- Both ends of every group without a child are dead.
abbrev pub Childless : List OpRecord → List OpRecord → Type 0
Childless ops left = All (IsDropped left) (groups ops)

pub mark_groups-Cuts : (ops : List OpRecord) → Cuts (groups ops) ops (mark_groups ops)
unfolding mark_groups
mark_groups-Cuts ops =
    kill_frames-Cuts _ ops 0
      (pair_groups-PairingOk ops 0 ops _ (λ j. ap (get_elem? ops) (omega arith)) (tt, tt)).1
