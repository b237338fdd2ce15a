-- ===== src/Compactor/Groups.antt =====
-- src/compactor.cpp: the pass over groups, and the children counted for the hints.
use stratavm.Base.{
  ℕ, suc, ◌+◌, ◌%◌, Bool, true, false, if◌then◌else◌, List, [], ◌∷◌, ◌++◌, get_elem?, set, none,
  some,
}
use stratavm.Base.Maps.{Map, nat_eq, insert}
use stratavm.Status.{Result, ok, fault, ◌>>=◌, out_of_range}
use stratavm.Format.{OpCode, u32_mod}
use stratavm.Compactor.{OpRecord}
use stratavm.Compactor.Passes.{kill}

pub record GroupFrame : Type 0 where
  pub begin_idx : ℕ
  pub end_idx : ℕ
  pub child_indices : List ℕ

-- Stacks have the innermost frame first; `completed` is in the order of the ends.
pub record Pairing : Type 0 where
  pub frame_stack : List GroupFrame
  pub completed : List GroupFrame

abbrev pub end_frame : ℕ → Pairing → Pairing
end_frame i s = elim s.frame_stack [
  | [] ↦ s
  | top ∷ rest ↦ record {
    frame_stack = rest;
    completed = s.completed ++ record top { end_idx = i } ∷ [];
  }
]

abbrev pub add_index : ℕ → Pairing → Pairing
add_index i s = elim s.frame_stack [
  | [] ↦ s
  | top ∷ rest ↦ record s {
    frame_stack = record top { child_indices = top.child_indices ++ i ∷ [] } ∷ rest;
  }
]

abbrev pub pair_op : ℕ → OpCode → Pairing → Pairing
pair_op i OpCode.begin_group s = record s {
  frame_stack = record { begin_idx = i; end_idx = 0; child_indices = [] } ∷ s.frame_stack;
}
pair_op i OpCode.end_group s = end_frame i s
pair_op i OpCode.add_child s = add_index i s
pair_op i _ s = s

unfoldable pub pair_groups : ℕ → List OpRecord → Pairing → Pairing
pair_groups i [] s = s
pair_groups i (rec ∷ rest) s = pair_groups (suc i) rest (if rec.dead then s else pair_op i rec.op s)

-- `ops[i].dead`
abbrev pub is_dead : List OpRecord → ℕ → Result Bool
is_dead ops i = elim (get_elem? ops i) [ some rec ↦ ok rec.dead | none ↦ fault out_of_range ]

-- `ops[i].dead = true`
abbrev pub kill_at : ℕ → List OpRecord → Result (List OpRecord)
kill_at i ops = elim (get_elem? ops i) [
  | some rec ↦ ok (set ops i (kill rec))
  | none ↦ fault out_of_range
]

unfoldable pub has_live_child : List OpRecord → List ℕ → Result Bool
has_live_child ops [] = ok false
has_live_child ops (cidx ∷ rest) =
    let later = has_live_child ops rest in
    is_dead ops cidx >>= λ dead. if dead then later else ok true

unfoldable pub kill_children : List ℕ → List OpRecord × ℕ → Result (List OpRecord × ℕ)
kill_children [] s = ok s
kill_children (cidx ∷ rest) (ops, n) = is_dead ops cidx >>= λ dead.
    (if dead then ok (ops, n) else kill_at cidx ops >>= λ ops'. ok (ops', (n + 1) % u32_mod))
    >>= kill_children rest

-- Both ends are counted.
unfoldable pub kill_frame : GroupFrame → List OpRecord × ℕ → Result (List OpRecord × ℕ)
unfolding has_live_child kill_children
kill_frame frame (ops, n) = has_live_child ops frame.child_indices >>= λ has.
    if has
    then ok (ops, n)
    else kill_at frame.begin_idx ops >>= λ ops'. kill_at frame.end_idx ops' >>= λ ops''.
        kill_children frame.child_indices (ops'', (n + 2) % u32_mod)

unfoldable pub kill_frames : List GroupFrame → List OpRecord × ℕ → Result (List OpRecord × ℕ)
unfolding kill_frame
kill_frames [] s = ok s
kill_frames (frame ∷ rest) s = kill_frame frame s >>= kill_frames rest

unfoldable pub mark_groups : List OpRecord → Result (List OpRecord × ℕ)
unfolding pair_groups kill_frames
mark_groups ops =
    kill_frames (pair_groups 0 ops (record { frame_stack = []; completed = [] })).completed (ops, 0)

-- `stack2` and `begin_surviving_children`.
pub record Counting : Type 0 where
  pub stack : List (ℕ × ℕ)
  pub surviving : Map ℕ ℕ

abbrev pub close_count : Counting → Counting
close_count s = elim s.stack [
  | [] ↦ s
  | top ∷ rest ↦ record { stack = rest; surviving = insert top.0 top.1 s.surviving }
]

abbrev pub count_child : Counting → Counting
count_child s = elim s.stack [
  | [] ↦ s
  | top ∷ rest ↦ record s { stack = (top.0, (top.1 + 1) % u32_mod) ∷ rest }
]

abbrev pub count_op : ℕ → OpCode → Counting → Counting
count_op i OpCode.begin_group s = record s { stack = (i, 0) ∷ s.stack }
count_op i OpCode.end_group s = close_count s
count_op i OpCode.add_child s = count_child s
count_op i _ s = s

unfoldable pub count_children : ℕ → List OpRecord → Counting → Counting
count_children i [] s = s
count_children i (rec ∷ rest) s =
    count_children (suc i) rest (if rec.dead then s else count_op i rec.op s)
