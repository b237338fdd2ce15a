-- ===== src/Compactor/Marking.antt =====
-- src/compactor.cpp: all the passes together.
use stratavm.Base.{ℕ, ◌≡◌, refl, ap₂, subst, ◌∙◌, Bool, false, if◌then◌else◌, List, [], ◌∷◌, All}
use stratavm.Status.{ok, bind-ok}
use stratavm.Format.{OpCode}
use stratavm.Compactor.{OpRecord}
use stratavm.Compactor.Passes.{
  kill, contains, live_nodes, mark_nops, mark_redundant, mark_dead_nodes,
}
use stratavm.Compactor.Reencode.{mark}
use stratavm.Compactor.Settled.{
  lives, settled, is_removed, IsUnmarked, contains-live_nodes, passes-settled,
}
use stratavm.Compactor.Brackets.{Cut, Childless, mark_groups-Cuts}

-- The nodes that live at the end.
abbrev pub lives_in : List OpRecord → ℕ → Bool
lives_in ops node = lives node 0 false ops

-- Two tests of nodes that agree settle alike.
settled-ext :
    (p q : ℕ → Bool) (ops : List OpRecord) → ((n : ℕ) → p n ≡ q n) → settled p ops ≡ settled q ops
unfolding settled
settled-ext p q [] h = refl
settled-ext p q (r ∷ rest) h =
    ap₂ (λ (a : OpRecord) (xs : List OpRecord). a ∷ xs) (by_op r.op) (settled-ext p q rest h)
  where
    by_op :
        (op : OpCode)
        → (if is_removed p (record r { op = op }) rest
            then kill (record r { op = op })
            else record r { op = op })
          ≡ (if is_removed q (record r { op = op }) rest
              then kill (record r { op = op })
              else record r { op = op })
    by_op OpCode.set_field = rw (h r.node_id) refl
    by_op OpCode.link_ref = rw (h r.node_id) refl
    by_op OpCode.nop = refl
    by_op OpCode.new_node = refl
    by_op OpCode.drop_node = refl
    by_op OpCode.begin_group = refl
    by_op OpCode.end_group = refl
    by_op OpCode.add_child = refl
    by_op OpCode.snapshot = refl
    by_op OpCode.set_meta = refl

-- What the passes make of the operations: those that `settled` removes are dead, of the others only
-- brackets of groups, and both ends of every group without a child that is left are.
pub record IsCompacted (ops left : List OpRecord) : Type 0 where
  pub cut : Cut (settled (lives_in ops) ops) left
  pub childless : Childless (settled (lives_in ops) ops) left

pub mark-IsCompacted :
    (ops : List OpRecord)
    → All IsUnmarked ops
    → (s : List OpRecord × (ℕ × (ℕ × (ℕ × ℕ)))) × (mark ops ≡ ok s) × IsCompacted ops s.0
unfolding mark contains
mark-IsCompacted ops new =
    let (s, e, c, d) = mark_groups-Cuts passed in
    (
      _,
      bind-ok _ e,
      record {
        cut = subst (λ xs. Cut xs s.0) passed-settled c;
        childless = subst (λ xs. Childless xs s.0) passed-settled d;
      },
    )
  where
    live : List ℕ
    live = live_nodes 0 [] ops

    passed : List OpRecord
    passed = (mark_dead_nodes live (mark_redundant (mark_nops ops).0).0).0

    passed-settled : passed ≡ settled (lives_in ops) ops
    passed-settled =
        passes-settled live ops new ∙ settled-ext _ _ ops (λ n. contains-live_nodes n 0 [] ops)
