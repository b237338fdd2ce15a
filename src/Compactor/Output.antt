-- ===== src/Compactor/Output.antt =====
-- src/compactor.cpp: the journal that is written.
use stratavm.Base.{
  ℕ, suc, ◌+◌, ◌%◌, ◌<◌, ◌≡◌, refl, ap, ap₂, Bool, true, false, if◌then◌else◌, List, [], ◌∷◌, ◌++◌,
  length, All, Option, none, some, arith,
}
use stratavm.Base.Maps.{Map, nat_eq, lookup}
use stratavm.Status.{ok, bind-ok}
use stratavm.Format.{OpCode, u32_mod}
use stratavm.Writer.{u8, varint}
use stratavm.Value.{encode_value}
use stratavm.Compactor.{OpRecord, encode_op}
use stratavm.Compactor.Passes.{kill}
use stratavm.Compactor.Reencode.{CompactionResult, patch_hint, encode_ops, reencode}
use stratavm.Compactor.Groups.{count_children}
use stratavm.Compactor.Settled.{settled, is_removed, IsUnmarked}
use stratavm.Compactor.Brackets.{Cut}
use stratavm.Compactor.Marking.{IsCompacted, lives_in, mark-IsCompacted}
use Cut.{done, same, cut}

-- The record of a BeginGroup has no children: in `decode_op` they join its copy on the stack.
abbrev pub IsBare : OpCode → List ℕ → Type 0
IsBare OpCode.begin_group children = children ≡ []
IsBare _ children = Unit

abbrev pub IsDecoded : OpRecord → Type 0
IsDecoded r = IsBare r.op r.group_children

-- The bytes of an operation, the hint of a group being 0.
unfoldable pub line : OpRecord → List ℕ
line r = elim r.op [
  | OpCode.new_node ↦ 1 ∷ (varint r.kind ++ varint r.name_atom)
  | OpCode.set_field ↦ 2 ∷ (varint r.node_id ++ (varint r.field_idx ++ encode_value r.value))
  | OpCode.begin_group ↦ 3 ∷ (varint r.name_atom ++ varint 0)
  | OpCode.end_group ↦ 4 ∷ []
  | OpCode.add_child ↦ 5 ∷ varint r.target_atom
  | OpCode.link_ref ↦ 6 ∷ (varint r.node_id ++ (varint r.field_idx ++ varint r.target_atom))
  | OpCode.drop_node ↦ 7 ∷ varint r.node_id
  | OpCode.snapshot ↦ 8 ∷ varint r.name_atom
  | OpCode.set_meta ↦ 9 ∷ (varint r.meta_key ++ varint r.meta_val)
  | OpCode.nop ↦ 10 ∷ []
]

unfoldable pub lines : List OpRecord → List ℕ
unfolding line
lines [] = []
lines (r ∷ rest) = line r ++ lines rest

-- The operations that are not marked.
unfoldable pub survivors : List OpRecord → List OpRecord
survivors [] = []
survivors (r ∷ rest) = if r.dead then survivors rest else r ∷ survivors rest

hint_lost :
    (op : OpCode) (i : ℕ) (surviving : Map ℕ ℕ) (r : OpRecord)
    → IsBare op r.group_children
    → encode_op (patch_hint i surviving (record r { op = op })) ≡ line (record r { op = op })
unfolding encode_op line u8
hint_lost OpCode.begin_group i surviving r h = whichever (lookup i surviving)
  where
    no_children :
        (n : ℕ)
        → encode_op (record r { op = OpCode.begin_group; reserve_hint = n })
          ≡ line (record r { op = OpCode.begin_group })
    no_children n = ap (λ (cs : List ℕ). u8 3 ++ (varint r.name_atom ++ varint (length cs))) h

    whichever :
        (found : Option ℕ)
        → encode_op (elim found [
          | some n ↦ record r { op = OpCode.begin_group; reserve_hint = n }
          | none ↦ record r { op = OpCode.begin_group }
        ])
          ≡ line (record r { op = OpCode.begin_group })
    whichever none = no_children r.reserve_hint
    whichever (some n) = no_children n
hint_lost OpCode.new_node i surviving r h = refl
hint_lost OpCode.set_field i surviving r h = refl
hint_lost OpCode.end_group i surviving r h = refl
hint_lost OpCode.add_child i surviving r h = refl
hint_lost OpCode.link_ref i surviving r h = refl
hint_lost OpCode.drop_node i surviving r h = refl
hint_lost OpCode.snapshot i surviving r h = refl
hint_lost OpCode.set_meta i surviving r h = refl
hint_lost OpCode.nop i surviving r h = refl

abbrev in_front : Bool → List ℕ → List ℕ × ℕ → List ℕ × ℕ
in_front d bytes t = if d then (t.0, t.1) else (bytes ++ t.0, (t.1 + 1) % u32_mod)

-- One operation in front of those that are written.
module _ (i : ℕ) (surviving : Map ℕ ℕ) (r : OpRecord) (rest : List OpRecord) (t : List ℕ × ℕ) where
  cons-lines :
      (d : Bool)
      → IsDecoded r
      → t ≡ (lines rest, length rest % u32_mod)
      → in_front d (encode_op (patch_hint i surviving r)) t
        ≡ (lines (if d then rest else r ∷ rest), length (if d then rest else r ∷ rest) % u32_mod)
  unfolding lines
  cons-lines true h e = e
  cons-lines false h e =
      ap₂ (λ (b : List ℕ) (n : ℕ). (b, n))
        (ap₂ (λ (a b : List ℕ). a ++ b) (hint_lost r.op i surviving r h) (ap (λ p. p.0) e))
        (omega (arith, ap (λ p. p.1) e))

encode_ops-lines :
    (i : ℕ) (surviving : Map ℕ ℕ) (ops : List OpRecord)
    → All IsDecoded ops
    → encode_ops i surviving ops ≡ (lines (survivors ops), length (survivors ops) % u32_mod)
unfolding encode_ops lines survivors
encode_ops-lines i surviving [] h = refl
encode_ops-lines i surviving (r ∷ rest) (bare, h) =
    cons-lines i surviving r (survivors rest) (encode_ops (suc i) surviving rest) r.dead bare
      (encode_ops-lines (suc i) surviving rest h)

settled-IsDecoded :
    (live : ℕ → Bool) (ops : List OpRecord) → All IsDecoded ops → All IsDecoded (settled live ops)
unfolding settled
settled-IsDecoded live [] h = tt
settled-IsDecoded live (r ∷ rest) (bare, h) =
    (either (is_removed live r rest), settled-IsDecoded live rest h)
  where
    either : (b : Bool) → IsDecoded (if b then kill r else r)
    either true = bare
    either false = bare

Cut-IsDecoded : {xs ys : List OpRecord} → Cut xs ys → All IsDecoded xs → All IsDecoded ys
Cut-IsDecoded done h = h
Cut-IsDecoded (same k) (bare, h) = (bare, Cut-IsDecoded k h)
Cut-IsDecoded (cut b k) (bare, h) = (bare, Cut-IsDecoded k h)

-- What a compaction writes: the number of operations left and these, every group with the hint 0.
pub record IsWritten (ops : List OpRecord) (out : CompactionResult) : Type 0 where
  pub left : List OpRecord
  pub compacted : IsCompacted ops left
  pub bytes :
      out.journal_bytes ≡ varint (length (survivors left) % u32_mod) ++ lines (survivors left)
  pub output_count : out.stats.output_op_count ≡ length (survivors left) % u32_mod
  pub input_count : out.stats.input_op_count ≡ length ops

-- Compaction of any fewer than 2^32 operations, of which none is marked and no BeginGroup has children
-- yet, as `decode_op` leaves them, indexes nothing out of range and gives a journal: the number of the
-- operations that `IsCompacted` leaves and these in their order, each as its opcode and operands, with
-- every group's hint 0, whatever the number of its children; the statistics count the operations read
-- and written.
pub reencode-IsWritten :
    (ops : List OpRecord)
    → length ops < u32_mod
    → All IsUnmarked ops
    → All IsDecoded ops
    → (out : CompactionResult) × (reencode ops ≡ ok out) × IsWritten ops out
unfolding reencode
reencode-IsWritten ops small new h =
    let (marked, e, compacted) = mark-IsCompacted ops new in
    let surviving : Map ℕ ℕ =
      (count_children 0 marked.0 (record { stack = []; surviving = [] })).surviving in
    let written =
      encode_ops-lines 0 surviving marked.0
        (Cut-IsDecoded compacted.cut (settled-IsDecoded (lives_in ops) ops h)) in
    (
      _,
      bind-ok _ e,
      record {
        left = marked.0;
        compacted = compacted;
        bytes = ap (λ (p : List ℕ × ℕ). varint p.1 ++ p.0) written;
        output_count = ap (λ (p : List ℕ × ℕ). p.1) written;
        input_count = omega (arith, small);
      },
    )
