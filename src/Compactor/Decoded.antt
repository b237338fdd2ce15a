-- ===== src/Compactor/Decoded.antt =====
-- src/compactor.cpp: what the decoder leaves in the operations.
use stratavm.Base.{
  ℕ, zero, suc, ◌≡◌, refl, ap, sym, subst, List, [], ◌∷◌, length, All, All-map, arith,
}
use stratavm.Status.{Result, ok, returns, bad_opcode, group_underflow}
use stratavm.Format.{OpCode, default_limits, opcode_of}
use stratavm.Reader.{lift}
use stratavm.Reader.Bounds.{
  Safe, bind-Safe, return-Safe, fail-Safe, refuse_if-Safe, read_u8-Safe, Moved-refl,
}
use stratavm.Reader.Words.{read_varint_u32-Safe}
use stratavm.Value.Safety.{decode-Safe}
use stratavm.Schema.{Schema}
use stratavm.Compactor.{
  OpRecord, Decoding, or_int, field_type_for, pop_group, decode_operands, decode_op,
}
use stratavm.Compactor.Reencode.{reencode}
use stratavm.Compactor.Compact.{decode_ops, compact}
use stratavm.Compactor.Settled.{IsUnmarked}
use stratavm.Compactor.Output.{IsDecoded, IsWritten, reencode-IsWritten}

-- Not marked, and a BeginGroup without children.
abbrev AsDecoded : OpRecord → Type 0
AsDecoded r = IsUnmarked r × IsDecoded r

pop_group-Safe : (s : Decoding) → Safe (pop_group s) (λ d. AsDecoded d.0)
pop_group-Safe s =
    elim s.group_stack
      as (λ stack. Safe (pop_group (record s { group_stack = stack })) (λ d. AsDecoded d.0)) [
        | [] ↦ fail-Safe group_underflow
        | top ∷ rest ↦ return-Safe _ (refl, tt)
      ]

decode_operands-Safe :
    (schema : Schema) (s : Decoding) (op : OpCode)
    → Safe (decode_operands schema s op) (λ d. AsDecoded d.0)
unfolding decode_operands
decode_operands-Safe schema s OpCode.new_node =
    bind-Safe read_varint_u32-Safe
      λ k _. bind-Safe read_varint_u32-Safe λ n _. return-Safe _ (refl, tt)
decode_operands-Safe schema s OpCode.set_field = bind-Safe read_varint_u32-Safe λ n _.
    bind-Safe read_varint_u32-Safe λ f _.
      bind-Safe (decode-Safe default_limits (or_int (field_type_for n f s.node_kinds schema)))
        λ v _. return-Safe _ (refl, tt)
decode_operands-Safe schema s OpCode.begin_group =
    bind-Safe read_varint_u32-Safe
      λ o _. bind-Safe read_varint_u32-Safe λ h _. return-Safe _ (refl, refl)
decode_operands-Safe schema s OpCode.end_group = pop_group-Safe s
decode_operands-Safe schema s OpCode.add_child =
    bind-Safe read_varint_u32-Safe λ c _. return-Safe _ (refl, tt)
decode_operands-Safe schema s OpCode.link_ref = bind-Safe read_varint_u32-Safe λ n _.
    bind-Safe read_varint_u32-Safe
      λ f _. bind-Safe read_varint_u32-Safe λ t _. return-Safe _ (refl, tt)
decode_operands-Safe schema s OpCode.drop_node =
    bind-Safe read_varint_u32-Safe λ n _. return-Safe _ (refl, tt)
decode_operands-Safe schema s OpCode.snapshot =
    bind-Safe read_varint_u32-Safe λ l _. return-Safe _ (refl, tt)
decode_operands-Safe schema s OpCode.set_meta =
    bind-Safe read_varint_u32-Safe
      λ k _. bind-Safe read_varint_u32-Safe λ v _. return-Safe _ (refl, tt)
decode_operands-Safe schema s OpCode.nop = return-Safe _ (refl, tt)

decode_ops-Safe :
    (schema : Schema) (rounds : ℕ) (s : Decoding)
    → Safe (decode_ops schema rounds s) (λ d. (length d.0 ≡ rounds) × All AsDecoded d.0)
unfolding decode_ops decode_op
decode_ops-Safe schema zero s = return-Safe _ (refl, tt)
decode_ops-Safe schema (suc rounds) s =
    bind-Safe
      (bind-Safe read_u8-Safe λ raw_op _.
        bind-Safe (refuse_if-Safe _ bad_opcode)
          λ _ _. decode_operands-Safe schema s (opcode_of raw_op))
      λ first bare.
        bind-Safe (decode_ops-Safe schema rounds first.1)
          λ more h. return-Safe _ (ap suc h.0, (bare, h.1))

-- A result that is known.
lifted-Safe {κ} :
    {A : Type 0} {P : A → Type κ} {m : Result A} {a : A} → m ≡ ok a → P a → Safe (lift m) P
lifted-Safe {P = P} e p =
    subst (λ m. Safe (lift m) P) (sym e) (record { at = λ r v. returns (p, Moved-refl v) })

-- On any bytes compaction indexes nothing out of range, whatever groups the journal opens, nests and
-- leaves empty; and what it gives is the journal of some operations, as `IsWritten` says.
pub compact-Safe :
    (schema : Schema)
    → Safe
        (compact schema)
        (λ out. (ops : List OpRecord) × (reencode ops ≡ ok out) × IsWritten ops out)
unfolding compact
compact-Safe schema = bind-Safe read_varint_u32-Safe λ op_count small.
    bind-Safe (decode_ops-Safe schema op_count (record { node_kinds = []; group_stack = [] }))
      λ decoded h. bind-Safe (refuse_if-Safe _ group_underflow) λ _ _.
        let (out, e, written) =
          reencode-IsWritten decoded.0 (omega (arith, small, h.0))
            (All-map _ _ decoded.0 (λ r k. k.0) h.1) (All-map _ _ decoded.0 (λ r k. k.1) h.1) in
        lifted-Safe e (decoded.0, e, written)
