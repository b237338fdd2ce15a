-- ===== src/Compactor/Compact.antt =====
-- src/compactor.cpp: `JournalCompactor::compact`.
use stratavm.Base.{ℕ, zero, suc, Bool, true, false, not, List, [], ◌∷◌}
use stratavm.Status.{group_underflow}
use stratavm.Reader.{Decoder, ◌>>=◌, ◌>>◌, return, lift, refuse_if, read_varint_u32}
use stratavm.Schema.{Schema}
use stratavm.Compactor.{OpRecord, Decoding, decode_op}
use stratavm.Compactor.Reencode.{CompactionResult, reencode}

unfoldable pub decode_ops : Schema → ℕ → Decoding → Decoder (List OpRecord × Decoding)
unfolding decode_op
decode_ops schema zero s = return ([], s)
decode_ops schema (suc rounds) s = do
  first ← decode_op schema s
  more ← decode_ops schema rounds first.1
  return (first.0 ∷ more.0, more.1)

abbrev pub is_empty : List OpRecord → Bool
is_empty [] = true
is_empty (_ ∷ _) = false

unfoldable pub compact : Schema → Decoder CompactionResult
unfolding decode_ops reencode
compact schema = do
  op_count ← read_varint_u32
  decoded ← decode_ops schema op_count (record { node_kinds = []; group_stack = [] })
  refuse_if (not (is_empty decoded.1.group_stack)) group_underflow
  lift (reencode decoded.0)
