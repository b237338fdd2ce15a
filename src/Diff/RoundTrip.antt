-- ===== src/Diff/RoundTrip.antt =====
-- src/diff.cpp: `deserialize_diff` after `serialize_diff`.
use stratavm.Base.{
  ◌^◌, ◌<◌, ◌≡◌, refl, sym, false, not, ◌||◌, ◌==◌, List, [], ◌∷◌, length, All, subst, arith,
}
use stratavm.Status.{bad_value}
use stratavm.Format.{is_valid_value_type, value_type_of}
use stratavm.Reader.Reads.{Reads, bind-Reads, bind_last-Reads, refuse_if-Reads, return-Reads}
use stratavm.Writer.{u8, varint, svarint, f64}
use stratavm.Writer.RoundTrip.{varint_u32-Reads, svarint-Reads}
use stratavm.Writer.Fixed.{u8-Reads, f64-Reads}
use stratavm.Value.{Value, type_of, write_refs}
use stratavm.Value.RoundTrip.{IsU32, refs-Reads}
use stratavm.Schema.{raw_of}
use stratavm.Diff.{FieldChange, NodeChange, GraphDiff, no_changes, push_change}
use stratavm.Diff.Codec.{
  emit_value_payload, write_value, read_payload, read_value, write_field_changes, write_change,
  write_changes, serialize_diff, read_field_changes, read_change, read_changes, deserialize_diff,
}

-- The payload fits its C++ type.
abbrev pub Fits : Value → Type 0
Fits (Value.int v) = v < 2 ^ 64
Fits (Value.float v) = v < 2 ^ 64
Fits (Value.atom v) = IsU32 v
Fits (Value.ref v) = IsU32 v
Fits (Value.list items) = IsU32 (length items) × All IsU32 items
Fits Value.invalid = Unit {0}

payload-Reads : (v : Value) → Fits v → Reads (read_payload (type_of v)) (emit_value_payload v) v
unfolding read_payload emit_value_payload
payload-Reads (Value.int v) h =
    bind_last-Reads _ _ (svarint v) v _ (svarint-Reads v h) (return-Reads _)
payload-Reads (Value.float v) h = bind_last-Reads _ _ (f64 v) v _ (f64-Reads v h) (return-Reads _)
payload-Reads (Value.atom v) h =
    bind_last-Reads _ _ (varint v) v _ (varint_u32-Reads v h) (return-Reads _)
payload-Reads (Value.ref v) h =
    bind_last-Reads _ _ (varint v) v _ (varint_u32-Reads v h) (return-Reads _)
payload-Reads (Value.list items) h =
    bind-Reads _ _ (varint (length items)) _ (length items) _ (varint_u32-Reads _ h.0)
      (bind_last-Reads _ _ (write_refs items) items _ (refs-Reads items h.1) (return-Reads _))
payload-Reads Value.invalid h = return-Reads _

typed :
    (v : Value)
    → (raw_of (type_of v) < 256)
      × (not (is_valid_value_type (raw_of (type_of v)) || raw_of (type_of v) == 0xff) ≡ false)
      × (value_type_of (raw_of (type_of v)) ≡ type_of v)
unfolding is_valid_value_type value_type_of
typed (Value.int v) = (omega arith, refl, refl)
typed (Value.float v) = (omega arith, refl, refl)
typed (Value.atom v) = (omega arith, refl, refl)
typed (Value.ref v) = (omega arith, refl, refl)
typed (Value.list items) = (omega arith, refl, refl)
typed Value.invalid = (omega arith, refl, refl)

value-Reads : (v : Value) → Fits v → Reads read_value (write_value v) v
unfolding read_value write_value
value-Reads v h =
    let (byte, known, same) = typed v in
    bind-Reads _ _ (u8 (raw_of (type_of v))) _ (raw_of (type_of v)) _ (u8-Reads _ byte) (
      bind-Reads _ _ [] _ tt _ (refuse_if-Reads bad_value _ known) (
        subst (λ t. Reads (read_payload t) (emit_value_payload v) v) (sym same)
          (payload-Reads v h)))

pub record IsFieldChange (fc : FieldChange) : Type 0 where
  pub field_fits : IsU32 fc.field_idx
  pub before_fits : Fits fc.before
  pub after_fits : Fits fc.after

pub record IsChange (nc : NodeChange) : Type 0 where
  pub change_fits : nc.change < 256
  pub name_fits : IsU32 nc.name
  pub before_fits : IsU32 nc.before_id
  pub after_fits : IsU32 nc.after_id
  pub kind_fits : IsU32 nc.kind
  pub fields_fit : IsU32 (length nc.field_changes) × All IsFieldChange nc.field_changes
  pub added_fit : IsU32 (length nc.children_added) × All IsU32 nc.children_added
  pub removed_fit : IsU32 (length nc.children_removed) × All IsU32 nc.children_removed

field_changes-Reads :
    (fcs : List FieldChange)
    → All IsFieldChange fcs
    → Reads (read_field_changes (length fcs)) (write_field_changes fcs) fcs
unfolding read_field_changes write_field_changes
field_changes-Reads [] h = return-Reads []
field_changes-Reads (fc ∷ rest) (k, h) =
    bind-Reads _ _ (varint fc.field_idx) _ fc.field_idx _ (varint_u32-Reads _ k.field_fits) (
      bind-Reads _ _ (write_value fc.before) _ fc.before _ (value-Reads _ k.before_fits) (
        bind-Reads _ _ (write_value fc.after) _ fc.after _ (value-Reads _ k.after_fits) (
          bind_last-Reads _ _ (write_field_changes rest) rest _ (field_changes-Reads rest h)
            (return-Reads _))))

change-Reads : (nc : NodeChange) → IsChange nc → Reads read_change (write_change nc) nc
unfolding read_change write_change
change-Reads nc h = bind-Reads _ _ (u8 nc.change) _ nc.change _ (u8-Reads _ h.change_fits) (
    bind-Reads _ _ (varint nc.name) _ nc.name _ (varint_u32-Reads _ h.name_fits) (
      bind-Reads _ _ (varint nc.before_id) _ nc.before_id _ (varint_u32-Reads _ h.before_fits) (
        bind-Reads _ _ (varint nc.after_id) _ nc.after_id _ (varint_u32-Reads _ h.after_fits) (
          bind-Reads _ _ (varint nc.kind) _ nc.kind _ (varint_u32-Reads _ h.kind_fits) (
            bind-Reads _ _ (varint (length nc.field_changes)) _ _ _
              (varint_u32-Reads _ h.fields_fit.0)
              (bind-Reads _ _ (write_field_changes nc.field_changes) _ nc.field_changes _
                (field_changes-Reads _ h.fields_fit.1)
                (bind-Reads _ _ (varint (length nc.children_added)) _ _ _
                  (varint_u32-Reads _ h.added_fit.0)
                  (bind-Reads _ _ (write_refs nc.children_added) _ nc.children_added _
                    (refs-Reads _ h.added_fit.1)
                    (bind-Reads _ _ (varint (length nc.children_removed)) _ _ _
                      (varint_u32-Reads _ h.removed_fit.0)
                      (bind_last-Reads _ _ (write_refs nc.children_removed) nc.children_removed _
                        (refs-Reads _ h.removed_fit.1) (return-Reads nc)))))))))))

-- The changes pushed one after the other, which counts them.
unfoldable pub push_all : List NodeChange → GraphDiff → GraphDiff
push_all [] d = d
push_all (nc ∷ rest) d = push_all rest (push_change nc d)

changes-Reads :
    (ncs : List NodeChange) (d : GraphDiff)
    → All IsChange ncs
    → Reads (read_changes (length ncs) d) (write_changes ncs) (push_all ncs d)
unfolding read_changes write_changes push_all
changes-Reads [] d h = return-Reads d
changes-Reads (nc ∷ rest) d (k, h) =
    bind-Reads _ _ (write_change nc) _ nc _ (change-Reads nc k)
      (changes-Reads rest (push_change nc d) h)

-- A diff whose counters are those of its changes, and whose numbers and lengths fit their fields, is
-- read back from what `serialize_diff` writes, whatever follows.
pub deserialize_diff-serialize_diff :
    (d : GraphDiff)
    → length d.changes < 2 ^ 32
    → All IsChange d.changes
    → push_all d.changes no_changes ≡ d
    → Reads deserialize_diff (serialize_diff d) d
unfolding deserialize_diff serialize_diff
deserialize_diff-serialize_diff d few h counted =
    bind-Reads _ _ (varint (length d.changes)) _ (length d.changes) _ (varint_u32-Reads _ few) (
      subst (Reads (read_changes (length d.changes) no_changes) (write_changes d.changes)) counted
        (changes-Reads d.changes no_changes h))
