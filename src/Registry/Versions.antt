-- ===== src/Registry/Versions.antt =====
-- src/schema_registry.cpp: `register_version` and the order of the versions.
use stratavm.Base.{
  ℕ, ◌+◌, ◌<◌, ◌≡◌, ◌≢◌, refl, ◌∙◌, ltb, ltb→lt, ltb→le, ◌==◌, if◌then◌else◌, if-both, if-cases,
  subst, Option-cases, inl, inr, [], ◌∷◌, ◌++◌, length, All, All-map, none, some, arith,
}
use stratavm.Base.Maps.{Map, nat_eq, lookup}
use stratavm.Status.{Result, ok, err, invariant_violation}
use stratavm.Registry.{
  SchemaVersion, SchemaRegistry, insert_ordered, find, register_version, version_count,
}

unfoldable pub IsAscending : {V : Type 0} → Map ℕ V → Type 0
IsAscending [] = Unit
IsAscending ((k, _) ∷ m) = All (λ p. k < p.0) m × IsAscending m

module _ {V : Type 0} where
  insert_ordered-All :
      (P : ℕ × V → Type 0) (k : ℕ) (v : V) (m : Map ℕ V)
      → P (k, v)
      → All P m
      → All P (insert_ordered ltb k v m)
  unfolding insert_ordered
  insert_ordered-All P k v [] p h = (p, tt)
  insert_ordered-All P k v ((j, w) ∷ m) p h =
      if-both (All P) (ltb k j) (p, h)
        (if-both (All P) (ltb j k) (h.0, insert_ordered-All P k v m p h.1) (p, h.1))

  insert_ordered-IsAscending :
      (k : ℕ) (v : V) (m : Map ℕ V) → IsAscending m → IsAscending (insert_ordered ltb k v m)
  unfolding insert_ordered IsAscending
  insert_ordered-IsAscending k v [] h = (tt, tt)
  insert_ordered-IsAscending k v ((j, w) ∷ m) h =
      if-cases IsAscending (ltb k j)
        (λ below. (
          (ltb→lt k j below, All-map _ _ m (λ q above. omega (arith, above, ltb→lt k j below)) h.0),
          h,
        ))
        λ from.
          if-cases IsAscending (ltb j k)
            (λ above. (
              insert_ordered-All (λ q. j < q.0) k v m (ltb→lt j k above) h.0,
              insert_ordered-IsAscending k v m h.1,
            ))
            λ to. (
              subst (λ n. All (λ q. n < q.0) m) (omega (arith, ltb→le _ _ from, ltb→le _ _ to)) h.0,
              h.1,
            )

  lookup-insert_ordered :
      (k j : ℕ) (v : V) (m : Map ℕ V)
      → lookup j (insert_ordered ltb k v m) ≡ (if k == j then some v else lookup j m)
  unfolding insert_ordered lookup
  lookup-insert_ordered k j v [] = refl
  lookup-insert_ordered k j v ((i, w) ∷ m) = ground (arith, lookup-insert_ordered k j v m)

  length-insert_ordered :
      (k : ℕ) (v : V) (m : Map ℕ V)
      → lookup k m ≡ none
      → length (insert_ordered ltb k v m) ≡ length m + 1
  unfolding insert_ordered lookup
  length-insert_ordered k v [] h = refl
  length-insert_ordered k v ((i, w) ∷ m) h = ground (arith, length-insert_ordered k v m)

  -- A key above all others goes to the end.
  pub insert_ordered_last :
      (k : ℕ) (v : V) (m : Map ℕ V)
      → All (λ p. p.0 < k) m
      → insert_ordered ltb k v m ≡ m ++ (k, v) ∷ []
  unfolding insert_ordered
  insert_ordered_last k v [] h = refl
  insert_ordered_last k v ((j, w) ∷ m) (below, h) =
      ground (arith, below, insert_ordered_last k v m h)

  pub lookup_above : (k : ℕ) (m : Map ℕ V) → All (λ p. p.0 < k) m → lookup k m ≡ none
  unfolding lookup
  lookup_above k [] h = refl
  lookup_above k ((j, w) ∷ m) (below, h) = ground (arith, below, lookup_above k m h)

-- What a registration leaves: the version under its id, every other id as it was, one version more,
-- and the ids in order.
pub record IsRegistered (sv : SchemaVersion) (old new : SchemaRegistry) : Type 0 where
  pub found : find sv.version_id new ≡ some sv
  pub others : (j : ℕ) → sv.version_id ≢ j → find j new ≡ find j old
  pub one_more : version_count new ≡ version_count old + 1
  pub ascending : IsAscending new.versions

pub data Registration (sv : SchemaVersion) (old : SchemaRegistry)
    : Result SchemaRegistry → Type 0 where
  registers :
      {new : SchemaRegistry}
      → find sv.version_id old ≡ none
      → IsRegistered sv old new
      → Registration sv old (ok new)
  is_taken :
      {other : SchemaVersion}
      → find sv.version_id old ≡ some other
      → Registration sv old (err invariant_violation)

insert_ordered-IsRegistered :
    (sv : SchemaVersion) (old : SchemaRegistry)
    → IsAscending old.versions
    → find sv.version_id old ≡ none
    → IsRegistered sv old (record { versions = insert_ordered ltb sv.version_id sv old.versions })
insert_ordered-IsRegistered sv old h free = record {
  found = rw (lookup-insert_ordered sv.version_id sv.version_id sv old.versions) ground arith;
  others = λ j other. lookup-insert_ordered sv.version_id j sv old.versions ∙ ground (arith, other);
  one_more = length-insert_ordered sv.version_id sv old.versions free;
  ascending = insert_ordered-IsAscending sv.version_id sv old.versions h;
}

-- Registering in a registry whose ids ascend is refused with InvariantViolation if the id is taken, and
-- otherwise adds the version under its id, keeps what every other id finds, and keeps the ids
-- ascending.
pub register_version-Registration :
    (sv : SchemaVersion) (old : SchemaRegistry)
    → IsAscending old.versions
    → Registration sv old (register_version sv old)
unfolding register_version
register_version-Registration sv old h = elim (Option-cases (find sv.version_id old)) [
  | inl free ↦
      rw (register_version, free) (registers free (insert_ordered-IsRegistered sv old h free))
  | inr (other, taken) ↦ rw (register_version, taken) (is_taken taken)
]
