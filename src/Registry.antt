-- ===== src/Registry.antt =====
-- include/stratavm/schema_registry.hpp and src/schema_registry.cpp: `SchemaRegistry`, the versions of
-- a schema. A `std::map` is the list of its entries in ascending order.
pub mod Codec
pub mod Migration
pub mod Conversion
pub mod Versions
pub mod RoundTrip
pub mod Kept
use stratavm.Base.{
  ℕ, Bool, true, false, ltb, ◌==◌, ◌&&◌, ◌||◌, if◌then◌else◌, List, [], ◌∷◌, length, map, Option,
  none, some,
}
use stratavm.Base.Maps.{Map, nat_eq, lookup}
use stratavm.Status.{Result, ok, err, invariant_violation}
use stratavm.Schema.{Schema}
use stratavm.Atoms.{AtomPool}

pub record SchemaVersion : Type 0 where
  pub version_id : ℕ
  pub description : List ℕ
  pub schema : Schema
  pub atoms : AtomPool

pub record SchemaRegistry : Type 0 where
  pub versions : Map ℕ SchemaVersion

abbrev pub new_registry : SchemaRegistry
new_registry = record { versions = [] }

-- `operator<` of `std::string`.
unfoldable pub bytes_lt : List ℕ → List ℕ → Bool
bytes_lt _ [] = false
bytes_lt [] (_ ∷ _) = true
bytes_lt (x ∷ xs) (y ∷ ys) = ltb x y || (x == y && bytes_lt xs ys)

-- `table[k] = v` on a `std::map` whose keys `lt` orders.
unfoldable pub insert_ordered : {K V : Type 0} → (K → K → Bool) → K → V → Map K V → Map K V
insert_ordered lt k v [] = (k, v) ∷ []
insert_ordered lt k v ((j, w) ∷ m) =
    let later = insert_ordered lt k v m in
    if lt k j then (k, v) ∷ (j, w) ∷ m else if lt j k then (j, w) ∷ later else (k, v) ∷ m

abbrev pub find : ℕ → SchemaRegistry → Option SchemaVersion
find version_id reg = lookup version_id reg.versions

unfoldable pub register_version : SchemaVersion → SchemaRegistry → Result SchemaRegistry
register_version sv reg = elim (lookup sv.version_id reg.versions) [
  | some _ ↦ err invariant_violation
  | none ↦ ok (record { versions = insert_ordered ltb sv.version_id sv reg.versions })
]

abbrev pub version_ids : SchemaRegistry → List ℕ
version_ids reg = map (λ (entry : ℕ × SchemaVersion). entry.0) reg.versions

abbrev pub version_count : SchemaRegistry → ℕ
version_count reg = length reg.versions
