-- ===== src/Atoms.antt =====
-- include/stratavm/atom_pool.hpp and src/atom_pool.cpp: the interned string table. A string is its
-- bytes; `index` is the reverse map.
pub mod Invariant
use stratavm.Base.{
  ℕ, zero, suc, ◌+◌, ◌%◌, Bool, true, false, not, ◌&&◌, ltb, ◌==◌, List, [], ◌∷◌, ◌++◌, length,
  get_elem?, Option, none, some,
}
use stratavm.Base.Maps.{Map, bytes_eq, lookup, insert}
use stratavm.Status.{limit_exceeded, bad_atom_pool}
use stratavm.Format.{Limits, invalid_id, u32_mod}
use stratavm.Reader.{
  Decoder, ◌>>=◌, ◌>>◌, return, refuse_if, recode, read_varint_u32, read_lp_string,
}
use stratavm.Writer.{varint, lp_string}

pub record AtomPool : Type 0 where
  pub atoms : List (List ℕ)
  pub index : Map (List ℕ) ℕ

abbrev pub empty : AtomPool
empty = record { atoms = []; index = [] }

abbrev pub get : AtomPool → ℕ → Option (List ℕ)
get p id = get_elem? p.atoms id

abbrev id_or : ℕ → Option ℕ → ℕ
id_or d none = d
id_or d (some id) = id

unfoldable pub find : AtomPool → List ℕ → ℕ
find p s = id_or invalid_id (lookup s p.index)

-- `index_.emplace(s, id)` where `s` is not yet a key.
abbrev pub index_first : List ℕ → ℕ → Map (List ℕ) ℕ → Map (List ℕ) ℕ
index_first s id index = elim (lookup s index) [ none ↦ insert s id index | some _ ↦ index ]

abbrev pub add : ℕ → List ℕ → AtomPool → AtomPool
add id s p = record { atoms = p.atoms ++ s ∷ []; index = index_first s id p.index }

unfoldable pub intern : List ℕ → AtomPool → AtomPool × ℕ
intern s p = elim (lookup s p.index) [
  | some id ↦ (p, id)
  | none ↦ (add (length p.atoms % u32_mod) s p, length p.atoms % u32_mod)
]

-- The loop of `decode`, with `rounds` atoms left and `i` read.
pub decode_atoms : Limits → ℕ → ℕ → AtomPool → Decoder AtomPool
decode_atoms limits zero i p = return p
decode_atoms limits (suc rounds) i p = do
  s ← recode bad_atom_pool (read_lp_string limits.max_atom_len)
  decode_atoms limits rounds (i + 1) (add i s p)

unfoldable pub decode : Limits → Decoder AtomPool
decode limits = do
  count ← read_varint_u32
  refuse_if (ltb limits.max_atoms count) limit_exceeded
  decode_atoms limits count 0 empty

abbrev is_none : {A : Type 0} → Option A → Bool
is_none none = true
is_none (some a) = false

-- `id != kInvalidAtom && get(id) == nullptr`, the test of an optional name.
unfoldable pub lacks : AtomPool → ℕ → Bool
lacks p id = not (id == invalid_id) && is_none (get p id)

-- The atom section as `ContainerBuilder::build_atom_section` writes it.
unfoldable pub write_atoms : List (List ℕ) → List ℕ
write_atoms [] = []
write_atoms (s ∷ rest) = lp_string s ++ write_atoms rest

unfoldable pub build_atom_section : List (List ℕ) → List ℕ
unfolding write_atoms
build_atom_section atoms = varint (length atoms) ++ write_atoms atoms
