-- ===== src/Runs.antt =====
-- Concrete inputs; the children run the code on them.
mod Vm
mod Codecs
mod Frames
mod Graph
mod Containers
mod Queries
mod Diffs
mod Registries
use stratavm.Base.{ℕ, ◌*◌, ◌≡◌, max, refl, Bool, true, false, ◌&&◌, ltb, List, [], ◌∷◌, All, arith}
use stratavm.Format.{ValueType, default_limits}
use stratavm.Reader.{reader_of}
use stratavm.Reader.Bounds.{IsByte, IsValid}
use stratavm.Atoms.{AtomPool}
use stratavm.Schema.{Schema}
use stratavm.Node.{Node, fresh}
use stratavm.Table.{Allocator}
use stratavm.Loader.{LoadOptions}

abbrev pub all_bytes : List ℕ → Bool
all_bytes [] = true
all_bytes (b ∷ rest) = ltb b 256 && all_bytes rest

pub all_bytes-IsByte : (bytes : List ℕ) → all_bytes bytes ≡ true → All IsByte bytes
all_bytes-IsByte [] h = tt
all_bytes-IsByte (b ∷ rest) h = (ground arith, all_bytes-IsByte rest (ground arith))

pub reader_of-IsValid : (bytes : List ℕ) → all_bytes bytes ≡ true → IsValid (reader_of bytes)
reader_of-IsValid bytes h = record { within = omega arith; bytes = all_bytes-IsByte bytes h }

-- A vector that doubles.
abbrev pub doubling : Allocator
doubling = record {
  grow = λ old needed. max (old * 2) needed;
  grow_enough = λ old needed. omega arith;
}

abbrev pub options : LoadOptions
options = record { limits = default_limits; run_journal = true; strict_validation = false }

abbrev pub doc : List ℕ
doc = b'd' ∷ b'o' ∷ b'c' ∷ []

-- Two texts, the second of which no node is named by yet.
abbrev pub pool : AtomPool
pool = record { atoms = doc ∷ (b'a' ∷ []) ∷ []; index = (doc, 0) ∷ (b'a' ∷ [], 1) ∷ [] }

abbrev pub one_kind : Schema
one_kind = record {
  kinds =
      record { name = 0; fields = record { name = 1; type = ValueType.ref; flags = 1 } ∷ [] } ∷ [];
}

abbrev pub root : Node
root = record fresh { id = 0; kind = 0; name = 0 }

abbrev pub leaf : Node
leaf = record fresh { id = 1; kind = 0; name = 1; refs = 0 ∷ [] }

-- A file with one section, the journal of one NOP.
abbrev pub file : List ℕ
file =
    b'S' ∷ b'T' ∷ b'R' ∷ b'A' ∷ b'T' ∷ b'A' ∷ b'V' ∷ b'M' ∷ 1 ∷ 0 ∷ 0 ∷ 0 ∷ 1 ∷ 0 ∷ 0 ∷ 0 ∷ b'J'
    ∷ b'R' ∷ b'N' ∷ b'L' ∷ 1 ∷ 0 ∷ 0 ∷ 0 ∷ 32 ∷ 0 ∷ 0 ∷ 0 ∷ 2 ∷ 0 ∷ 0 ∷ 0 ∷ 1 ∷ 10 ∷ []
