-- ===== src/Table.antt =====
-- `std::vector`, as far as pointers to its elements go: the elements, the capacity, and the number of
-- the storage block that holds them. A call that reallocates moves the elements to a new block. How
-- much it then asks for is the library's choice, a parameter.
use stratavm.Base.{
  ℕ, suc, ◌+◌, ◌≤◌, ltb, if◌then◌else◌, List, [], ◌∷◌, ◌++◌, length, get_elem?, set, Option,
}

-- The capacity after a reallocation, from the old one and the number of elements that must fit.
pub record Allocator : Type 0 where
  pub grow : ℕ → ℕ → ℕ
  pub grow_enough : (old needed : ℕ) → needed ≤ grow old needed

pub record Table (A : Type 0) : Type 0 where
  pub items : List A
  pub capacity : ℕ
  pub block : ℕ

-- A pointer to an element.
pub record Pointer : Type 0 where
  pub block : ℕ
  pub offset : ℕ

module _ {A : Type 0} where
  abbrev pub empty : Table A
  empty = record { items = []; capacity = 0; block = 0 }

  -- Room for `needed` elements; the elements stay where they are if there is room already.
  abbrev pub relocate : Allocator → ℕ → Table A → Table A
  relocate alloc needed t = record t {
    capacity = if ltb t.capacity needed then alloc.grow t.capacity needed else t.capacity;
    block = if ltb t.capacity needed then suc t.block else t.block;
  }

  unfoldable pub reserve : Allocator → ℕ → Table A → Table A
  reserve alloc n t = relocate alloc n t

  unfoldable pub push_back : Allocator → A → Table A → Table A
  push_back alloc a t =
      let t' = relocate alloc (length t.items + 1) t in record t' { items = t.items ++ a ∷ [] }

  abbrev pub at : Table A → ℕ → Option A
  at t i = get_elem? t.items i

  abbrev pub put : ℕ → A → Table A → Table A
  put i a t = record t { items = set t.items i a }
