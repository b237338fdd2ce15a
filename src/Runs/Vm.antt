-- ===== src/Runs/Vm.antt =====
-- Runs of the machine and the loader on concrete inputs.
use stratavm.Base.{ℕ, ◌≡◌, refl, List, [], ◌∷◌, length, arith}
use stratavm.Base.Maps.{nat_eq, lookup}
use stratavm.Status.{ok, fault, dangling, Contained}
use stratavm.Format.{default_limits}
use stratavm.Reader.{reader_of}
use stratavm.Reader.Bounds.{Moved}
use stratavm.Vm.{ReplayVm, GroupFrame, Context, initial, step, run, resolve_frame, find_named}
use stratavm.Vm.Kept.{IsInRange, KeptVm}
use stratavm.Vm.GroupSafety.{step-Tame, run-Tame}
use stratavm.Vm.Owners.{Adopted, resolve_frame-Adopted, resolve_frame-dangling}
use stratavm.Loader.{load}
use stratavm.Loader.Safety.{LoadedOk, load-Contained}
use stratavm.Runs.{
  all_bytes-IsByte, reader_of-IsValid, doubling, options, pool, one_kind, root, file,
}

abbrev machine : ℕ → ReplayVm
machine capacity = record initial {
  nodes = record { items = root ∷ []; capacity = capacity; block = 1 };
  name_index = (0, 0) ∷ [];
}

abbrev context : Context
context = record { alloc = doubling; schema = one_kind; atoms = pool; limits = default_limits }

machine-IsInRange : (capacity : ℕ) → IsInRange (machine capacity)
unfolding lookup
machine-IsInRange capacity = record {
  nodes_ok = (record { id_ok = omega arith; refs_ok = tt; children_ok = tt }, tt);
  names_ok = λ name id e. ground arith;
  frames_ok = tt;
}

abbrev group : GroupFrame
group = record {
  owner_id = 0;
  owner_cache = record { block = 1; offset = 0 };
  owner_name = 0;
  reserve_hint = 1;
  deferred_children = 1 ∷ [];
}

-- BEGIN_GROUP "doc" with room for one, ADD_CHILD "a", END_GROUP.
abbrev journal : List ℕ
journal = 3 ∷ 3 ∷ 0 ∷ 1 ∷ 5 ∷ 1 ∷ 4 ∷ []

load-Contained_example : Contained (LoadedOk options 34) (load doubling options file)
load-Contained_example = load-Contained doubling options file (all_bytes-IsByte file refl)

step-Tame_example :
    Contained
      (λ s. KeptVm 1 (machine 2) s.0 × Moved (reader_of (10 ∷ [])) s.1)
      (step context (machine 2) (reader_of (10 ∷ [])))
step-Tame_example =
    (step-Tame context (machine 2) (machine-IsInRange 2)).at (reader_of (10 ∷ []))
      (reader_of-IsValid (10 ∷ []) refl)

run-Tame_example :
    Contained
      (λ s.
        (KeptVm default_limits.max_journal_ops (machine 2) s.0 × (s.0.frames ≡ []))
        × Moved (reader_of journal) s.1)
      (run context (machine 2) (reader_of journal))
run-Tame_example =
    (run-Tame context (machine 2) (machine-IsInRange 2)).at (reader_of journal)
      (reader_of-IsValid journal refl)

resolve_frame-Adopted_example :
    (vm' : ReplayVm) × (targets : List ℕ) × (resolve_frame context group (machine 2) ≡ ok vm')
    × Adopted 0 targets (machine 2) vm'
    × (length targets ≡ 1)
resolve_frame-Adopted_example =
    resolve_frame-Adopted context group (machine 2) (machine-IsInRange 2) refl (omega arith)
      (omega arith)

resolve_frame-dangling_example : resolve_frame context group (machine 1) ≡ fault dangling
unfolding lookup find_named
resolve_frame-dangling_example =
    resolve_frame-dangling context group 1 [] (machine 1) refl refl refl (omega arith)
