-- ===== src/Vm.antt =====
-- include/stratavm/replay_vm.hpp and src/replay_vm.cpp: the machine that replays the journal.
-- A handler takes the machine and returns it with the reader behind the operands. A handler that
-- fails has changed nothing of the machine, so an error carries no state. The back of `frames_` is
-- the head of `frames`. `uint32_t` counters wrap.
mod State
mod Ops
mod Groups
pub mod Kept
pub mod Safety
pub mod GroupSafety
pub mod Seed
pub mod Owners
unfoldable pub use State.*
unfoldable pub use Ops.*
unfoldable pub use Groups.*
