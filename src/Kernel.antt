-- ===== src/Kernel.antt =====
-- What the kernel modules ask of the kernel. The kernel itself is not in the repository: its answers
-- are arguments of the handlers, and what a function asks of it is a list of calls.
mod Defs
pub mod Time
pub mod Ledger
pub mod Clock
unfoldable pub use Defs.*
