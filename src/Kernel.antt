-- ===== src/Kernel.antt =====
-- The state of threads/thread.h, threads/synch.h, threads/thread.c and devices/timer.c: the
-- structures in memory by their addresses, and the static variables. A pointer is a number, and 0
-- is NULL. An `int` is an integer in the range of `int`.
mod State
mod Stores
mod Monad
pub use State.*
pub use Stores.*
pub use Monad.*
