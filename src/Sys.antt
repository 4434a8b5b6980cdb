-- ===== src/Sys.antt =====
-- The system that the library runs on. System calls and libc's database calls are not code of the
-- repository: `Os` gives the answer to each as a function of the calls made so far, and a run
-- records every call with its answer in its trace, newest first.
mod Types
mod Answers
mod Monad
pub mod Balance
pub mod Returns
pub mod Gives
pub mod Quiet
pub mod Count
pub mod Notes
unfoldable pub use Types.*
unfoldable pub use Answers.*
unfoldable pub use Monad.*
