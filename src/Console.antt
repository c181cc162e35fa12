-- ===== src/Console.antt =====
-- The console of xv6-core/console.c: the edited line, the command history with its completion, and the
-- reader that it feeds.
mod Defs
mod Keys
pub mod History
pub mod Line
pub mod Typing
pub mod Reading
pub mod Completion
mod Tests
unfoldable pub use Defs.*
unfoldable pub use Keys.*
