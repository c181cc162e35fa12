-- ===== src/Pipe.antt =====
-- xv6-core/pipe.c: the pipe buffer and its operations pipealloc (the new pipe), pipeclose,
-- pipewrite and piperead. Each runs under the pipe's spin lock from entry to return or to sleep,
-- so a call is one step here; a call that sleeps releases the lock and runs its loop test again
-- when it wakes, which is a second call with what is left to do.
mod Defs
pub mod Contents
pub mod Calls
pub mod History
mod Tests
unfoldable pub use Defs.*
