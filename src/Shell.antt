-- ===== src/Shell.antt =====
-- Project 1: a shell. The line that was read lies in a buffer of 512 bytes, and a pointer into it
-- is an offset. The functions cut strings in place by writing terminators; an access outside the
-- buffer, which they do not test, is a fault.
pub mod Text
pub mod Parse
pub mod Line
pub mod Pipes
pub mod Stage
pub mod Search
pub mod Cut
pub mod Parsed
pub mod Redirect
pub mod Names
pub mod Ends
pub mod Streams
pub mod Plain
pub mod Wired
pub mod Overflow
mod Tests
