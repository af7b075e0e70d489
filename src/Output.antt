-- ===== src/Output.antt =====
-- output.h: the log. A message is gathered by a `Dump` and printed when it is flushed.
pub mod Channel
pub mod Dump
pub mod Choice
pub mod Print
pub mod Prompt
mod Tests
pub mod Text
pub mod Null
pub mod Checks
pub mod Capture
pub mod Ask
