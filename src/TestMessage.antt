-- ===== src/TestMessage.antt =====
-- test_message/main/main.c: the program that posts, reads and deletes random messages.
pub mod Bodies
pub mod Entries
pub mod Script
pub mod Verdict
mod Tests
