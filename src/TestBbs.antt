-- ===== src/TestBbs.antt =====
-- test_bbs/main/main.c: the program that drives a board over the air and checks its answers.
pub mod Link
pub mod Sending
pub mod Reading
pub mod Tokens
pub mod Waiting
pub mod Action
pub mod Context
pub mod Parsing
pub mod Answers
pub mod Stored
pub mod Response
pub mod Login
pub mod Session
pub mod Config
pub mod Posting
pub mod Rereading
pub mod Private
pub mod Script
pub mod Consistent
pub mod Counters
mod Tests
