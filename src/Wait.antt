-- ===== src/Wait.antt =====
-- src/wait_first.cppm and src/wait_all.cppm: several awaitables at once. They are a list of states
-- with one poll: awaitables of several types have a sum of their states and a poll by cases.
pub mod First
pub mod All
pub mod Iter
