-- ===== src/Resumable.antt =====
-- src/resumable.cppm: the bridges between awaitables that are polled and coroutines that are resumed.
pub mod ToPollable
pub mod ToResumable
