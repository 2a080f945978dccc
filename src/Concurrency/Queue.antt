-- ===== src/Concurrency/Queue.antt =====
-- critical_concurrency/queue.c: a linked queue that threads share, with or without a maximal size.
pub mod Defs
pub mod Segment
pub mod Fifo
pub mod Waiting
