-- ===== src/Concurrency.antt =====
-- critical_concurrency: monitors over a mutex and a condition variable. The body of each function
-- runs under the mutex, so it is one step of a thread up to its end or to its next wait.
pub mod Semamore
pub mod Barrier
pub mod Queue
pub mod Rendezvous
mod Examples
