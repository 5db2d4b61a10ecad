-- ===== src/Threads.antt =====
-- The programs EX04, threads that share a counter, and the server EX07-06 with a thread for each
-- client: one access to shared memory at a time.
pub mod Clients
pub mod Process
pub mod Race
pub mod Mutex
pub mod Bounded
pub mod Semaphore
pub mod Bread
