-- ===== src/Concurrency.antt =====
-- concurrency/: the wrappers of the kernel's processes and threads.
pub mod Places
pub mod Process
pub mod Thread
pub mod Mutex
pub mod Examples
