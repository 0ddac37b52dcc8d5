-- ===== src/ThreadPool.antt =====
-- src/threadutil/ThreadPool.cpp and src/inc/ThreadPool.h: the pool of worker threads and its
-- queues of jobs. A worker object is a number, the clock (milliseconds) an argument.
-- `SetPolicyType` and `SetPriority` are calls of the operating system that change no field.
pub mod Defs
pub mod Jobs
pub mod Threads
