-- ===== src/ThreadPool.antt =====
-- include/thread_pool.h and src/thread_pool.c. `ThreadPool.Queue` has the pool's structure and its
-- linked work queue, `ThreadPool.Worker` what a worker does with a packet, `ThreadPool.System` the
-- threads as interleaved steps, `ThreadPool.Creation` and `ThreadPool.Destroy` a pool's start and end;
-- the other children are about these.
pub mod Queue
pub mod Chain
pub mod Fifo
pub mod Worker
pub mod Recording
pub mod System
pub mod Phases
pub mod Safety
pub mod Moves
pub mod Reach
pub mod Creation
pub mod Shutdown
pub mod Awake
pub mod Destroy
pub mod Release
pub mod Ends
pub mod Counting
mod Tests
mod ShutdownTests
