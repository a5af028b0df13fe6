-- ===== src/Shmem.antt =====
-- core/shmem_ipc: a ring of segments in shared memory, and the two-way channel built on it.
pub mod Params
pub mod Sizes
pub mod Queue
pub mod Ring
pub mod Create
pub mod Channel
