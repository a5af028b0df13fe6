-- ===== src/Shmem2.antt =====
-- core/shmem_ipc_2: the shared memory of the nano attachment. Its ring and its channel are those of
-- core/shmem_ipc with the parameters of both queues in one structure that the channel owns.
pub mod Channel
pub mod Create
pub mod Queue
pub mod Sizes
