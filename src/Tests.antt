-- ===== src/Tests.antt =====
-- Concrete runs of the operations, and each theorem at an input that meets its hypotheses.
mod Async
mod Attachment
mod Rate
mod Rewrite
mod Ring2
mod Sender
mod Shmem
mod Table
mod Wire
