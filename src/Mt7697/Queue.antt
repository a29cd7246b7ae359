-- ===== src/Mt7697/Queue.antt =====
-- The shared-memory queues of linux_kernel_modules/mt7697q/queue.c.
pub mod State
pub mod Pointers
pub mod Transfer
pub mod Info
pub mod Control
pub mod Receive
pub mod Contents
pub mod Between
pub mod Run
pub mod Chunks
pub mod Reading
pub mod Writing
pub mod Putting
pub mod Appending
pub mod Roundtrip
pub mod Flags
pub mod Descriptor
pub mod Mutex
pub mod Locking
pub mod Interrupts
pub mod Lifecycle
