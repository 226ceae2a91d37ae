-- ===== src/Ring.antt =====
-- src/base/RingQueue.h and src/base/RingQueue.cpp: the ring of bytes with counters that run freely
-- in 32 bits, which carries messages between the main thread and the network thread.
pub mod Defs
pub mod Masks
pub mod Windows
pub mod Parts
pub mod Copies
pub mod Contents
pub mod Queue
pub mod Pop
pub mod Create
pub mod Steps
pub mod Refine
