-- ===== src/Registered.antt =====
-- src/uring_ops.cpp: tables of files and buffers that are registered with a ring, and the
-- operations that use them.
pub mod Ops
pub mod Files
pub mod Buffers
pub mod World
pub mod Pins
pub mod Regions
mod Tests
