-- ===== src/Memory.antt =====
-- kernel/src/memory: alignment, page indices, the frame allocator.
pub mod Align
pub mod FrameAllocator
pub mod Paging
pub mod Userspace
pub mod Buddy
pub mod PageAllocator
pub mod Bindings
mod Tests
