-- ===== src/Threading.antt =====
-- kernel/src/threading: the resources of a process, processes, the scheduler, and the calls on
-- them.
pub mod Resources
pub mod Processes
pub mod DataSegment
pub mod Areas
pub mod LinkedList
pub mod Scheduler
pub mod Expose
mod Tests
