-- ===== src/Control.antt =====
-- The operations of package workflow that write to the store and to the bus.
pub mod Cancel
pub mod Delete
pub mod Persist
pub mod Message
pub mod Hook
pub mod Pause
pub mod Signal
pub mod Breakpoint
