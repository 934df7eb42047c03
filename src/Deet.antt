-- ===== src/Deet.antt =====
-- The process tracker of hw4: src/track_children.c, src/child_processes.c, src/signaling.c and the
-- text helpers of src/util.c.
pub mod Children
pub mod Commands
pub mod Reaping
pub mod Text
pub mod Dispatch
pub mod Input
pub mod Waiting
