-- ===== src/Examples.antt =====
-- The theorems at concrete inputs, and runs of the models.
mod Registry
mod Allocator
mod Tracker
mod Grades
mod Normalize
mod Server
mod Taxonomy
