-- ===== src/Grades.antt =====
-- The gradebook of hw2: sorting of rosters (src/sort.c), and the frequency tables
-- and extremes of scores (src/stats.c).
pub mod Sorting
pub mod Rosters
pub mod Frequencies
pub mod Extremes
pub mod Course
pub mod Links
pub mod Statistics
pub mod Normal
pub mod Normalize
pub mod Templates
