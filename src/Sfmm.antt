-- ===== src/Sfmm.antt =====
-- The memory allocator of hw3: src/sfmm_block.c, src/sfmm.c and src/sfmm_analytics.c, over a memory
-- of 64-bit words at byte addresses.
pub mod Word
pub mod SizeClass
pub mod Memory
pub mod Lists
pub mod Coalescing
pub mod Allocation
pub mod Release
