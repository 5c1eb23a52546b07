-- ===== src/Linker/Resolve.antt =====
-- linker_resolve.c: the three passes over the requests.
pub mod Find
pub mod Chain
pub mod Refs
pub mod Updates
pub mod Rolemaps
pub mod Post
pub mod Passes
