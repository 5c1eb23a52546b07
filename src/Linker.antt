-- ===== src/Linker.antt =====
-- The linker: linker.c, linker_aliases.c and linker_resolve.c.
pub mod Graph
pub mod Aliases
pub mod Checks
pub mod Order
pub mod Resolve
pub mod Close
