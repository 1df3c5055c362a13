-- ===== src/Service/Database.antt =====
-- service/db: the stored lists.
pub mod Table
pub mod Ordinals
pub mod Refinement
