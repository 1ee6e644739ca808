-- ===== src/Memories.antt =====
-- The table `memories` and what every UPDATE of it goes through: the trigger of migration 035 and
-- the primary key of migration 007.
pub mod Table
pub mod Scd
pub mod InPlace
pub mod Refused
pub mod Deleted
