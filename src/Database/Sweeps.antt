-- ===== src/Database/Sweeps.antt =====
-- SweepOrphanObjects and SweepUnreferencedObjects: which rows they delete, and what stays.
pub mod Chosen
pub mod Kept
pub mod Body
pub mod Orphans
pub mod Unreferenced
pub mod Fewer
pub mod Drained
