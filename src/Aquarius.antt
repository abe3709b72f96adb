-- ===== src/Aquarius.antt =====
-- aquarius/: the Aquarius adapter. Its arithmetic, its configuration, the reduction of contract-data
-- changes into pool and position state, and the output rows.
pub mod Math
pub mod Config
pub mod Values
pub mod Work
pub mod Seeds
pub mod Removal
pub mod Instance
pub mod State
pub mod Events
pub mod Transform
pub mod Records
