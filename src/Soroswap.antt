-- ===== src/Soroswap.antt =====
-- soroswap/: the Soroswap adapter. Its values and arithmetic, its configuration, the reduction of
-- contract-data changes into pool and position state, and the output rows; the proofs are in the
-- modules that are named for what they prove.
pub mod Math
pub mod Config
pub mod Values
pub mod State
pub mod Transform
