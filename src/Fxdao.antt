-- ===== src/Fxdao.antt =====
-- fxdao/: the FxDAO vaults adapter. Its configuration, the reduction of contract-data changes into
-- vault state, and the snapshot rows; the proofs are in the modules named for what they prove.
pub mod Config
pub mod Values
pub mod State
pub mod Transform
