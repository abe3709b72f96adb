-- ===== src/Blend.antt =====
-- blend/: the Blend adapter. The prices of its oracles' feeds, and the positions of its users.
pub mod Feeds
pub mod Types
pub mod Values
pub mod Order
pub mod Reserves
pub mod Positions
pub mod Incremental
