-- ===== src/Lib.antt =====
-- Verification of lidapters, the protocol adapters that turn Soroban ledger changes into carried
-- state (`DecodeState`) and state and events into rows (`Transform`).
--
-- Parts and files (paths are from the repository's root):
-- - Bindings, with Bindings/State and Bindings/Rows: the records of bindings/types.go that the AMM
--   and vault protocols use; Bindings/Config: those of bindings/config.go.
-- - Soroswap: Config is soroswap/adapter.go, Math soroswap/math.go, Values and State
--   soroswap/state.go, Transform soroswap/transform.go. `decode_state` is `DecodeState`: a discovery
--   pass (`discover_all`), a state pass over the same changes (`reduce_all`, one `reduce` for each
--   change, with `asset_write`, `pair_write`, `live_write` and `removed_write` for its branches) on
--   the maps of a `Work`, and the sorted slices (`finish`).
-- - Fxdao: Config is fxdao/adapter.go, Values and State fxdao/state.go, Transform
--   fxdao/transform.go, in the same shape.
-- - Aquarius: Math is aquarius/math.go, with Math/Tick for the tick prices; Config is
--   aquarius/adapter.go. Values, Work, Seeds (`applyPoolSeeds`), Removal (`applyEntryRemoval`),
--   Instance (the scan of an instance's storage) and State (the loop and its branches) are
--   aquarius/state.go. `decode_state` is `DecodeState`: the maps of a `Work`, the seeds, one `reduce`
--   for each change, and the sorted slices. Events (the era tables and `decodeActivities`) and
--   Transform (the rows) are aquarius/transform.go. Records is aquarius/config_state.go, with the
--   JSON codec as a parameter.
-- - Blend: Feeds is the price resolution of blend/state_reflector.go: the carried rounds and
--   `resolveFeedPrice`, its loop over the rounds by `newest_price`. Types is blend/contracts/types.go.
--   Values reads XDR values as blend/state.go and blend/decode.go do. Reserves is the pool builder of
--   blend/state.go with `finalizePoolReserves`, Positions the entries of users: their positions, the
--   reports of the amounts that resolve to no reserve, and the positions cases of `apply` and
--   `applyDelete`. Incremental is blend/state_incremental.go: the caches (`Strategy`), made by `reseed`,
--   maintained by `refresh`, which is that part of `snapshot`, and the assembly from scratch of
--   `rebuildPendingUsers`. Its children follow one refresh: Track and Marked the changed pools, Keys
--   and Moves the sorted entries, Update the loop over the dirty keys, Refresh and Snapshot the whole,
--   Assembly and Rebuilt the slices that come out, Applied and Reach the changes before it.
-- - Deployments: deployments.go, on the parsed rows.
-- - Xdr: the Stellar SDK, strkey, base64, hex and sha256, a parameter of what uses them. The only law
--   that is assumed of it is that a vector nests deeper than its elements.
-- - Common: strings as bytes, decimal text, maps as association lists with one entry for each key,
--   and sorting.
-- - Tests: a small codec, ledgers on which the theorems are applied, and their witnesses.
--
-- Conventions: a method that changes its adapter returns the new adapter beside its result. A Go
-- error is `none`, without its text. A time is in Unix seconds. `sort.Slice` is a stable insertion
-- sort: Go leaves the order of elements that compare equal open. The iteration over a map follows
-- the order in which the keys came in. The JSON copy of a state is the identity.
-- A slice of tokens has no spare room, so an append moves it; before that, the scan of an instance
-- writes to the tokens of the pool in the map (`write_through` of Aquarius/Instance).
-- `strings.ToLower` is that of ASCII, `TrimSpace` knows the spaces of Unicode. `big.Int` is unbounded,
-- and 128-bit and 32-bit values keep their two's complement.
--
-- Fuel: `dec n` writes at most n + 1 digits and has fuel n + 1; `symbol_or_first` recurses into the
-- first element of a vector and `first_uint` into each element, and both have the nesting depth of
-- their value, plus one. `newest_price` has the milliseconds of the newest round, plus one, since
-- each step goes down by a positive number of them.
--
-- Not modelled: of the Blend decoder, the entries of pools, reserves, emissions, auctions, backstops,
-- oracles, assets and Comet pools, whose effect on the caches is an arbitrary change of the pools, the
-- state deltas, and the slices that `snapshot` copies from the builder; the arithmetic of Blend, on a
-- decimal library; the Blend events and configuration records; the discovery of Aquarius and Blend,
-- which is input and output around a client. The parsing of deployments.toml is a library's. Constant
-- accessors (`ID`, `Protocol`, `New`) are left out.
pub mod Common
pub mod Xdr
pub mod Bindings
pub mod Blend
pub mod Soroswap
pub mod Fxdao
pub mod Aquarius
pub mod Deployments
pub mod Tests
