-- ===== src/Aquarius/Seeds.antt =====
-- aquarius/state.go: `applyPoolSeeds`.
use lidapters.Common.{ℕ, zero, suc, Bool, false, Option, none, some, List, [], ◌∷◌, if◌then◌else◌}
use lidapters.Common.Str.{Str, is_empty}
use lidapters.Common.Text.{is_blank}
use lidapters.Common.Dict.{Dict, lookup, insert}
use lidapters.Bindings.State.{AmmPoolState, AmmPositionState, AmmTokenReserve, zero_pool}
use lidapters.Aquarius.Config.{Config, PoolSeed, PoolSeedPosition}
use lidapters.Aquarius.Values.{position_key, upsert_token}
use lidapters.Aquarius.Work.{Work, new_position, position_or, fill}

-- The loop over the token ids of a seed, from an index on.
seed_tokens : ℕ → List Str → List AmmTokenReserve → List AmmTokenReserve
seed_tokens i [] ts = ts
seed_tokens i (id ∷ ids) ts =
    seed_tokens (suc i) ids (if is_empty id then ts else upsert_token ts i id [])

-- Whether the list has a token at the index with no reserve.
lacks_reserve : List AmmTokenReserve → ℕ → Bool
lacks_reserve [] i = false
lacks_reserve (t ∷ ts) zero = is_empty t.reserve_raw
lacks_reserve (t ∷ ts) (suc i) = lacks_reserve ts i

-- The loop over the reserves of a seed, from an index on.
seed_reserves : ℕ → List Str → List AmmTokenReserve → List AmmTokenReserve
unfolding lacks_reserve
seed_reserves i [] ts = ts
seed_reserves i (r ∷ rs) ts =
    seed_reserves (suc i) rs
      (if is_empty r then ts else if lacks_reserve ts i then upsert_token ts i [] r else ts)

-- The pool of a seed: what is not known is filled from the seed.
unfoldable pub seeded_pool : Config → PoolSeed → Option AmmPoolState → AmmPoolState
unfolding seed_tokens seed_reserves
seeded_pool cfg seed found =
    let p : AmmPoolState = elim found [
      | some p ↦ p
      | none ↦ record zero_pool { protocol = cfg.protocol; contract_id = seed.contract_id }
    ] in
    record p {
      protocol = fill p.protocol cfg.protocol;
      router_contract = fill p.router_contract seed.router_contract;
      pool_hash = fill p.pool_hash seed.pool_hash;
      pool_type = fill p.pool_type seed.pool_type;
      tokens = seed_reserves 0 seed.reserves_raw (seed_tokens 0 seed.tokens p.tokens);
      total_shares_raw = fill p.total_shares_raw seed.total_shares_raw;
      fee_fraction_raw = fill p.fee_fraction_raw seed.fee_fraction_raw;
      protocol_fee_fraction_raw = fill p.protocol_fee_fraction_raw seed.protocol_fee_fraction_raw;
    }

unfoldable pub seeded_position : Str → PoolSeedPosition → Option AmmPositionState → AmmPositionState
seeded_position pool sp found =
    let p = position_or (new_position pool sp.address) found in
    record p {
      shares_raw = fill p.shares_raw sp.shares_raw;
      pending_reward_raw = fill p.pending_reward_raw sp.pending_reward_raw;
    }

unfoldable pub seed_position :
    Str → Dict AmmPositionState → PoolSeedPosition → Dict AmmPositionState
seed_position pool m sp =
    let k = position_key (new_position pool sp.address) in
    if is_blank sp.address then m else insert k (seeded_position pool sp (lookup k m)) m

unfoldable pub seed_positions :
    Str → Dict AmmPositionState → List PoolSeedPosition → Dict AmmPositionState
seed_positions pool m [] = m
seed_positions pool m (sp ∷ sps) = seed_positions pool (seed_position pool m sp) sps

unfoldable pub apply_seed : Work → PoolSeed → Work
unfolding seed_positions
apply_seed w seed = if is_blank seed.contract_id then w else record w {
  pools =
      insert seed.contract_id (seeded_pool w.adapter.cfg seed (lookup seed.contract_id w.pools))
        w.pools;
  positions = seed_positions seed.contract_id w.positions seed.positions;
}

unfoldable pub apply_pool_seeds : Work → List PoolSeed → Work
apply_pool_seeds w [] = w
apply_pool_seeds w (seed ∷ seeds) = apply_pool_seeds (apply_seed w seed) seeds
