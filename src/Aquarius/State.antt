-- ===== src/Aquarius/State.antt =====
-- aquarius/state.go: `DecodeState`, one function for each branch of its loop.
pub mod Keys
pub mod Identity
pub mod Keeps
pub mod Lifecycle
pub mod Removals
pub mod Refusals
use lidapters.Common.{
  ℕ, zero, suc, ◌+◌, ◌-◌, ◌%◌, ◌^◌, Bool, true, false, not, ◌&&◌, ◌||◌, Option, none, some, List,
  [], ◌∷◌, ◌++◌, ltb, if◌then◌else◌,
}
use lidapters.Common.Int.{ℤ, pos, negsuc}
use lidapters.Common.Str.{Str, lit, eq_str, is_empty}
use lidapters.Common.Text.{to_lower, is_blank, scan_int32}
use lidapters.Common.Dict.{Dict, lookup, insert, delete, delete_where, mem, index_by, collect}
use lidapters.Xdr.{Xdr, ScInstance}
use lidapters.Bindings.State.{
  AmmPoolState, AmmPositionState, AmmAssetMetadata, AmmTokenReserve, LedgerState,
  ContractDataChange, DecodeDiagnostic, zero_pool, zero_position,
}
use lidapters.Aquarius.Config.{Adapter, Config, PoolSeed, PoolSeedPosition, owns_contract}
use lidapters.Aquarius.Values.{
  position_key, clone_state, upsert_token, upsert_asset, decode_val, decode_or_zero,
  symbol_or_first, addr, first_uint, fields, field_of, addr_in_key, ticks_in_key, decode_reserves,
  decode_pool_instance, decode_slot0, decode_position, decode_reward_position, asset_metadata,
}
use lidapters.Aquarius.Work.{
  Work, new_position, position_or, is_nonzero, fill, with_shares, upsert_classic_shares,
}
use lidapters.Aquarius.Seeds.{apply_pool_seeds}
use lidapters.Aquarius.Removal.{is_gone, apply_entry_removal, entry_name}
use lidapters.Aquarius.Instance.{scan_instance, write_through}

abbrev pub missing_tick_bounds : Str
missing_tick_bounds = lit "aquarius_position_missing_tick_bounds"

-- `p := pools[c.ContractID]` with its identity fields set
unfoldable pub base_pool : Adapter → Dict AmmPoolState → Str → AmmPoolState
base_pool a pools id =
    let p : AmmPoolState = elim (lookup id pools) [ none ↦ zero_pool | some p ↦ p ] in
    record p { protocol = a.cfg.protocol; contract_id = id }

-- The decoded fields of a position, with what the map holds for it.
unfoldable pub merge_position : AmmPositionState → Option AmmPositionState → AmmPositionState
merge_position decoded found =
    let current = position_or zero_position found in
    let merged = if is_empty current.address then decoded else record current {
      shares_raw = decoded.shares_raw;
      liquidity_raw = decoded.liquidity_raw;
      sqrt_price_lower_x96 = decoded.sqrt_price_lower_x96;
      sqrt_price_upper_x96 = decoded.sqrt_price_upper_x96;
      tick_lower = decoded.tick_lower;
      tick_upper = decoded.tick_upper;
      pending_fee0_raw = decoded.pending_fee0_raw;
      pending_fee1_raw = decoded.pending_fee1_raw;
    } in
    if is_nonzero merged.shares_raw || is_nonzero merged.liquidity_raw
    then record merged { had_shares = true }
    else merged

-- The decoded reward checkpoint of a position, with what the map holds for it.
unfoldable pub merge_reward : AmmPositionState → Option AmmPositionState → AmmPositionState
merge_reward decoded found =
    let current = position_or zero_position found in
    record (if is_empty current.address then decoded else current) {
      pending_reward_raw = decoded.pending_reward_raw;
      reward_pool_accumulated_raw = decoded.reward_pool_accumulated_raw;
    }

-- `positions[positionKey(p)] = p`
abbrev pub store : AmmPositionState → Dict AmmPositionState → Dict AmmPositionState
store p m = insert (position_key p) p m

-- The hash decides the type of a pool that has none; `none` where it is not known and must be.
unfoldable pub gate : Config → AmmPoolState → Option AmmPoolState
gate cfg p =
    if is_empty p.wasm_hash
    then some p
    else elim (lookup (to_lower p.wasm_hash) cfg.pool_wasm_hashes) [
      | some type ↦ some (if is_empty p.pool_type then record p { pool_type = type } else p)
      | none ↦ if cfg.allow_unknown_wasm then some p else none
    ]

-- Whether there are two tokens, both with a reserve.
has_two_reserves : List AmmTokenReserve → Bool
has_two_reserves (t ∷ u ∷ []) = not (is_empty t.reserve_raw) && not (is_empty u.reserve_raw)
has_two_reserves _ = false

abbrev pub is_nil : List AmmTokenReserve → Bool
is_nil [] = true
is_nil (t ∷ ts) = false

unfoldable pub infer_type : AmmPoolState → AmmPoolState
unfolding has_two_reserves
infer_type p =
    if is_empty p.pool_type && has_two_reserves p.tokens
    then record p { pool_type = lit "volatile" }
    else p

-- The end of the loop's body.
unfoldable pub store_pool : Str → AmmPoolState → Work → Work
store_pool id p w = elim (gate w.adapter.cfg p) [
  | none ↦ w
  | some q ↦
      let r = infer_type q in
      if not (is_empty r.pool_type) || not (is_nil r.tokens)
      then record w { pools = insert id r w.pools }
      else w
]

abbrev pub pool_names : List Str
pool_names =
    lit "instance"
    ∷ lit "pool"
    ∷ lit "config"
    ∷ lit "reserves"
    ∷ lit "reserve"
    ∷ lit "totalshares"
    ∷ lit "total_shares"
    ∷ lit "shares"
    ∷ lit "slot0"
    ∷ lit "pool_state"
    ∷ lit "active_liquidity"
    ∷ []

module _ (x : Xdr) where
  open x use {ScVal}

  -- The entry names of the switch that write to the pool.
  unfoldable pub pool_entry : Str → ScVal → AmmPoolState → AmmPoolState
  pool_entry name val p =
      if mem name (lit "instance" ∷ lit "pool" ∷ lit "config" ∷ [])
      then decode_pool_instance x p val
      else if mem name (lit "reserves" ∷ lit "reserve" ∷ [])
      then record p { tokens = decode_reserves x p.tokens val }
      else if mem name (lit "totalshares" ∷ lit "total_shares" ∷ lit "shares" ∷ [])
      then record p { total_shares_raw = first_uint x val }
      else if mem name (lit "slot0" ∷ lit "pool_state" ∷ [])
      then decode_slot0 x p val
      else if eq_str name (lit "active_liquidity")
      then record p { active_liquidity_raw = first_uint x val }
      else p

  unfoldable pub working_balance : Str → ScVal → ScVal → Work → Work
  working_balance id key val w =
      let owner = addr_in_key x key in
      let weight = first_uint x val in
      if is_empty owner || is_empty weight
      then w
      else (let fresh = new_position id owner in
          let k = position_key fresh in
          record w {
            positions =
                insert k
                  (record (position_or fresh (lookup k w.positions)) {
                    working_balance_raw = weight;
                  })
                  w.positions;
          })

  -- A refused position is reported if its key is that of a range and names an owner.
  unfoldable pub refuse_position : ℤ → Str → ScVal → AmmPositionState → Work → Work
  refuse_position seq id key p w =
      if eq_str (symbol_or_first x key) (lit "Position") && not (is_empty p.address)
      then (let d : DecodeDiagnostic = record {
        code = missing_tick_bounds;
        ledger_seq = seq;
        pool_contract_id = id;
        address = p.address;
        position_type = [];
        reserve_index = pos 0;
        amount_raw = [];
        candidate_asset_ids = [];
      } in
          record w { adapter = record w.adapter { diagnostics = w.adapter.diagnostics ++ d ∷ [] } })
      else w

  unfoldable pub position_write : ℤ → Str → ScVal → ScVal → Work → Work
  position_write seq id key val w =
      let (p, ok) = decode_position x id key val in
      if ok
      then record w {
        positions = store (merge_position p (lookup (position_key p) w.positions)) w.positions;
      }
      else refuse_position seq id key p w

  unfoldable pub reward_write : Str → ScVal → ScVal → Work → Work
  reward_write id key val w =
      let (p, ok) = decode_reward_position x id key val in
      if ok
      then record w {
        positions = store (merge_reward p (lookup (position_key p) w.positions)) w.positions;
      }
      else w

  -- A share balance of an owner, if both are given.
  unfoldable pub shares_write : Str → Str → Str → Work → Work
  shares_write pool owner shares w =
      if is_empty owner || is_empty shares
      then w
      else record w { positions = upsert_classic_shares pool owner shares w.positions }

  -- The other entry names of the switch, which write to positions.
  unfoldable pub position_entry : ℤ → Str → ScVal → ScVal → Work → Work
  position_entry seq id key val w =
      let name = entry_name x key in
      if mem name pool_names
      then w
      else if eq_str name (lit "workingbalance")
      then working_balance id key val w
      else if mem name (lit "position" ∷ lit "positions" ∷ lit "balance" ∷ [])
      then position_write seq id key val w
      else if eq_str name (lit "userrewarddata")
      then reward_write id key val w
      else shares_write id (addr x key) (first_uint x val) w

  -- A live entry of a contract that is no share token and no asset. What the scan writes to tokens
  -- in place stays with the pool in the map, whether or not the pool is stored.
  unfoldable pub pool_write : ℤ → Str → ScVal → ScVal → Work → Work
  pool_write seq id key val w =
      let (p, tokens) =
        scan_instance x id (base_pool w.adapter w.pools id) w.adapter.share_tokens val in
      let w1 = (record w {
        adapter = record w.adapter { share_tokens = tokens };
        pools = write_through x id val w.pools;
      }) in
      store_pool id (pool_entry (entry_name x key) val p) (position_entry seq id key val w1)

  -- A live entry.
  unfoldable pub live_write : ℤ → Str → ScVal → ScVal → Work → Work
  live_write seq id key val w = elim (lookup id w.adapter.share_tokens) [
    | some pool ↦
        if eq_str (entry_name x key) (lit "balance")
        then shares_write pool (addr_in_key x key) (first_uint x val) w
        else w
    | none ↦
        if mem id w.adapter.assets
        then elim (asset_metadata x id key val) [
          | none ↦ w
          | some m ↦ record w { amm_assets = upsert_asset w.amm_assets m }
        ]
        else pool_write seq id key val w
  ]

  -- One change.
  unfoldable pub reduce : ℤ → Work → ContractDataChange → Work
  reduce seq w c =
      if not (owns_contract w.adapter c.contract_id)
      then w
      else if is_gone seq c
      then apply_entry_removal x c w
      else elim c.value_xdr [
        | none ↦ w
        | some value ↦ elim (decode_val x value) [
          | none ↦ w
          | some val ↦ live_write seq c.contract_id (decode_or_zero x c.key_xdr) val w
        ]
      ]

  unfoldable pub reduce_all : ℤ → Work → List ContractDataChange → Work
  reduce_all seq w [] = w
  reduce_all seq w (c ∷ cs) = reduce_all seq (reduce seq w c) cs

-- The work before the loop: the maps of the prior state with the pool seeds.
abbrev pub start_work : Adapter → LedgerState → Work
start_work a s =
    apply_pool_seeds
      (record {
        adapter = record a { diagnostics = [] };
        pools = index_by (λ p. p.contract_id) s.amm_pools;
        positions = index_by position_key s.amm_positions;
        amm_assets = s.amm_assets;
      })
      a.cfg.pool_seeds

-- The work at the end of the loop.
abbrev pub final_work : Xdr → Adapter → Option LedgerState → List ContractDataChange → ℤ → Work
final_work x a prior changes seq = reduce_all x seq (start_work a (clone_state prior)) changes

-- The adapter that the call leaves, and the next state. The source's error is always nil.
unfoldable pub decode_state :
    Xdr → Adapter → Option LedgerState → List ContractDataChange → ℤ → Adapter × LedgerState
decode_state x a prior changes seq =
    let w = final_work x a prior changes seq in
    (
      w.adapter,
      record (clone_state prior) {
        amm_pools = collect (λ p. p.contract_id) w.pools;
        amm_positions = collect position_key w.positions;
        amm_assets = w.amm_assets;
      },
    )
