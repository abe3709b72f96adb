-- ===== src/Aquarius/Transform.antt =====
-- aquarius/transform.go: `Transform`, the rows of pools, of positions, and of pending rewards.
pub mod Ranges
pub mod Closes
use lidapters.Common.{
  ℕ, Bool, true, false, not, ◌&&◌, ◌||◌, Option, none, some, List, [], ◌∷◌, ◌++◌, if◌then◌else◌,
}
use lidapters.Common.Int.{ℤ, pos}
use lidapters.Common.Str.{Str, lit, eq_str, lt_str, is_empty}
use lidapters.Common.Decimal.{dec_ℤ}
use lidapters.Common.Dict.{Dict, lookup, insert}
use lidapters.Common.Sort.{sort_slice}
use lidapters.Xdr.{Xdr}
use lidapters.Bindings.State.{AmmPoolState, AmmPositionState, AmmTokenReserve, LedgerState}
use lidapters.Bindings.Rows.{
  RawEventEnvelope, TransformInput, TransformOutput, Activity, QuarantineEvent, AmmPool,
  AmmPositionComponent, AmmReward, empty_output,
}
use lidapters.Aquarius.Math.{pro_rata, range_principal, pending_reward}
use lidapters.Aquarius.Config.{Adapter}
use lidapters.Aquarius.Work.{is_nonzero}
use lidapters.Aquarius.Events.{stable_id, event_class, decode_activities}

-- What a position adds to the output.
pub record PositionRows : Type 0 where
  pub components : List AmmPositionComponent
  pub quarantine : List QuarantineEvent
  pub rewards : List AmmReward

abbrev pub no_rows : PositionRows
no_rows = record { components = []; quarantine = []; rewards = [] }

abbrev pub append_rows : PositionRows → PositionRows → PositionRows
append_rows r s = record {
  components = r.components ++ s.components;
  quarantine = r.quarantine ++ s.quarantine;
  rewards = r.rewards ++ s.rewards;
}

-- The principals of a range position: those it carries, or else those of its liquidity and prices.
unfoldable pub principals : AmmPositionState → AmmPoolState → Str × Str
principals p pool =
    let carried : Str × Str = (p.principal0_raw, p.principal1_raw) in
    if is_empty p.principal0_raw
      && is_empty p.principal1_raw
      && not (is_empty p.liquidity_raw)
      && not (is_empty pool.sqrt_price_x96)
      && not (is_empty p.sqrt_price_lower_x96)
      && not (is_empty p.sqrt_price_upper_x96)
    then elim (range_principal p.liquidity_raw pool.sqrt_price_x96 p.sqrt_price_lower_x96
        p.sqrt_price_upper_x96) [ none ↦ carried | some amounts ↦ amounts ]
    else carried

module _ (x : Xdr) where
  unfoldable pub component :
      Str
      → AmmPositionState
      → Str
      → Str
      → Str
      → Str
      → Str
      → Option ℤ
      → Option ℤ
      → TransformInput
      → Bool
      → AmmPositionComponent
  component group p protocol asset kind amount shares lower upper input closed = record {
    id = stable_id x (group ∷ kind ∷ asset ∷ []);
    position_group_id = group;
    address = p.address;
    protocol = protocol;
    pool_contract_id = p.pool_contract_id;
    component_kind = kind;
    asset_id = asset;
    amount_raw = amount;
    share_amount_raw = shares;
    tick_lower = lower;
    tick_upper = upper;
    usd_value = [];
    apr = [];
    ledger_seq = input.ledger_seq;
    timestamp = input.close_time;
    metadata =
        let base = (lit "price_unavailable", lit "true") ∷ (lit "apr_partial", lit "true") ∷ [] in
        if closed then insert (lit "closed") (lit "true") base else base;
  }

  module _ (group : Str) (p : AmmPositionState) (pool : AmmPoolState) (input : TransformInput) where
    -- A component of a range position.
    abbrev pub range_row : AmmTokenReserve → Str → Str → Str → Bool → AmmPositionComponent
    range_row t kind amount shares closed =
        component group p pool.protocol t.asset_id kind amount shares (some p.tick_lower)
          (some p.tick_upper) input closed

    -- A component of a range position, if there is an amount.
    abbrev pub range_leg : AmmTokenReserve → Str → Str → Str → List AmmPositionComponent
    range_leg t kind amount shares =
        if is_nonzero amount then range_row t kind amount shares false ∷ [] else []

    -- The tombstones of a closed range position.
    unfoldable pub range_closed : AmmTokenReserve → AmmTokenReserve → List AmmPositionComponent
    range_closed t u =
        range_row t (lit "range_principal") (lit "0") (lit "0") true
        ∷ range_row u (lit "range_principal") (lit "0") (lit "0") true
        ∷ []

    -- The principals and the fees of an open one.
    unfoldable pub range_open :
        AmmTokenReserve → AmmTokenReserve → Str → Str → List AmmPositionComponent
    range_open t u amount0 amount1 =
        range_leg t (lit "range_principal") amount0 p.liquidity_raw
        ++ (range_leg u (lit "range_principal") amount1 p.liquidity_raw
            ++ (range_leg t (lit "unclaimed_fee") p.pending_fee0_raw []
                ++ range_leg u (lit "unclaimed_fee") p.pending_fee1_raw []))

    unfoldable pub is_closed_range : Bool
    is_closed_range = eq_str p.liquidity_raw (lit "0") && p.had_shares

    unfoldable pub append_range_components : List AmmTokenReserve → List AmmPositionComponent
    append_range_components (t ∷ u ∷ ts) =
        if is_closed_range
        then range_closed t u
        else range_open t u (principals p pool).0 (principals p pool).1
    append_range_components _ = []

  module _ (a : Adapter) where
    unfoldable pub pool_row : TransformInput → AmmPoolState → AmmPool
    pool_row input p = record {
      protocol = a.cfg.protocol;
      router_contract = p.router_contract;
      pool_hash = p.pool_hash;
      contract_id = p.contract_id;
      pool_type = p.pool_type;
      wasm_hash = p.wasm_hash;
      tokens = p.tokens;
      total_shares_raw = p.total_shares_raw;
      fee_fraction_raw = p.fee_fraction_raw;
      protocol_fee_fraction_raw = p.protocol_fee_fraction_raw;
      amplification_raw = p.amplification_raw;
      tick_spacing = p.tick_spacing;
      sqrt_price_x96 = p.sqrt_price_x96;
      current_tick = p.current_tick;
      active_liquidity_raw = p.active_liquidity_raw;
      ledger_seq = input.ledger_seq;
      timestamp = input.close_time;
      metadata = [];
    }

    -- The pools of this protocol, in a map and as rows.
    unfoldable pub own_pools :
        TransformInput
        → List AmmPoolState
        → Dict AmmPoolState
        → List AmmPool
        → Dict AmmPoolState × List AmmPool
    own_pools input [] pools rows = (pools, rows)
    own_pools input (p ∷ ps) pools rows =
        let own = eq_str p.protocol a.cfg.protocol in
        own_pools input ps (if own then insert p.contract_id p pools else pools)
          (if own then rows ++ pool_row input p ∷ [] else rows)

    -- A quarantine of a position: no event is behind it.
    unfoldable pub refuse : TransformInput → List Str → Str → Str → QuarantineEvent
    refuse input parts id reason = record {
      id = stable_id x parts;
      adapter_id = a.cfg.adapter_id;
      ledger_seq = input.ledger_seq;
      tx_hash = [];
      event_index = pos 0;
      contract_id = id;
      reason = reason;
      raw_event = [];
      metadata = [];
    }

    -- The LP principals of a share balance, token by token.
    unfoldable pub lp_rows :
        TransformInput → Str → AmmPositionState → AmmPoolState → List AmmTokenReserve → PositionRows
    lp_rows input group p pool [] = no_rows
    lp_rows input group p pool (t ∷ ts) =
        let rest = lp_rows input group p pool ts in
        elim (pro_rata p.shares_raw t.reserve_raw pool.total_shares_raw) [
          | none ↦ record rest {
            quarantine =
                refuse input (group ∷ t.asset_id ∷ dec_ℤ input.ledger_seq ∷ []) pool.contract_id
                  (lit "invalid_lp_share_state")
                ∷ rest.quarantine;
          }
          | some amount ↦ record rest {
            components =
                component group p a.cfg.protocol t.asset_id (lit "lp_principal") amount p.shares_raw
                  none none input false
                ∷ rest.components;
          }
        ]

    -- The tombstones of a closed LP position.
    unfoldable pub closed_rows :
        TransformInput → Str → AmmPositionState → List AmmTokenReserve → List AmmPositionComponent
    closed_rows input group p [] = []
    closed_rows input group p (t ∷ ts) =
        component group p a.cfg.protocol t.asset_id (lit "lp_principal") (lit "0") (lit "0") none
          none input true
        ∷ closed_rows input group p ts

    unfoldable pub group_id : AmmPositionState → Str
    group_id p = stable_id x (
        a.cfg.protocol
        ∷ p.address
        ∷ p.pool_contract_id
        ∷ dec_ℤ p.tick_lower
        ∷ dec_ℤ p.tick_upper
        ∷ [])

    -- The principal components of a position of a known pool.
    unfoldable pub principal_rows : TransformInput → AmmPositionState → AmmPoolState → PositionRows
    principal_rows input p pool =
        let group = group_id p in
        if eq_str pool.pool_type (lit "concentrated")
        then record no_rows { components = append_range_components group p pool input pool.tokens }
        else if is_nonzero p.shares_raw
        then lp_rows input group p pool pool.tokens
        else if eq_str p.shares_raw (lit "0") && p.had_shares
        then record no_rows { components = closed_rows input group p pool.tokens }
        else no_rows

    unfoldable pub reward_rows : TransformInput → AmmPositionState → AmmPoolState → List AmmReward
    reward_rows input p pool =
        let group = group_id p in
        let pending = pending_reward pool p input.close_time in
        if is_nonzero pending
        then record {
          id = stable_id x (group ∷ lit "aqua" ∷ p.reward_token_id ∷ []);
          position_group_id = group;
          address = p.address;
          protocol = a.cfg.protocol;
          pool_contract_id = p.pool_contract_id;
          reward_contract = [];
          reward_token_id = p.reward_token_id;
          reward_kind = lit "aqua";
          amount_raw = pending;
          usd_value = [];
          ledger_seq = input.ledger_seq;
          timestamp = input.close_time;
          metadata = (lit "price_unavailable", lit "true") ∷ [];
        }
          ∷ []
        else []

    -- One position.
    unfoldable pub position_rows :
        TransformInput → Dict AmmPoolState → AmmPositionState → PositionRows
    position_rows input pools p = elim (lookup p.pool_contract_id pools) [
      | none ↦ record no_rows {
        quarantine =
            refuse input
              (a.cfg.adapter_id ∷ p.pool_contract_id ∷ p.address ∷ dec_ℤ input.ledger_seq ∷ [])
              p.pool_contract_id (lit "aquarius_position_unknown_pool")
            ∷ [];
      }
      | some pool ↦ record (principal_rows input p pool) { rewards = reward_rows input p pool }
    ]

    unfoldable pub all_positions :
        TransformInput → Dict AmmPoolState → List AmmPositionState → PositionRows
    all_positions input pools [] = no_rows
    all_positions input pools (p ∷ ps) =
        append_rows (position_rows input pools p) (all_positions input pools ps)

    unfoldable pub all_events :
        Dict AmmPoolState → List RawEventEnvelope → List Activity × List QuarantineEvent
    all_events pools [] = ([], [])
    all_events pools (evt ∷ evts) =
        let (acts, qs) = decode_activities x a evt (event_class a evt.contract_id pools) in
        let (acts', qs') = all_events pools evts in (acts ++ acts', qs ++ qs')

    abbrev pub less_pool : AmmPool → AmmPool → Bool
    less_pool p q = lt_str p.contract_id q.contract_id

    abbrev pub less_component : AmmPositionComponent → AmmPositionComponent → Bool
    less_component p q = lt_str p.id q.id

    -- The source's error is always nil.
    unfoldable pub transform : TransformInput → TransformOutput
    transform input = elim input.state [
      | none ↦ empty_output input.ledger_seq
      | some s ↦
          let (pools, rows) = own_pools input s.amm_pools [] [] in
          let r = all_positions input pools s.amm_positions in
          let (acts, qs) = all_events pools input.events in
          record (empty_output input.ledger_seq) {
            activities = acts;
            quarantine = r.quarantine ++ qs;
            amm_pools = sort_slice less_pool rows;
            amm_components = sort_slice less_component r.components;
            amm_rewards = r.rewards;
          }
    ]
