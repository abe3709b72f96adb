-- ===== src/Soroswap/Transform.antt =====
-- soroswap/transform.go: pool rows, LP components, and the classification of events.
pub mod Classify
pub mod Components
use lidapters.Common.{
  ℕ, Bool, true, false, not, ◌&&◌, ◌||◌, Option, none, some, List, [], ◌∷◌, ◌++◌, if◌then◌else◌,
}
use lidapters.Common.Int.{ℤ}
use lidapters.Common.Str.{Str, lit, eq_str, lt_str, is_empty}
use lidapters.Common.Decimal.{dec_ℤ}
use lidapters.Common.Dict.{Dict, StrSet, mem, lookup, insert}
use lidapters.Common.Sort.{sort_slice}
use lidapters.Xdr.{Xdr, EventBody}
use lidapters.Bindings.State.{AmmPoolState, AmmPositionState, AmmTokenReserve, LedgerState}
use lidapters.Bindings.Rows.{
  RawEventEnvelope, TransformInput, TransformOutput, Activity, QuarantineEvent, AmmPool,
  AmmPositionComponent, empty_output,
}
use lidapters.Soroswap.Math.{pro_rata}
use lidapters.Soroswap.Config.{Adapter, owns_contract}
use lidapters.Soroswap.Values.{addr, i128_string, fields}

abbrev pub pair_activity_vocabulary : StrSet
pair_activity_vocabulary =
    lit "deposit" ∷ lit "swap" ∷ lit "withdraw" ∷ lit "sync" ∷ lit "skim" ∷ []

abbrev pub factory_event_names : StrSet
factory_event_names = lit "init" ∷ lit "new_pair" ∷ lit "fee_to" ∷ lit "setter" ∷ lit "fees" ∷ []

abbrev pub router_event_names : StrSet
router_event_names = lit "init" ∷ lit "add" ∷ lit "remove" ∷ lit "swap" ∷ []

abbrev pub token_echo_names : StrSet
token_echo_names = lit "mint" ∷ lit "burn" ∷ lit "transfer" ∷ lit "approve" ∷ []

-- The parts joined by `|`; no bar is written while nothing has been written.
join_parts : Str → List Str → Str
join_parts b [] = b
join_parts b (p ∷ ps) = join_parts (if is_empty b then p else b ++ (lit "|" ++ p)) ps

unfoldable pub stable_id : Xdr → List Str → Str
unfolding join_parts
stable_id x parts = x.sha256_hex (join_parts [] parts)

abbrev pub metadata_keys : List Str
metadata_keys =
    lit "amount_0"
    ∷ lit "amount_1"
    ∷ lit "liquidity"
    ∷ lit "amount_0_in"
    ∷ lit "amount_1_in"
    ∷ lit "amount_0_out"
    ∷ lit "amount_1_out"
    ∷ lit "new_reserve_0"
    ∷ lit "new_reserve_1"
    ∷ lit "skimmed_0"
    ∷ lit "skimmed_1"
    ∷ []

-- The rows that an optional result adds.
unfoldable pub opt_list : {A : Type 0} → Option A → List A
opt_list none = []
opt_list (some v) = v ∷ []

module _ (x : Xdr) (a : Adapter) where
  open x use {ScVal, get_str, get_sym, unmarshal_event}

  unfoldable pub quarantine : RawEventEnvelope → Str → QuarantineEvent
  quarantine evt reason = record {
    id = stable_id x (
        a.cfg.adapter_id
        ∷ dec_ℤ evt.ledger_seq
        ∷ evt.tx_hash
        ∷ dec_ℤ evt.event_index
        ∷ reason
        ∷ []);
    adapter_id = a.cfg.adapter_id;
    ledger_seq = evt.ledger_seq;
    tx_hash = evt.tx_hash;
    event_index = evt.event_index;
    contract_id = evt.contract_id;
    reason = reason;
    raw_event = evt.raw_event;
    metadata = [];
  }

  unfoldable pub component :
      Str → AmmPositionState → Str → Str → Str → TransformInput → Bool → AmmPositionComponent
  component group p asset amount shares input closed = record {
    id = stable_id x (group ∷ lit "lp_principal" ∷ asset ∷ []);
    position_group_id = group;
    address = p.address;
    protocol = a.cfg.protocol;
    pool_contract_id = p.pool_contract_id;
    component_kind = lit "lp_principal";
    asset_id = asset;
    amount_raw = amount;
    share_amount_raw = shares;
    tick_lower = none;
    tick_upper = none;
    usd_value = [];
    apr = [];
    ledger_seq = input.ledger_seq;
    timestamp = input.close_time;
    metadata =
        let base = (lit "price_unavailable", lit "true") ∷ [] in
        if closed then insert (lit "closed") (lit "true") base else base;
  }

  -- The legs of an event's payload that are there and are numbers.
  legs : Dict ScVal → Dict Str → List Str → Dict Str
  legs f out [] = out
  legs f out (k ∷ ks) =
      legs f
        (elim (lookup k f) [
          | none ↦ out
          | some v ↦ if is_empty (i128_string x v) then out else insert k (i128_string x v) out
        ])
        ks

  text_at : (ScVal → Str) → Dict ScVal → Str → Str
  text_at g f k = elim (lookup k f) [ none ↦ [] | some v ↦ g v ]

  unfoldable pub pair_activity : RawEventEnvelope → Str → ScVal → Activity
  unfolding legs text_at
  pair_activity evt name payload =
      let f = fields x payload in
      let to = text_at (addr x) f (lit "to") in
      record {
        id = stable_id x (
            a.cfg.protocol
            ∷ dec_ℤ evt.ledger_seq
            ∷ evt.tx_hash
            ∷ dec_ℤ evt.event_index
            ∷ name
            ∷ []);
        ledger_seq = evt.ledger_seq;
        tx_hash = evt.tx_hash;
        event_index = evt.event_index;
        contract_id = evt.contract_id;
        address = if is_empty to then evt.contract_id else to;
        protocol = a.cfg.protocol;
        activity_type = name;
        asset_id = [];
        amount_raw = [];
        share_amount = text_at (i128_string x) f (lit "liquidity");
        share_type = [];
        asset_symbol = [];
        counterparty = [];
        usd_value = [];
        direction = [];
        timestamp = evt.close_time;
        metadata = legs f [] metadata_keys;
      }

  -- What `classifyEvent` returns: an activity or nil, a quarantine or nil.
  abbrev pub Class : Type 0
  Class = Option Activity × Option QuarantineEvent

  refuse : RawEventEnvelope → Str → Class
  refuse evt reason = (none, some (quarantine evt reason))

  -- The second topic, if it is a symbol.
  pub event_name : List ScVal → Str
  event_name [] = []
  event_name (t ∷ ts) = elim (get_sym t) [ none ↦ [] | some s ↦ s ]

  classify_labelled : RawEventEnvelope → Str → Str → ScVal → Class
  classify_labelled evt label name payload =
      if eq_str label (lit "SoroswapPair")
      then (if mem name pair_activity_vocabulary
          then (some (pair_activity evt name payload), none)
          else refuse evt (lit "soroswap_unknown_pair_event"))
      else if eq_str label (lit "SoroswapFactory")
      then (if mem name factory_event_names
          then (none, none)
          else refuse evt (lit "soroswap_unknown_factory_event"))
      else if eq_str label (lit "SoroswapRouter")
      then (if mem name router_event_names
          then (none, none)
          else refuse evt (lit "soroswap_unknown_router_event"))
      else refuse evt (lit "soroswap_unknown_event_label")

  classify_topics : RawEventEnvelope → List ScVal → ScVal → Class
  classify_topics evt [] payload = refuse evt (lit "soroswap_event_empty_topics")
  classify_topics evt (t ∷ ts) payload = elim (get_str t) [
    | some label ↦ classify_labelled evt label (event_name ts) payload
    | none ↦ elim (get_sym t) [
      | some s ↦
          if mem s token_echo_names then (none, none) else refuse evt (lit "soroswap_unknown_event")
      | none ↦ refuse evt (lit "soroswap_unknown_event")
    ]
  ]

  unfoldable pub classify_event : RawEventEnvelope → Class
  unfolding refuse event_name classify_labelled classify_topics
  classify_event evt =
      if not (owns_contract a evt.contract_id)
      then (none, none)
      else elim (unmarshal_event evt.raw_event) [
        | none ↦ refuse evt (lit "soroswap_event_undecodable")
        | some none ↦ refuse evt (lit "soroswap_event_empty_topics")
        | some (some body) ↦ classify_topics evt body.topics body.payload
      ]

  unfoldable pub pool_row : TransformInput → AmmPoolState → AmmPool
  pool_row input p = record {
    protocol = a.cfg.protocol;
    router_contract = p.router_contract;
    pool_hash = [];
    contract_id = p.contract_id;
    pool_type = p.pool_type;
    wasm_hash = p.wasm_hash;
    tokens = p.tokens;
    total_shares_raw = p.total_shares_raw;
    fee_fraction_raw = [];
    protocol_fee_fraction_raw = [];
    amplification_raw = [];
    tick_spacing = ℤ.pos 0;
    sqrt_price_x96 = [];
    current_tick = ℤ.pos 0;
    active_liquidity_raw = [];
    ledger_seq = input.ledger_seq;
    timestamp = input.close_time;
    metadata = [];
  }

  -- The pools of this protocol, in a map and as rows.
  own_pools :
      TransformInput
      → List AmmPoolState
      → Dict AmmPoolState
      → List AmmPool
      → Dict AmmPoolState × List AmmPool
  own_pools input [] pools rows = (pools, rows)
  own_pools input (p ∷ ps) pools rows =
      let own = eq_str p.protocol a.cfg.protocol in
      own_pools input ps (if own then insert p.contract_id p pools else pools)
        (if own then rows ++ pool_row input p ∷ [] else rows)

  -- What a position adds to the output.
  abbrev pub Rows : Type 0
  Rows = List AmmPositionComponent × List QuarantineEvent

  bad_share : TransformInput → Str → AmmPoolState → Str → QuarantineEvent
  bad_share input group pool asset = record {
    id = stable_id x (group ∷ asset ∷ dec_ℤ input.ledger_seq ∷ []);
    adapter_id = a.cfg.adapter_id;
    ledger_seq = input.ledger_seq;
    tx_hash = [];
    event_index = ℤ.pos 0;
    contract_id = pool.contract_id;
    reason = lit "invalid_lp_share_state";
    raw_event = [];
    metadata = [];
  }

  -- One component for each token of the pool, or a quarantine where the amount cannot be computed.
  live_components :
      TransformInput → Str → AmmPoolState → AmmPositionState → List AmmTokenReserve → Rows
  live_components input group pool p [] = ([], [])
  live_components input group pool p (t ∷ ts) =
      let (cs, qs) = live_components input group pool p ts in
      elim (pro_rata p.shares_raw t.reserve_raw pool.total_shares_raw) [
        | none ↦ (cs, bad_share input group pool t.asset_id ∷ qs)
        | some amount ↦ (component group p t.asset_id amount p.shares_raw input false ∷ cs, qs)
      ]

  closed_components :
      TransformInput → Str → AmmPositionState → List AmmTokenReserve → List AmmPositionComponent
  closed_components input group p [] = []
  closed_components input group p (t ∷ ts) =
      component group p t.asset_id (lit "0") (lit "0") input true
      ∷ closed_components input group p ts

  unfoldable pub position_rows : TransformInput → Dict AmmPoolState → AmmPositionState → Rows
  unfolding bad_share live_components closed_components
  position_rows input pools p = elim (lookup p.pool_contract_id pools) [
    | none ↦ ([], [])
    | some pool ↦
        let group = stable_id x (a.cfg.protocol ∷ p.address ∷ p.pool_contract_id ∷ []) in
        if not (is_empty p.shares_raw) && not (eq_str p.shares_raw (lit "0"))
        then live_components input group pool p pool.tokens
        else if eq_str p.shares_raw (lit "0") && p.had_shares
        then (closed_components input group p pool.tokens, [])
        else ([], [])
  ]

  all_position_rows : TransformInput → Dict AmmPoolState → List AmmPositionState → Rows
  all_position_rows input pools [] = ([], [])
  all_position_rows input pools (p ∷ ps) =
      let (cs, qs) = position_rows input pools p in
      let (cs', qs') = all_position_rows input pools ps in (cs ++ cs', qs ++ qs')

  pub event_rows : List RawEventEnvelope → List Activity × List QuarantineEvent
  unfolding opt_list
  event_rows [] = ([], [])
  event_rows (evt ∷ evts) =
      let (act, q) = classify_event evt in
      let (acts, qs) = event_rows evts in (opt_list act ++ acts, opt_list q ++ qs)

  state_rows : TransformInput → List AmmPool × List AmmPositionComponent × List QuarantineEvent
  unfolding own_pools all_position_rows
  state_rows input = elim input.state [
    | none ↦ ([], [], [])
    | some s ↦
        let (pools, rows) = own_pools input s.amm_pools [] [] in
        let (cs, qs) = all_position_rows input pools s.amm_positions in (rows, cs, qs)
  ]

  unfoldable pub transform : TransformInput → TransformOutput
  unfolding state_rows event_rows
  transform input =
      let (pools, components, bad) = state_rows input in
      let (activities, refused) = event_rows input.events in
      record (empty_output input.ledger_seq) {
        activities = activities;
        quarantine = bad ++ refused;
        amm_pools = sort_slice (λ p q. lt_str p.contract_id q.contract_id) pools;
        amm_components = sort_slice (λ c d. lt_str c.id d.id) components;
      }
