-- ===== src/Aquarius/Events.antt =====
-- aquarius/transform.go: the era tables of event names, the class of a contract, and the activity
-- or the quarantine that one event gives.
pub mod Classify
use lidapters.Common.{
  ℕ, zero, suc, ◌^◌, Bool, true, false, not, ◌&&◌, ◌||◌, Option, none, some, List, [], ◌∷◌, ◌++◌,
  ltb, if◌then◌else◌,
}
use lidapters.Common.Int.{ℤ, pos, ltb_ℤ}
use lidapters.Common.Str.{Str, lit, eq_str, is_empty}
use lidapters.Common.Decimal.{dec_ℤ}
use lidapters.Common.Dict.{Dict, mem, lookup}
use lidapters.Xdr.{Xdr, EventBody, Parts128}
use lidapters.Bindings.State.{AmmPoolState}
use lidapters.Bindings.Rows.{RawEventEnvelope, Activity, QuarantineEvent}
use lidapters.Aquarius.Config.{Adapter}
use lidapters.Aquarius.Values.{addr, symbol_or_first, u128_string, i128_string}

-- Whether a name is a served activity, and the first ledger it was observed in.
pub record EventEra : Type 0 where
  pub activity : Bool
  pub from_ledger : ℤ

abbrev pub era : Bool → ℕ → EventEra
era activity from = record { activity = activity; from_ledger = pos from }

-- The events of the class "router".
abbrev pub router_eras : Dict EventEra
router_eras =
    (lit "add_pool", era true 52728530)
    ∷ (lit "deposit", era true 52728548)
    ∷ (lit "swap", era true 52728694)
    ∷ (lit "withdraw", era true 52728753)
    ∷ (lit "claim", era true 53554212)
    ∷ (lit "config_rewards", era true 53788765)
    ∷ (lit "commit_transfer_ownership", era false 55363698)
    ∷ (lit "apply_transfer_ownership", era false 55363729)
    ∷ (lit "set_privileged_addrs", era false 55363632)
    ∷ (lit "commit_upgrade", era false 56429464)
    ∷ (lit "apply_upgrade", era false 56505099)
    ∷ (lit "set_protocol_fee", era false 57711843)
    ∷ (lit "pool_gauge_switch_token", era false 58787667)
    ∷ []

-- The events of the class "pool_cp".
abbrev pub pool_cp_eras : Dict EventEra
pool_cp_eras =
    (lit "deposit_liquidity", era true 52728548)
    ∷ (lit "trade", era true 52728694)
    ∷ (lit "withdraw_liquidity", era true 52728753)
    ∷ (lit "claim_reward", era true 55364200)
    ∷ (lit "update_reserves", era true 57724992)
    ∷ (lit "kill_claim", era false 53446148)
    ∷ (lit "unkill_claim", era false 53553379)
    ∷ (lit "set_privileged_addrs", era false 55363632)
    ∷ (lit "commit_transfer_ownership", era false 55363698)
    ∷ (lit "apply_transfer_ownership", era false 55363729)
    ∷ (lit "set_rewards_config", era false 55363850)
    ∷ (lit "commit_upgrade", era false 56429489)
    ∷ (lit "apply_upgrade", era false 56505152)
    ∷ (lit "set_protocol_fee", era false 57725741)
    ∷ (lit "claim_protocol_fee", era false 57812875)
    ∷ (lit "rewards_gauge_add", era false 58961340)
    ∷ (lit "rewards_gauge_schedule_reward", era false 58961340)
    ∷ (lit "rewards_gauge_claim", era false 58961606)
    ∷ (lit "reserves_sync", era false 62338454)
    ∷ (lit "set_rewards_state", era false 62460053)
    ∷ []

-- The events of the class "pool_stable".
abbrev pub pool_stable_eras : Dict EventEra
pool_stable_eras =
    (lit "deposit_liquidity", era true 53721288)
    ∷ (lit "trade", era true 53752457)
    ∷ (lit "withdraw_liquidity", era true 54357611)
    ∷ (lit "claim_reward", era true 55364553)
    ∷ (lit "update_reserves", era true 57711655)
    ∷ (lit "set_privileged_addrs", era false 55363632)
    ∷ (lit "commit_transfer_ownership", era false 55363698)
    ∷ (lit "apply_transfer_ownership", era false 55363729)
    ∷ (lit "set_rewards_config", era false 55363874)
    ∷ (lit "commit_upgrade", era false 56429464)
    ∷ (lit "apply_upgrade", era false 56505116)
    ∷ (lit "set_protocol_fee", era false 57711843)
    ∷ (lit "claim_protocol_fee", era false 58023965)
    ∷ []

-- The events of the class "pool_concentrated".
abbrev pub pool_concentrated_eras : Dict EventEra
pool_concentrated_eras =
    (lit "deposit_liquidity", era true 62341770)
    ∷ (lit "pool_state", era true 62341770)
    ∷ (lit "position_update", era true 62341770)
    ∷ (lit "update_reserves", era true 62341770)
    ∷ (lit "trade", era true 62341787)
    ∷ (lit "withdraw_liquidity", era true 62342165)
    ∷ (lit "claim_fees", era true 62343467)
    ∷ (lit "claim_reward", era true 62350500)
    ∷ (lit "commit_upgrade", era false 62429301)
    ∷ (lit "claim_protocol_fee", era false 62440492)
    ∷ (lit "apply_upgrade", era false 62475394)
    ∷ (lit "enable_emergency_mode", era false 62877434)
    ∷ (lit "disable_emergency_mode", era false 62877804)
    ∷ (lit "set_rewards_state", era false 63082253)
    ∷ []

-- The events of the class "share_token".
abbrev pub share_token_eras : Dict EventEra
share_token_eras =
    (lit "mint", era false 53553264)
    ∷ (lit "burn", era false 53555897)
    ∷ (lit "transfer", era false 53738883)
    ∷ (lit "approve", era false 60433173)
    ∷ []

abbrev pub event_eras_by_class : Dict (Dict EventEra)
event_eras_by_class =
    (lit "router", router_eras)
    ∷ (lit "pool_cp", pool_cp_eras)
    ∷ (lit "pool_stable", pool_stable_eras)
    ∷ (lit "pool_concentrated", pool_concentrated_eras)
    ∷ (lit "share_token", share_token_eras)
    ∷ []

abbrev pub pool_type_event_class : Dict Str
pool_type_event_class =
    (lit "constant_product", lit "pool_cp")
    ∷ (lit "stable", lit "pool_stable")
    ∷ (lit "concentrated", lit "pool_concentrated")
    ∷ []

-- The class of the contract that an event comes from; empty if there is none.
unfoldable pub event_class : Adapter → Str → Dict AmmPoolState → Str
event_class a id pools =
    if mem id a.cfg.routers then lit "router" else elim (lookup id a.share_tokens) [
      | some pool ↦ lit "share_token"
      | none ↦ if mem id a.assets then lit "share_token" else elim (lookup id pools) [
        | none ↦ []
        | some p ↦ elim (lookup p.pool_type pool_type_event_class) [
          | none ↦ []
          | some class ↦ class
        ]
      ]
    ]

-- The parts joined by `|`; no bar is written while nothing has been written.
join_parts : Str → List Str → Str
join_parts b [] = b
join_parts b (p ∷ ps) = join_parts (if is_empty b then p else b ++ (lit "|" ++ p)) ps

unfoldable pub stable_id : Xdr → List Str → Str
unfolding join_parts
stable_id x parts = x.sha256_hex (join_parts [] parts)

-- The element of a list at an index.
at : {A : Type 0} → List A → ℕ → Option A
at [] i = none
at (v ∷ vs) zero = some v
at (v ∷ vs) (suc i) = at vs i

-- The wallet, the asset and the amount of an activity.
pub record Attribution : Type 0 where
  pub wallet : Str
  pub asset : Str
  pub amount : Str

module _ (x : Xdr) where
  open x use {ScVal}

  -- An amount is an i128, or a u128 in the range of an i128.
  unfoldable pub event_amount : ScVal → Str
  event_amount v = elim (x.get_i128 v) [
    | some p ↦ i128_string p
    | none ↦ elim (x.get_u128 v) [
      | none ↦ []
      | some p ↦ if ltb p.hi (2 ^ 63) then u128_string p else []
    ]
  ]

  -- The value of an element, or nothing if it is missing.
  slot : (ScVal → Str) → List ScVal → ℕ → Str
  unfolding at
  slot f vs i = elim (at vs i) [ none ↦ [] | some v ↦ f v ]

  -- The elements of the payload, if it is a vector.
  data_of : ScVal → List ScVal
  data_of v = elim (x.get_vec v) [ none ↦ [] | some none ↦ [] | some (some vs) ↦ vs ]

  unfoldable pub attribute_activity : Str → Str → EventBody ScVal → Attribution
  unfolding slot data_of
  attribute_activity class name v =
      let topic = slot (addr x) v.topics in
      let elements = data_of v.payload in
      let router = eq_str class (lit "router") in
      if eq_str name (lit "trade")
      then record { wallet = topic 3; asset = topic 1; amount = slot event_amount elements 0 }
      else if eq_str name (lit "claim_reward")
      then record { wallet = topic 2; asset = topic 1; amount = slot event_amount elements 0 }
      else if eq_str name (lit "position_update") || eq_str name (lit "claim_fees")
      then record { wallet = topic 1; asset = []; amount = [] }
      else if router && (eq_str name (lit "deposit") || eq_str name (lit "withdraw"))
      then record { wallet = topic 2; asset = []; amount = [] }
      else if router && eq_str name (lit "swap")
      then record {
        wallet = topic 2;
        asset = slot (addr x) elements 1;
        amount = slot event_amount elements 3;
      }
      else if router && eq_str name (lit "claim")
      then record {
        wallet = topic 2;
        asset = slot (addr x) elements 1;
        amount = slot event_amount elements 2;
      }
      else record { wallet = []; asset = []; amount = [] }

  module _ (a : Adapter) where
    unfoldable pub quarantine_event : RawEventEnvelope → Str → Dict Str → QuarantineEvent
    quarantine_event evt reason metadata = record {
      id =
          stable_id x
            (a.cfg.adapter_id ∷ dec_ℤ evt.ledger_seq ∷ evt.tx_hash ∷ dec_ℤ evt.event_index ∷ []);
      adapter_id = a.cfg.adapter_id;
      ledger_seq = evt.ledger_seq;
      tx_hash = evt.tx_hash;
      event_index = evt.event_index;
      contract_id = evt.contract_id;
      reason = reason;
      raw_event = evt.raw_event;
      metadata = metadata;
    }

    unfoldable pub activity_row : RawEventEnvelope → Str → Str → EventBody ScVal → Activity
    activity_row evt class name body =
        let r = attribute_activity class name body in
        record {
          id = stable_id x (
              a.cfg.protocol
              ∷ dec_ℤ evt.ledger_seq
              ∷ evt.tx_hash
              ∷ dec_ℤ evt.event_index
              ∷ name
              ∷ []);
          ledger_seq = evt.ledger_seq;
          tx_hash = evt.tx_hash;
          event_index = evt.event_index;
          contract_id = evt.contract_id;
          address = if is_empty r.wallet then evt.contract_id else r.wallet;
          protocol = a.cfg.protocol;
          activity_type = name;
          asset_id = r.asset;
          amount_raw = r.amount;
          share_amount = [];
          share_type = [];
          asset_symbol = [];
          counterparty = [];
          usd_value = [];
          direction = [];
          timestamp = evt.close_time;
          metadata = (lit "aquarius_event", name) ∷ (lit "event_class", class) ∷ [];
        }

    -- What `decodeActivities` returns.
    abbrev pub Outcome : Type 0
    Outcome = List Activity × List QuarantineEvent

    -- An event of a classified contract, by its name.
    unfoldable pub classify_name :
        RawEventEnvelope → Str → Str → Dict EventEra → EventBody ScVal → Outcome
    classify_name evt class name eras body =
        let both = (lit "aquarius_event", name) ∷ (lit "event_class", class) ∷ [] in
        elim (lookup name eras) [
          | none ↦ ([], quarantine_event evt (lit "aquarius_event_unknown_name") both ∷ [])
          | some e ↦
              if ltb_ℤ evt.ledger_seq e.from_ledger
              then ([], quarantine_event evt (lit "aquarius_event_before_era_floor") both ∷ [])
              else if e.activity
              then (activity_row evt class name body ∷ [], [])
              else ([], [])
        ]

    -- An event by the era table of its contract's class, if there is one.
    unfoldable pub by_class :
        RawEventEnvelope → Str → ScVal → EventBody ScVal → Option (Dict EventEra) → Outcome
    by_class evt class t body none = (
      [],
      quarantine_event evt (lit "aquarius_event_unclassified_contract")
            ((lit "aquarius_event", symbol_or_first x t) ∷ [])
          ∷ [],
    )
    by_class evt class t body (some eras) = classify_name evt class (symbol_or_first x t) eras body

    unfoldable pub decode_body : RawEventEnvelope → Str → EventBody ScVal → Outcome
    decode_body evt class body = elim body.topics [
      | [] ↦ ([], [])
      | t ∷ ts ↦ by_class evt class t body (lookup class event_eras_by_class)
    ]

    unfoldable pub decode_activities : RawEventEnvelope → Str → Outcome
    decode_activities evt class = elim (x.unmarshal_event evt.raw_event) [
      | none ↦ ([], [])
      | some none ↦ ([], [])
      | some (some body) ↦ decode_body evt class body
    ]
