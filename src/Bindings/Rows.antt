-- ===== src/Bindings/Rows.antt =====
-- bindings/types.go: the events that `Transform` reads and the rows that it returns. Of
-- `TransformInput` and `TransformOutput` the slices that only Blend uses are left out.
use lidapters.Common.{Option, List, []}
use lidapters.Common.Int.{ℤ}
use lidapters.Common.Str.{Str}
use lidapters.Common.Dict.{Dict}
use lidapters.Bindings.State.{LedgerState, AmmTokenReserve}

pub record RawEventEnvelope : Type 0 where
  pub schema_version : Str
  pub message_type : Str
  pub subject : Str
  pub ledger_seq : ℤ
  pub tx_hash : Str
  pub event_index : ℤ
  pub contract_id : Str
  pub topic : Str
  pub raw_event : Str
  pub source_name : Str
  pub close_time : ℤ
  pub metadata : Dict Str

pub record TransformInput : Type 0 where
  pub ledger_seq : ℤ
  pub close_time : ℤ
  pub events : List RawEventEnvelope
  pub state : Option LedgerState

pub record Activity : Type 0 where
  pub id : Str
  pub ledger_seq : ℤ
  pub tx_hash : Str
  pub event_index : ℤ
  pub contract_id : Str
  pub address : Str
  pub protocol : Str
  pub activity_type : Str
  pub asset_id : Str
  pub amount_raw : Str
  pub share_amount : Str
  pub share_type : Str
  pub asset_symbol : Str
  pub counterparty : Str
  pub usd_value : Str
  pub direction : Str
  pub timestamp : ℤ
  pub metadata : Dict Str

pub record QuarantineEvent : Type 0 where
  pub id : Str
  pub adapter_id : Str
  pub ledger_seq : ℤ
  pub tx_hash : Str
  pub event_index : ℤ
  pub contract_id : Str
  pub reason : Str
  pub raw_event : Str
  pub metadata : Dict Str

-- A vault snapshot row.
pub record Vault : Type 0 where
  pub id : Str
  pub address : Str
  pub protocol : Str
  pub contract_id : Str
  pub denomination : Str
  pub vault_index_raw : Str
  pub collateral_raw : Str
  pub debt_raw : Str
  pub ratio_raw : Str
  pub collateral_usd : Str
  pub debt_usd : Str
  pub status : Str
  pub ledger_seq : ℤ
  pub timestamp : ℤ
  pub metadata : Dict Str

pub record AmmPool : Type 0 where
  pub protocol : Str
  pub router_contract : Str
  pub pool_hash : Str
  pub contract_id : Str
  pub pool_type : Str
  pub wasm_hash : Str
  pub tokens : List AmmTokenReserve
  pub total_shares_raw : Str
  pub fee_fraction_raw : Str
  pub protocol_fee_fraction_raw : Str
  pub amplification_raw : Str
  pub tick_spacing : ℤ
  pub sqrt_price_x96 : Str
  pub current_tick : ℤ
  pub active_liquidity_raw : Str
  pub ledger_seq : ℤ
  pub timestamp : ℤ
  pub metadata : Dict Str

pub record AmmPositionComponent : Type 0 where
  pub id : Str
  pub position_group_id : Str
  pub address : Str
  pub protocol : Str
  pub pool_contract_id : Str
  pub component_kind : Str
  pub asset_id : Str
  pub amount_raw : Str
  pub share_amount_raw : Str
  pub tick_lower : Option ℤ
  pub tick_upper : Option ℤ
  pub usd_value : Str
  pub apr : Str
  pub ledger_seq : ℤ
  pub timestamp : ℤ
  pub metadata : Dict Str

pub record AmmReward : Type 0 where
  pub id : Str
  pub position_group_id : Str
  pub address : Str
  pub protocol : Str
  pub pool_contract_id : Str
  pub reward_contract : Str
  pub reward_token_id : Str
  pub reward_kind : Str
  pub amount_raw : Str
  pub usd_value : Str
  pub ledger_seq : ℤ
  pub timestamp : ℤ
  pub metadata : Dict Str

pub record TransformOutput : Type 0 where
  pub ledger_seq : ℤ
  pub activities : List Activity
  pub quarantine : List QuarantineEvent
  pub amm_pools : List AmmPool
  pub amm_components : List AmmPositionComponent
  pub amm_rewards : List AmmReward
  pub vaults : List Vault

abbrev pub empty_output : ℤ → TransformOutput
empty_output seq = record {
  ledger_seq = seq;
  activities = [];
  quarantine = [];
  amm_pools = [];
  amm_components = [];
  amm_rewards = [];
  vaults = [];
}
