-- ===== src/Bindings/State.antt =====
-- bindings/types.go: the carried state of the AMM and vault protocols, and what `DecodeState` reads.
-- The Blend slices of `LedgerState` are not modelled: the adapters here carry them over unread.
use lidapters.Common.{ℕ, Bool, false, Option, List, []}
use lidapters.Common.Int.{ℤ, pos}
use lidapters.Common.Str.{Str}

-- One vault: an (account, denomination) pair on one vaults contract.
pub record VaultState : Type 0 where
  pub protocol : Str
  pub contract_id : Str
  pub account : Str
  pub denomination : Str
  pub index_raw : Str
  pub collateral_raw : Str
  pub debt_raw : Str
  pub had_vault : Bool
  pub closed : Bool
  pub restored : Bool

-- One denomination's totals and rate parameters.
pub record VaultsInfoState : Type 0 where
  pub protocol : Str
  pub contract_id : Str
  pub denomination : Str
  pub total_vaults_raw : Str
  pub total_debt_raw : Str
  pub total_col_raw : Str
  pub min_col_rate_raw : Str
  pub min_debt_creation_raw : Str
  pub opening_col_rate_raw : Str

pub record AmmAssetMetadata : Type 0 where
  pub contract_id : Str
  pub symbol : Str
  pub name : Str
  pub decimals : ℤ

pub record AmmTokenReserve : Type 0 where
  pub asset_id : Str
  pub decimals : ℤ
  pub reserve_raw : Str

pub record AmmPoolState : Type 0 where
  pub protocol : Str
  pub router_contract : Str
  pub pool_hash : Str
  pub contract_id : Str
  pub wasm_hash : Str
  pub pool_type : Str
  pub tokens : List AmmTokenReserve
  pub total_shares_raw : Str
  pub fee_fraction_raw : Str
  pub protocol_fee_fraction_raw : Str
  pub amplification_raw : Str
  pub tick_spacing : ℤ
  pub sqrt_price_x96 : Str
  pub current_tick : ℤ
  pub active_liquidity_raw : Str
  pub fee_growth_global0_x128 : Str
  pub fee_growth_global1_x128 : Str
  pub reward_tps_raw : Str
  pub reward_expired_at_raw : Str
  pub reward_accumulated_raw : Str
  pub reward_last_time_raw : Str
  pub working_supply_raw : Str
  pub reward_token_id : Str

pub record AmmPositionState : Type 0 where
  pub address : Str
  pub pool_contract_id : Str
  pub shares_raw : Str
  pub tick_lower : ℤ
  pub tick_upper : ℤ
  pub liquidity_raw : Str
  pub sqrt_price_lower_x96 : Str
  pub sqrt_price_upper_x96 : Str
  pub principal0_raw : Str
  pub principal1_raw : Str
  pub pending_fee0_raw : Str
  pub pending_fee1_raw : Str
  pub reward_token_id : Str
  pub pending_reward_raw : Str
  pub weighted_liquidity_raw : Str
  pub reward_checkpoint_eligible : Bool
  pub had_shares : Bool
  pub working_balance_raw : Str
  pub reward_pool_accumulated_raw : Str

-- The part of `LedgerState` that the AMM and vault protocols carry.
pub record LedgerState : Type 0 where
  pub amm_pools : List AmmPoolState
  pub amm_positions : List AmmPositionState
  pub amm_assets : List AmmAssetMetadata
  pub vaults : List VaultState
  pub vaults_info : List VaultsInfoState

-- Go's zero values.
abbrev pub zero_vault : VaultState
zero_vault = record {
  protocol = [];
  contract_id = [];
  account = [];
  denomination = [];
  index_raw = [];
  collateral_raw = [];
  debt_raw = [];
  had_vault = false;
  closed = false;
  restored = false;
}

abbrev pub zero_token : AmmTokenReserve
zero_token = record { asset_id = []; decimals = pos 0; reserve_raw = [] }

abbrev pub zero_pool : AmmPoolState
zero_pool = record {
  protocol = [];
  router_contract = [];
  pool_hash = [];
  contract_id = [];
  wasm_hash = [];
  pool_type = [];
  tokens = [];
  total_shares_raw = [];
  fee_fraction_raw = [];
  protocol_fee_fraction_raw = [];
  amplification_raw = [];
  tick_spacing = pos 0;
  sqrt_price_x96 = [];
  current_tick = pos 0;
  active_liquidity_raw = [];
  fee_growth_global0_x128 = [];
  fee_growth_global1_x128 = [];
  reward_tps_raw = [];
  reward_expired_at_raw = [];
  reward_accumulated_raw = [];
  reward_last_time_raw = [];
  working_supply_raw = [];
  reward_token_id = [];
}

abbrev pub zero_position : AmmPositionState
zero_position = record {
  address = [];
  pool_contract_id = [];
  shares_raw = [];
  tick_lower = pos 0;
  tick_upper = pos 0;
  liquidity_raw = [];
  sqrt_price_lower_x96 = [];
  sqrt_price_upper_x96 = [];
  principal0_raw = [];
  principal1_raw = [];
  pending_fee0_raw = [];
  pending_fee1_raw = [];
  reward_token_id = [];
  pending_reward_raw = [];
  weighted_liquidity_raw = [];
  reward_checkpoint_eligible = false;
  had_shares = false;
  working_balance_raw = [];
  reward_pool_accumulated_raw = [];
}

abbrev pub empty_state : LedgerState
empty_state = record {
  amm_pools = [];
  amm_positions = [];
  amm_assets = [];
  vaults = [];
  vaults_info = [];
}

-- One ledger entry's contract-data delta; `value_xdr` is `none` when it was removed or evicted.
pub record ContractDataChange : Type 0 where
  pub contract_id : Str
  pub key_xdr : Str
  pub value_xdr : Option Str
  pub durability : Str
  pub change_type : Str
  pub live : Bool
  pub live_until_ledger_seq : Option ℕ
  pub last_modified_ledger : ℕ

pub data DirtyKind : Type 0 where
  upsert removal : DirtyKind

pub record DirtyPosition : Type 0 where
  pub address : Str
  pub pool_contract_id : Str
  pub kind : DirtyKind

-- An entry that the state decode refused to guess about.
pub record DecodeDiagnostic : Type 0 where
  pub code : Str
  pub ledger_seq : ℤ
  pub pool_contract_id : Str
  pub address : Str
  pub position_type : Str
  pub reserve_index : ℤ
  pub amount_raw : Str
  pub candidate_asset_ids : List Str

pub record StateStats : Type 0 where
  pub pools : ℕ
  pub users : ℕ
  pub backstops : ℕ
