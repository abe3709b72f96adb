-- ===== src/Blend/Types.antt =====
-- blend/contracts/types.go: the state of pools and reserves and the positions of users.
use lidapters.Common.{Bool, false, List, []}
use lidapters.Common.Int.{ℤ, pos}
use lidapters.Common.Str.{Str, lit}

-- A Go `PositionType` is a string.
abbrev pub position_type_supply : Str
position_type_supply = lit "supply"

abbrev pub position_type_collateral : Str
position_type_collateral = lit "collateral"

abbrev pub position_type_liability : Str
position_type_liability = lit "liability"

pub record PoolEmissionEntry : Type 0 where
  pub reserve_token_id : ℤ
  pub share_raw : Str

pub record ReserveState : Type 0 where
  pub reserve_index : ℤ
  pub reserve_index_known : Bool
  pub asset_id : Str
  pub asset_decimals : ℤ
  pub b_rate_raw : Str
  pub d_rate_raw : Str
  pub b_supply_raw : Str
  pub d_supply_raw : Str
  pub pool_balance_raw : Str
  pub c_factor_raw : Str
  pub l_factor_raw : Str
  pub util_target_raw : Str
  pub max_util_raw : Str
  pub r_base_raw : Str
  pub r_one_raw : Str
  pub r_two_raw : Str
  pub r_three_raw : Str
  pub rate_modifier_raw : Str
  pub supply_cap_raw : Str
  pub oracle_price_raw : Str
  pub oracle_decimals : ℤ
  pub enabled : Bool
  pub reactivity_raw : Str
  pub supply_emissions_apr : Str
  pub borrow_emissions_apr : Str
  pub supply_emis_eps_raw : Str
  pub supply_emis_expiration_raw : Str
  pub supply_emis_index_raw : Str
  pub supply_emis_last_time_raw : Str
  pub borrow_emis_eps_raw : Str
  pub borrow_emis_expiration_raw : Str
  pub borrow_emis_index_raw : Str
  pub borrow_emis_last_time_raw : Str
  pub backstop_credit_raw : Str
  pub last_time_raw : Str
  pub archived : Bool
  pub archived_ledger_seq : ℤ

pub record PoolState : Type 0 where
  pub contract_id : Str
  pub backstop_contract : Str
  pub oracle_contract : Str
  pub wasm_hash : Str
  pub pool_status : Str
  pub backstop_take_rate : Str
  pub name : Str
  pub admin : Str
  pub blnd_token : Str
  pub max_positions_raw : Str
  pub min_collateral_raw : Str
  pub pool_emissions : List PoolEmissionEntry
  pub reserves : List ReserveState
  pub backstop_shares_raw : Str
  pub backstop_tokens_raw : Str
  pub backstop_q4w_shares_raw : Str
  pub backstop_emis_eps_raw : Str
  pub backstop_emis_expiration_raw : Str
  pub backstop_emis_index_raw : Str
  pub backstop_emis_last_time_raw : Str

pub record UserReservePosition : Type 0 where
  pub address : Str
  pub pool_contract_id : Str
  pub asset_id : Str
  pub position_type : Str
  pub b_tokens_raw : Str
  pub d_tokens_raw : Str
  pub archived : Bool
  pub archived_ledger_seq : ℤ

-- A user's entry in a pool as the ledger has it, with the text of its value.
pub record PendingUserPosition : Type 0 where
  pub address : Str
  pub pool_contract_id : Str
  pub positions_xdr : Str
  pub archived : Bool
  pub archived_ledger_seq : ℤ

-- The zero value.
abbrev pub zero_reserve : ReserveState
zero_reserve = record {
  reserve_index = pos 0;
  reserve_index_known = false;
  asset_id = [];
  asset_decimals = pos 0;
  b_rate_raw = [];
  d_rate_raw = [];
  b_supply_raw = [];
  d_supply_raw = [];
  pool_balance_raw = [];
  c_factor_raw = [];
  l_factor_raw = [];
  util_target_raw = [];
  max_util_raw = [];
  r_base_raw = [];
  r_one_raw = [];
  r_two_raw = [];
  r_three_raw = [];
  rate_modifier_raw = [];
  supply_cap_raw = [];
  oracle_price_raw = [];
  oracle_decimals = pos 0;
  enabled = false;
  reactivity_raw = [];
  supply_emissions_apr = [];
  borrow_emissions_apr = [];
  supply_emis_eps_raw = [];
  supply_emis_expiration_raw = [];
  supply_emis_index_raw = [];
  supply_emis_last_time_raw = [];
  borrow_emis_eps_raw = [];
  borrow_emis_expiration_raw = [];
  borrow_emis_index_raw = [];
  borrow_emis_last_time_raw = [];
  backstop_credit_raw = [];
  last_time_raw = [];
  archived = false;
  archived_ledger_seq = pos 0;
}

-- The zero value.
abbrev pub zero_pool_state : PoolState
zero_pool_state = record {
  contract_id = [];
  backstop_contract = [];
  oracle_contract = [];
  wasm_hash = [];
  pool_status = [];
  backstop_take_rate = [];
  name = [];
  admin = [];
  blnd_token = [];
  max_positions_raw = [];
  min_collateral_raw = [];
  pool_emissions = [];
  reserves = [];
  backstop_shares_raw = [];
  backstop_tokens_raw = [];
  backstop_q4w_shares_raw = [];
  backstop_emis_eps_raw = [];
  backstop_emis_expiration_raw = [];
  backstop_emis_index_raw = [];
  backstop_emis_last_time_raw = [];
}
