-- ===== src/Aquarius/Config.antt =====
-- aquarius/adapter.go: the configuration with its pool seeds, the contract sets of an adapter and
-- what it reports.
use lidapters.Common.{
  ℕ, ◌+◌, Bool, true, false, ◌||◌, Option, none, some, List, [], ◌∷◌, length, if◌then◌else◌,
}
use lidapters.Common.Str.{Str, lit, is_empty, eq_str, lt_str}
use lidapters.Common.Text.{is_blank, to_lower}
use lidapters.Common.Dict.{Dict, StrSet, mem, add, lookup, insert}
use lidapters.Common.Sort.{sort_slice}
use lidapters.Bindings.State.{
  LedgerState, AmmPoolState, AmmPositionState, AmmTokenReserve, DecodeDiagnostic, StateStats,
}

pub record PoolSeedPosition : Type 0 where
  pub address : Str
  pub shares_raw : Str
  pub pending_reward_raw : Str

-- A snapshot of one pool at a known ledger.
pub record PoolSeed : Type 0 where
  pub contract_id : Str
  pub router_contract : Str
  pub pool_hash : Str
  pub pool_type : Str
  pub tokens : List Str
  pub reserves_raw : List Str
  pub total_shares_raw : Str
  pub fee_fraction_raw : Str
  pub protocol_fee_fraction_raw : Str
  pub positions : List PoolSeedPosition

pub record Config : Type 0 where
  pub adapter_id : Str
  pub protocol : Str
  pub routers : StrSet
  pub pool_wasm_hashes : Dict Str
  pub allow_unknown_wasm : Bool
  pub pool_seeds : List PoolSeed

abbrev pub default_config : Config
default_config = record {
  adapter_id = lit "aquarius";
  protocol = lit "aquarius";
  routers = [];
  pool_wasm_hashes = [];
  allow_unknown_wasm = false;
  pool_seeds = [];
}

-- `share_tokens` maps the LP share token of a pool to the pool.
pub record Adapter : Type 0 where
  pub cfg : Config
  pub contracts : StrSet
  pub assets : StrSet
  pub share_tokens : Dict Str
  pub diagnostics : List DecodeDiagnostic

-- The ids of a list that are not blank, added to a set.
add_ids : StrSet → List Str → StrSet
add_ids s [] = s
add_ids s (k ∷ ks) = add_ids (if is_blank k then s else add k s) ks

add_all : StrSet → List Str → StrSet
add_all s [] = s
add_all s (k ∷ ks) = add_all (add k s) ks

unfoldable pub copy_set : StrSet → StrSet
unfolding add_ids
copy_set set = add_ids [] set

lower_keys : Dict Str → Dict Str → Dict Str
lower_keys out [] = out
lower_keys out ((k, v) ∷ m) = lower_keys (insert (to_lower k) v out) m

-- The first if it is given, else the second.
or_default : Str → Str → Str
or_default s d = if is_empty s then d else s

-- `none` is the error that an id or a protocol is missing.
unfoldable pub new_with_config : Config → Option Adapter
unfolding or_default lower_keys add_all
new_with_config c =
    let adapter_id = or_default c.adapter_id default_config.adapter_id in
    let protocol = or_default c.protocol default_config.protocol in
    let routers = copy_set c.routers in
    if is_empty adapter_id || is_empty protocol
    then none
    else some (record {
      cfg = record {
        adapter_id = adapter_id;
        protocol = protocol;
        routers = routers;
        pool_wasm_hashes = lower_keys [] c.pool_wasm_hashes;
        allow_unknown_wasm = c.allow_unknown_wasm;
        pool_seeds = c.pool_seeds;
      };
      contracts = add_all [] routers;
      assets = [];
      share_tokens = [];
      diagnostics = [];
    })

unfoldable pub owns_contract : Adapter → Str → Bool
owns_contract a id =
    if mem id a.contracts
    then true
    else elim (lookup id a.share_tokens) [ some pool ↦ true | none ↦ mem id a.assets ]

unfoldable pub register_contracts : Adapter → List Str → Adapter
unfolding add_ids
register_contracts a ids = record a { contracts = add_ids a.contracts ids }

unfoldable pub register_asset_contracts : Adapter → List Str → Adapter
unfolding add_ids
register_asset_contracts a ids = record a { assets = add_ids a.assets ids }

token_ids : StrSet → List AmmTokenReserve → StrSet
token_ids s [] = s
token_ids s (t ∷ ts) = token_ids (if is_empty t.asset_id then s else add t.asset_id s) ts

pool_token_ids : Adapter → StrSet → List AmmPoolState → StrSet
unfolding token_ids
pool_token_ids a s [] = s
pool_token_ids a s (p ∷ ps) =
    pool_token_ids a (if eq_str p.protocol a.cfg.protocol then token_ids s p.tokens else s) ps

unfoldable pub state_asset_contracts : Adapter → Option LedgerState → List Str
unfolding pool_token_ids
state_asset_contracts a none = []
state_asset_contracts a (some s) = sort_slice lt_str (pool_token_ids a [] s.amm_pools)

count_pools : Adapter → List AmmPoolState → ℕ
count_pools a [] = 0
count_pools a (p ∷ ps) =
    let rest = count_pools a ps in if eq_str p.protocol a.cfg.protocol then rest + 1 else rest

holders : StrSet → List AmmPositionState → StrSet
holders seen [] = seen
holders seen (p ∷ ps) = holders (add p.address seen) ps

unfoldable pub state_stats : Adapter → Option LedgerState → StateStats
unfolding count_pools holders
state_stats a none = record { pools = 0; users = 0; backstops = 0 }
state_stats a (some s) = record {
  pools = count_pools a s.amm_pools;
  users = length (holders [] s.amm_positions);
  backstops = 0;
}

unfoldable pub last_decode_diagnostics : Adapter → List DecodeDiagnostic
last_decode_diagnostics a = a.diagnostics
