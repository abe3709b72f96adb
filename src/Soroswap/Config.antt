-- ===== src/Soroswap/Config.antt =====
-- soroswap/adapter.go: the configuration, the contract sets of an adapter and what it reports.
use lidapters.Common.{
  Bool, true, ◌||◌, Option, none, some, List, [], ◌∷◌, length, if◌then◌else◌, ◌+◌, ℕ,
}
use lidapters.Common.Str.{Str, lit, is_empty, eq_str, lt_str}
use lidapters.Common.Text.{is_blank, to_lower}
use lidapters.Common.Dict.{StrSet, mem, add}
use lidapters.Common.Sort.{sort_slice}
use lidapters.Bindings.State.{
  DirtyPosition, LedgerState, AmmPoolState, AmmPositionState, AmmTokenReserve, StateStats,
}

pub record Config : Type 0 where
  pub adapter_id : Str
  pub protocol : Str
  pub factories : StrSet
  pub routers : StrSet
  pub pair_wasm_hashes : StrSet

abbrev pub default_config : Config
default_config = record {
  adapter_id = lit "soroswap";
  protocol = lit "soroswap";
  factories = [];
  routers = [];
  pair_wasm_hashes = [];
}

pub record Adapter : Type 0 where
  pub cfg : Config
  pub factories : StrSet
  pub routers : StrSet
  pub pairs : StrSet
  pub assets : StrSet
  pub dirty : List DirtyPosition

-- The ids of a list that are not blank, added to a set.
add_ids : StrSet → List Str → StrSet
add_ids s [] = s
add_ids s (k ∷ ks) = add_ids (if is_blank k then s else add k s) ks

unfoldable pub copy_set : StrSet → StrSet
unfolding add_ids
copy_set set = add_ids [] set

lower_set : StrSet → StrSet → StrSet
lower_set s [] = s
lower_set s (h ∷ hs) = lower_set (if is_blank h then s else add (to_lower h) s) hs

-- The first if it is given, else the second.
or_default : Str → Str → Str
or_default s d = if is_empty s then d else s

-- `none` is the error that an id or a protocol is missing.
unfoldable pub new_with_config : Config → Option Adapter
unfolding or_default lower_set
new_with_config config =
    let adapter_id = or_default config.adapter_id default_config.adapter_id in
    let protocol = or_default config.protocol default_config.protocol in
    let factories = copy_set config.factories in
    let routers = copy_set config.routers in
    if is_empty adapter_id || is_empty protocol
    then none
    else some (record {
      cfg = record {
        adapter_id = adapter_id;
        protocol = protocol;
        factories = factories;
        routers = routers;
        pair_wasm_hashes = lower_set [] config.pair_wasm_hashes;
      };
      factories = copy_set factories;
      routers = copy_set routers;
      pairs = [];
      assets = [];
      dirty = [];
    })

unfoldable pub owns_contract : Adapter → Str → Bool
owns_contract a id =
    if mem id a.factories
    then true
    else if mem id a.routers
    then true
    else if mem id a.pairs
    then true
    else mem id a.assets

unfoldable pub register_pair_contracts : Adapter → List Str → Adapter
unfolding add_ids
register_pair_contracts a ids = record a { pairs = add_ids a.pairs ids }

unfoldable pub register_asset_contracts : Adapter → List Str → Adapter
unfolding add_ids
register_asset_contracts a ids = record a { assets = add_ids a.assets ids }

token_ids : StrSet → List AmmTokenReserve → StrSet
token_ids s [] = s
token_ids s (t ∷ ts) = token_ids (if is_empty t.asset_id then s else add t.asset_id s) ts

pool_token_ids : Adapter → StrSet → List AmmPoolState → StrSet
unfolding token_ids
pool_token_ids a s [] = s
pool_token_ids a s (p ∷ ps) =
    pool_token_ids a (if eq_str p.protocol a.cfg.protocol then token_ids s p.tokens else s) ps

unfoldable pub state_asset_contracts : Adapter → Option LedgerState → List Str
unfolding pool_token_ids
state_asset_contracts a none = []
state_asset_contracts a (some s) = sort_slice lt_str (pool_token_ids a [] s.amm_pools)

count_pools : Adapter → List AmmPoolState → ℕ
count_pools a [] = 0
count_pools a (p ∷ ps) =
    let rest = count_pools a ps in if eq_str p.protocol a.cfg.protocol then rest + 1 else rest

holders : Adapter → StrSet → List AmmPositionState → StrSet
holders a seen [] = seen
holders a seen (p ∷ ps) =
    holders a (if mem p.pool_contract_id a.pairs then add p.address seen else seen) ps

unfoldable pub state_stats : Adapter → Option LedgerState → StateStats
unfolding count_pools holders
state_stats a none = record { pools = 0; users = 0; backstops = 0 }
state_stats a (some s) = record {
  pools = count_pools a s.amm_pools;
  users = length (holders a [] s.amm_positions);
  backstops = 0;
}

unfoldable pub last_dirty_positions : Adapter → List DirtyPosition
last_dirty_positions a = a.dirty
