-- ===== src/Fxdao/Config.antt =====
-- fxdao/adapter.go: the configuration, the owned contracts and what the adapter reports.
use lidapters.Common.{Bool, ◌||◌, not, Option, none, some, List, [], ◌∷◌, length, if◌then◌else◌}
use lidapters.Common.Str.{Str, lit, is_empty, eq_str, lt_str}
use lidapters.Common.Text.{is_blank}
use lidapters.Common.Dict.{StrSet, mem, add}
use lidapters.Common.Sort.{sort_slice}
use lidapters.Bindings.State.{DirtyKind, LedgerState, VaultState, StateStats}

pub record Config : Type 0 where
  pub adapter_id : Str
  pub protocol : Str
  pub vaults_contracts : StrSet

abbrev pub default_config : Config
default_config = record { adapter_id = lit "fxdao"; protocol = lit "fxdao"; vaults_contracts = [] }

pub record DirtyVault : Type 0 where
  pub contract_id : Str
  pub account : Str
  pub denomination : Str
  pub kind : DirtyKind

pub record Adapter : Type 0 where
  pub cfg : Config
  pub contracts : StrSet
  pub dirty : List DirtyVault

-- The ids of a list that are not blank, added to a set.
add_ids : StrSet → List Str → StrSet
add_ids s [] = s
add_ids s (k ∷ ks) = add_ids (if is_blank k then s else add k s) ks

add_all : StrSet → List Str → StrSet
add_all s [] = s
add_all s (k ∷ ks) = add_all (add k s) ks

-- The first if it is given, else the second.
or_default : Str → Str → Str
or_default s d = if is_empty s then d else s

-- `none` is the error that an id or a protocol is missing.
unfoldable pub new_with_config : Config → Option Adapter
unfolding add_ids add_all or_default
new_with_config config =
    let adapter_id = or_default config.adapter_id default_config.adapter_id in
    let protocol = or_default config.protocol default_config.protocol in
    let vaults_contracts = add_ids [] config.vaults_contracts in
    if is_empty adapter_id || is_empty protocol
    then none
    else some (record {
      cfg = record {
        adapter_id = adapter_id;
        protocol = protocol;
        vaults_contracts = vaults_contracts;
      };
      contracts = add_all [] vaults_contracts;
      dirty = [];
    })

unfoldable pub owns_contract : Adapter → Str → Bool
owns_contract a id = mem id a.contracts

unfoldable pub register_contracts : Adapter → List Str → Adapter
unfolding add_ids
register_contracts a ids = record a { contracts = add_ids a.contracts ids }

unfoldable pub last_dirty_vaults : Adapter → List DirtyVault
last_dirty_vaults a = a.dirty

-- The contracts and the accounts with an open vault that have been seen.
seen : Adapter → StrSet × StrSet → List VaultState → StrSet × StrSet
seen a s [] = s
seen a (contracts, accounts) (v ∷ vs) =
    seen a
      (if not (eq_str v.protocol a.cfg.protocol)
        then (contracts, accounts)
        else (add v.contract_id contracts, if v.closed then accounts else add v.account accounts))
      vs

unfoldable pub state_stats : Adapter → Option LedgerState → StateStats
unfolding seen
state_stats a none = record { pools = 0; users = 0; backstops = 0 }
state_stats a (some s) =
    let (contracts, accounts) = seen a ([], []) s.vaults in
    record { pools = length contracts; users = length accounts; backstops = 0 }

unfoldable pub less_dirty : DirtyVault → DirtyVault → Bool
less_dirty d e =
    if not (eq_str d.contract_id e.contract_id)
    then lt_str d.contract_id e.contract_id
    else if not (eq_str d.account e.account)
    then lt_str d.account e.account
    else lt_str d.denomination e.denomination

unfoldable pub sort_dirty : List DirtyVault → List DirtyVault
unfolding less_dirty
sort_dirty d = sort_slice less_dirty d
