-- ===== src/Aquarius/Work.antt =====
-- aquarius/state.go: what the loop of `DecodeState` updates, and the share balance of a position.
use lidapters.Common.{Bool, true, not, ◌&&◌, Option, none, some, List, if◌then◌else◌}
use lidapters.Common.Str.{Str, lit, eq_str, is_empty}
use lidapters.Common.Dict.{Dict, lookup, insert}
use lidapters.Bindings.State.{AmmPoolState, AmmPositionState, AmmAssetMetadata, zero_position}
use lidapters.Aquarius.Config.{Adapter}
use lidapters.Aquarius.Values.{position_key}

-- What the loop over the changes updates: the maps of pools and positions, the assets of the next
-- state, and the adapter, whose share tokens and diagnostics grow.
pub record Work : Type 0 where
  pub adapter : Adapter
  pub pools : Dict AmmPoolState
  pub positions : Dict AmmPositionState
  pub amm_assets : List AmmAssetMetadata

abbrev pub new_position : Str → Str → AmmPositionState
new_position pool owner = record zero_position { address = owner; pool_contract_id = pool }

-- The entry of a map, or else a given position.
abbrev pub position_or : AmmPositionState → Option AmmPositionState → AmmPositionState
position_or fresh none = fresh
position_or fresh (some p) = p

-- A text that is given and is not "0".
abbrev pub is_nonzero : Str → Bool
is_nonzero s = not (is_empty s) && not (eq_str s (lit "0"))

-- The first if it is given, else the second: a gap is filled and nothing is overridden.
abbrev pub fill : Str → Str → Str
fill s d = if is_empty s then d else s

-- `upsertClassicShares`: the position that a share balance leaves.
unfoldable pub with_shares : Str → AmmPositionState → AmmPositionState
with_shares shares p = record p {
  shares_raw = shares;
  had_shares = if eq_str shares (lit "0") then p.had_shares else true;
}

unfoldable pub upsert_classic_shares :
    Str → Str → Str → Dict AmmPositionState → Dict AmmPositionState
upsert_classic_shares pool owner shares m =
    let fresh = new_position pool owner in
    let k = position_key fresh in insert k (with_shares shares (position_or fresh (lookup k m))) m
