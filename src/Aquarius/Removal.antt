-- ===== src/Aquarius/Removal.antt =====
-- aquarius/state.go: `applyEntryRemoval`, and when an entry counts as removed.
use lidapters.Common.{
  ℕ, ◌-◌, ◌%◌, ◌^◌, Bool, true, false, none, some, List, [], ◌∷◌, ltb, if◌then◌else◌,
}
use lidapters.Common.Int.{ℤ, pos, negsuc}
use lidapters.Common.Str.{Str, lit, eq_str, is_empty}
use lidapters.Common.Text.{to_lower}
use lidapters.Common.Dict.{Dict, lookup, insert, delete, delete_where, mem}
use lidapters.Xdr.{Xdr}
use lidapters.Bindings.State.{AmmPositionState, ContractDataChange}
use lidapters.Aquarius.Config.{Adapter}
use lidapters.Aquarius.Values.{position_key, decode_val, symbol_or_first, addr_in_key, ticks_in_key}
use lidapters.Aquarius.Work.{Work, new_position}

-- uint32 of an int64
abbrev pub to_uint32 : ℤ → ℕ
to_uint32 (pos n) = n % 2 ^ 32
to_uint32 (negsuc n) = 2 ^ 32 - 1 - n % 2 ^ 32

-- Whether a change deletes, evicts or lets expire its entry.
unfoldable pub is_gone : ℤ → ContractDataChange → Bool
is_gone seq c = elim c.value_xdr [
  | none ↦ true
  | some value ↦
      if c.live
      then elim c.live_until_ledger_seq [ none ↦ false | some until ↦ ltb until (to_uint32 seq) ]
      else true
]

-- The positions that a removal of a balance and of a reward checkpoint leave.
unfoldable pub closed_position : AmmPositionState → AmmPositionState
closed_position p = record p {
  shares_raw = lit "0";
  liquidity_raw = lit "0";
  principal0_raw = [];
  principal1_raw = [];
  pending_fee0_raw = [];
  pending_fee1_raw = [];
}

unfoldable pub claimed_position : AmmPositionState → AmmPositionState
claimed_position p = record p { pending_reward_raw = lit "0"; reward_pool_accumulated_raw = [] }

-- `if current, exists := positions[k]; exists { positions[k] = f(current) }`
unfoldable pub update_position :
    Str → (AmmPositionState → AmmPositionState) → Dict AmmPositionState → Dict AmmPositionState
update_position k f m = elim (lookup k m) [ none ↦ m | some p ↦ insert k (f p) m ]

abbrev pub position_names : List Str
position_names = lit "balance" ∷ lit "position" ∷ lit "positions" ∷ []

abbrev pub user_names : List Str
user_names = lit "workingbalance" ∷ lit "user" ∷ []

-- The pool is gone with its positions.
unfoldable pub remove_pool : Str → Work → Work
remove_pool id w = record w {
  pools = delete id w.pools;
  positions = delete_where (λ p. eq_str p.pool_contract_id id) w.positions;
}

-- The pool that the entries of a contract belong to.
unfoldable pub pool_of : Adapter → Str → Str
pool_of a id = elim (lookup id a.share_tokens) [ some pool ↦ pool | none ↦ id ]

module _ (x : Xdr) where
  open x use {ScVal}

  abbrev pub entry_name : ScVal → Str
  entry_name key = to_lower (symbol_or_first x key)

  -- The key of the position that the removed entry named.
  unfoldable pub probe : Str → ScVal → AmmPositionState
  probe pool key =
      let p = new_position pool (addr_in_key x key) in
      elim (ticks_in_key x key) [
        | none ↦ p
        | some (lo, hi) ↦ record p { tick_lower = lo; tick_upper = hi }
      ]

  -- The removal of an entry whose key decodes.
  unfoldable pub keyed_removal : Str → ScVal → Work → Work
  keyed_removal id key w =
      let pool = pool_of w.adapter id in
      let who = addr_in_key x key in
      if mem (entry_name key) position_names
      then if is_empty who then w else record w {
        positions = update_position (position_key (probe pool key)) closed_position w.positions;
      }
      else if eq_str (entry_name key) (lit "userrewarddata")
      then if is_empty who then w else record w {
        positions =
            update_position (position_key (new_position pool who)) claimed_position w.positions;
      }
      else if mem (entry_name key) user_names
      then w
      else remove_pool id w

  unfoldable pub apply_entry_removal : ContractDataChange → Work → Work
  apply_entry_removal c w = elim (decode_val x c.key_xdr) [
    | none ↦ remove_pool c.contract_id w
    | some key ↦ keyed_removal c.contract_id key w
  ]
