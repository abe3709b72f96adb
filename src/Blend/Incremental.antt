-- ===== src/Blend/Incremental.antt =====
-- blend/state_incremental.go: the positions of all users, kept up to date from ledger to ledger; and
-- the assembly from scratch that they stand for, in blend/state.go.
pub mod Track
pub mod Keys
pub mod Update
pub mod Marked
pub mod Refresh
pub mod Snapshot
pub mod Assembly
pub mod Rebuilt
pub mod Applied
pub mod Reach
pub mod Moves
use lidapters.Common.{
  ℕ, ◌+◌, ◌-◌, Bool, true, false, not, Option, none, some, List, [], ◌∷◌, ◌++◌, map, if◌then◌else◌,
  length,
}
use lidapters.Common.Int.{ℤ}
use lidapters.Common.Str.{Str, eq_str}
use lidapters.Common.Dict.{Dict, StrSet, mem, add, lookup, insert, delete, values}
use lidapters.Common.Entries.{each}
use lidapters.Common.IntDict.{IntDict}
use lidapters.Common.Sort.{sort_slice, insert_by}
use lidapters.Common.Strict.{gather}
use lidapters.Common.Lex.{lex, by_text}
use lidapters.Xdr.{Xdr}
use lidapters.Bindings.State.{DecodeDiagnostic}
use lidapters.Blend.Types.{UserReservePosition, PendingUserPosition}
use lidapters.Blend.Order.{less_position, less_user, less_pending}
use lidapters.Blend.Reserves.{PoolBuilder, finalize_pool_reserves, reserve_index_equal}
use lidapters.Blend.Positions.{
  Pending, Writes, UserIdentity, Block, no_block, pending_out, typed_user_entity_key,
  build_user_positions_for_pending,
}

-- An entry is one object, to which `keys` and `index` both point: `composite` tells it apart.
pub record UserEntry : Type 0 where
  pub address : Str
  pub pool : Str
  pub composite : Str
  pub out : PendingUserPosition
  pub block : List UserReservePosition

abbrev pub user_entry_less : UserEntry → UserEntry → Bool
user_entry_less = lex (λ e. e.address) (by_text (λ e. e.pool))

-- `sort.Search` finds the first key that is not less.
unfoldable pub insert_key : UserEntry → List UserEntry → List UserEntry
unfolding insert_by
insert_key e keys = insert_by user_entry_less e keys

-- From the position that the search gives, on to the entry itself.
unfoldable pub drop_entry : UserEntry → List UserEntry → List UserEntry
drop_entry e [] = []
drop_entry e (k ∷ keys) = if eq_str k.composite e.composite then keys else k ∷ drop_entry e keys

unfoldable pub remove_key : UserEntry → List UserEntry → List UserEntry
unfolding drop_entry
remove_key e [] = []
remove_key e (k ∷ keys) =
    if user_entry_less k e then k ∷ remove_key e keys else drop_entry e (k ∷ keys)

-- A write to an entry is seen through each pointer to it.
abbrev pub rewrite : UserEntry → UserEntry → UserEntry
rewrite e k = if eq_str k.composite e.composite then e else k

unfoldable pub write_entry : UserEntry → List UserEntry → List UserEntry
write_entry e keys = map (rewrite e) keys

-- The pools whose mapping changed, and the mappings as of now.
pub record Tracked : Type 0 where
  pub changed : StrSet
  pub indexes : Dict (IntDict Str)

abbrev pub is_changed : Option (IntDict Str) → IntDict Str → Bool
is_changed none now = true
is_changed (some previous) now = not (reserve_index_equal previous now)

unfoldable pub track_pool : Str → PoolBuilder → Tracked → Tracked
track_pool id pool t =
    if is_changed (lookup id t.indexes) pool.reserve_by_index
    then record { changed = add id t.changed; indexes = insert id pool.reserve_by_index t.indexes }
    else t

unfoldable pub track_pools : Dict PoolBuilder → Tracked → Tracked
track_pools [] t = t
track_pools ((id, pool) ∷ pools) t = track_pools pools (track_pool id pool t)

unfoldable pub forget_pool : Dict PoolBuilder → Str → Tracked → Tracked
forget_pool pools id t = elim (lookup id pools) [
  | some pool ↦ t
  | none ↦ record { changed = add id t.changed; indexes = delete id t.indexes }
]

unfoldable pub forget_pools : Dict PoolBuilder → Dict (IntDict Str) → Tracked → Tracked
forget_pools pools [] t = t
forget_pools pools ((id, m) ∷ ms) t = forget_pools pools ms (forget_pool pools id t)

unfoldable pub track : Dict PoolBuilder → Dict (IntDict Str) → Tracked
track pools indexes =
    let t = track_pools pools (record { changed = []; indexes = indexes }) in
    forget_pools pools t.indexes t

-- The cached entries of the changed pools become dirty.
unfoldable pub mark_changed : StrSet → List UserEntry → Dict UserIdentity → Dict UserIdentity
mark_changed changed [] dirty = dirty
mark_changed changed (e ∷ keys) dirty = mark_changed changed keys (
    if mem e.pool changed
    then insert e.composite (record { address = e.address; pool = e.pool }) dirty
    else dirty)

module _ (x : Xdr) where
  -- The strategy, with what this part uses of its mirror; `dirty` is the map that the mirror's
  -- `apply` writes through.
  pub record Strategy : Type 0 where
    pub pools : Dict PoolBuilder
    pub pending_pos : Dict (Pending x)
    pub ledger_seq : ℤ
    pub diagnostics : List DecodeDiagnostic
    pub keys : List UserEntry
    pub index : Dict UserEntry
    pub users_len : ℕ
    pub pool_indexes : Dict (IntDict Str)
    pub dirty : Dict UserIdentity

  -- The maps that `apply` writes, as parts of the strategy.
  abbrev pub writes_of : Strategy → Writes x
  writes_of s = record { pending_pos = s.pending_pos; dirty_users = s.dirty }

  abbrev pub with_writes : Strategy → Writes x → Strategy
  with_writes s w = record s { pending_pos = w.pending_pos; dirty = w.dirty_users }

  sorted_block : Block → Block
  sorted_block b = record b { positions = sort_slice less_position b.positions }

  unfoldable pub compute_block : Dict PoolBuilder → Pending x → Option ℤ → Block
  unfolding sorted_block
  compute_block pools p sink = elim (lookup p.pool_contract pools) [
    | none ↦ no_block
    | some pool ↦ sorted_block (build_user_positions_for_pending x pool p sink)
  ]

  -- The entry that the cache is meant to have.
  unfoldable pub entry_for : Dict PoolBuilder → Str → Pending x → UserEntry
  entry_for pools k p = record {
    address = p.user;
    pool = p.pool_contract;
    composite = k;
    out = pending_out p;
    block = (compute_block pools p none).positions;
  }

  abbrev pub total : List UserEntry → ℕ
  total keys = length (gather (λ e. e.block) keys)

  -- The caches, made from the mirror alone.
  unfoldable pub reseed : Strategy → Strategy
  reseed s =
      let entries = each (entry_for s.pools) s.pending_pos in
      record s {
        keys = sort_slice user_entry_less entries;
        index = each (λ k p. (k, entry_for s.pools k p)) s.pending_pos;
        users_len = total entries;
        pool_indexes = each (λ id pool. (id, pool.reserve_by_index)) s.pools;
        dirty = [];
      }

  -- One dirty key: its pending entry, if it is live, and its cached one, if it is present.
  unfoldable pub update_entry :
      Str → UserIdentity → Option (Pending x) → Option UserEntry → Strategy → Strategy
  update_entry k i (some p) (some e) s =
      let b = compute_block s.pools p (some s.ledger_seq) in
      let written : UserEntry = record e { out = pending_out p; block = b.positions } in
      record s {
        keys = write_entry written s.keys;
        index = insert k written s.index;
        users_len = s.users_len - length e.block + length b.positions;
        diagnostics = s.diagnostics ++ b.diagnostics;
      }
  update_entry k i (some p) none s =
      let b = compute_block s.pools p (some s.ledger_seq) in
      let made : UserEntry = record {
        address = i.address;
        pool = i.pool;
        composite = k;
        out = pending_out p;
        block = b.positions;
      } in
      record s {
        keys = insert_key made s.keys;
        index = insert k made s.index;
        users_len = s.users_len + length b.positions;
        diagnostics = s.diagnostics ++ b.diagnostics;
      }
  update_entry k i none (some e) s = record s {
    keys = remove_key e s.keys;
    index = delete k s.index;
    users_len = s.users_len - length e.block;
  }
  update_entry k i none none s = s

  unfoldable pub update_dirty : Dict UserIdentity → Strategy → Strategy
  update_dirty [] s = s
  update_dirty ((k, i) ∷ dirty) s =
      update_dirty dirty (update_entry k i (lookup k s.pending_pos) (lookup k s.index) s)

  unfoldable pub finalize_pools : Dict PoolBuilder → Dict PoolBuilder
  finalize_pools pools = each (λ id pool. (id, finalize_pool_reserves pool)) pools

  -- The part of `snapshot` that maintains the caches.
  unfoldable pub refresh : Strategy → Strategy
  refresh s =
      let pools = finalize_pools s.pools in
      let t = track pools s.pool_indexes in
      let dirty = mark_changed t.changed s.keys s.dirty in
      record (update_dirty dirty (record s { pools = pools; pool_indexes = t.indexes })) {
        dirty = [];
      }

  unfoldable pub cached_pending : Strategy → List PendingUserPosition
  cached_pending s = map (λ e. e.out) s.keys

  unfoldable pub cached_users : Strategy → List UserReservePosition
  cached_users s = gather (λ e. e.block) s.keys

  unfoldable pub rebuilt_pending : Strategy → List PendingUserPosition
  rebuilt_pending s = sort_slice less_pending (map pending_out (values s.pending_pos))

  abbrev pub rebuilt_by : Option PoolBuilder → Pending x → List UserReservePosition
  rebuilt_by none p = []
  rebuilt_by (some pool) p =
      (build_user_positions_for_pending x (finalize_pool_reserves pool) p none).positions

  unfoldable pub rebuilt_positions : Dict PoolBuilder → Pending x → List UserReservePosition
  rebuilt_positions pools p = rebuilt_by (lookup p.pool_contract pools) p

  unfoldable pub rebuilt_users : Strategy → List UserReservePosition
  rebuilt_users s = sort_slice less_user (gather (rebuilt_positions s.pools) (values s.pending_pos))

  unfoldable pub user_positions : Strategy → Str → Str → List UserReservePosition
  user_positions s address pool = elim (lookup (typed_user_entity_key address pool) s.index) [
    | none ↦ []
    | some e ↦ e.block
  ]
