-- ===== src/Blend/Incremental/Rebuilt.antt =====
-- blend/state_incremental.go: what the caches emit, against the assembly from scratch.
use mathlib.Core.List.{Permᴰ}
use mathlib.Core.List.Permᴰ as Perm
use lidapters.Common.{◌≡◌, refl, ◌∙◌, ap, Option, none, some, List, [], ◌∷◌, map, All}
use lidapters.Common.Str.{Str}
use lidapters.Common.Dict.{Dict, lookup, values, IsKeyed}
use lidapters.Common.Entries.{each, AllEntries, AllEntries-lookup, lookup-each}
use lidapters.Common.Sort.{IsStrict, All-perm, sort_slice-IsStrict, All-sort_slice}
use lidapters.Common.Strict.{gather, gather-Perm, gather-each, sort_slice-Perm, IsStrict-sort_slice}
use lidapters.Xdr.{Xdr}
use lidapters.Blend.Types.{UserReservePosition}
use lidapters.Blend.Order.{less_position, less_user, less_pending}
use lidapters.Blend.Reserves.{PoolBuilder, finalize_pool_reserves}
use lidapters.Blend.Reserves.Once.{asset_of, finalize_pool_reserves-once}
use lidapters.Blend.Reserves.Published.{finalize_pool_reserves_idem}
use lidapters.Blend.Positions.{Pending, pending_out, build_user_positions_for_pending}
use lidapters.Blend.Positions.Resolves.{placed_user, build_user_positions-placed}
use lidapters.Blend.Positions.Apart.{
  HasAssetsOnce, IsPositions, placed_user-OfUser, placed_user-IsDistinct,
}
use lidapters.Blend.Incremental.{
  UserEntry, Strategy, entry_for, finalize_pools, cached_pending, cached_users, rebuilt_pending,
  rebuilt_by, rebuilt_positions, rebuilt_users,
}
use lidapters.Blend.Incremental.Update.{block_by, compute_block-block_by}
use lidapters.Blend.Incremental.Refresh.{IsCached}
use lidapters.Blend.Incremental.Snapshot.{IsCached-Perm}
use lidapters.Blend.Incremental.Assembly.{
  less_position-IsOrder, less_user-IsOrder, less_pending-IsOrder, IsGood, blocks-IsStrict,
  outs-IsStrict,
}

-- A pool that is finalized and publishes each asset once.
abbrev pub Sound : Option PoolBuilder → Type 0
Sound none = Unit
Sound (some pool) = HasAssetsOnce pool.reserve_by_index × (finalize_pool_reserves pool ≡ pool)

-- The reserves of a pool are stored under their asset ids.
abbrev pub IsFiled : Str → PoolBuilder → Type 0
IsFiled id pool = IsKeyed asset_of pool.reserves

module _ (x : Xdr) where
  pub finalize_pools-Sound :
      (pools : Dict PoolBuilder) (id : Str)
      → AllEntries IsFiled pools
      → Sound (lookup id (finalize_pools x pools))
  unfolding finalize_pools
  finalize_pools-Sound pools id h =
      rw (lookup-each (λ i p. finalize_pool_reserves p) id pools) (sound (lookup id pools) refl)
    where
      sound :
          (o : Option PoolBuilder)
          → lookup id pools ≡ o
          → Sound (elim o [ none ↦ none | some p ↦ some (finalize_pool_reserves p) ])
      sound none e = tt
      sound (some p) e = (
        λ i j a. finalize_pool_reserves-once p i j a (AllEntries-lookup IsFiled id p pools h e),
        finalize_pool_reserves_idem p,
      )

  -- The positions in the order in which they are built.
  abbrev unsorted : Option PoolBuilder → Pending x → List UserReservePosition
  unsorted none p = []
  unsorted (some pool) p = placed_user x pool.reserve_by_index p

  rebuilt_positions-unsorted :
      (pools : Dict PoolBuilder) (p : Pending x)
      → Sound (lookup p.pool_contract pools)
      → rebuilt_positions x pools p ≡ unsorted (lookup p.pool_contract pools) p
  unfolding rebuilt_positions
  rebuilt_positions-unsorted pools p h = built (lookup p.pool_contract pools) h
    where
      built : (o : Option PoolBuilder) → Sound o → rebuilt_by x o p ≡ unsorted o p
      built none h = refl
      built (some pool) h =
          ap (λ (k : PoolBuilder). (build_user_positions_for_pending x k p none).positions) h.1
          ∙ build_user_positions-placed x pool p none

  block-Perm : (o : Option PoolBuilder) (p : Pending x) → Permᴰ (block_by x o p) (unsorted o p)
  block-Perm none p = Permᴰ.nil
  block-Perm (some pool) p = sort_slice-Perm less_position (placed_user x pool.reserve_by_index p)

  block-Of :
      (o : Option PoolBuilder) (p : Pending x)
      → All (λ u. (u.address ≡ p.user) × (u.pool_contract_id ≡ p.pool_contract)) (block_by x o p)
  block-Of none p = tt
  block-Of (some pool) p =
      All-sort_slice less_position
        (λ u. (u.address ≡ p.user) × (u.pool_contract_id ≡ p.pool_contract))
        (placed_user x pool.reserve_by_index p) (placed_user-OfUser x pool.reserve_by_index p)

  block_sorted :
      (o : Option PoolBuilder) (p : Pending x)
      → Sound o
      → IsPositions x p
      → IsStrict less_position (block_by x o p)
  block_sorted none p h i = tt
  block_sorted (some pool) p h i =
      sort_slice-IsStrict less_position less_position-IsOrder
        (placed_user x pool.reserve_by_index p)
        (placed_user-IsDistinct x pool.reserve_by_index p h.0 i)

  entry_for-IsGood :
      (pools : Dict PoolBuilder) (k : Str) (p : Pending x)
      → Sound (lookup p.pool_contract pools)
      → IsPositions x p
      → IsGood (entry_for x pools k p)
  unfolding entry_for pending_out
  entry_for-IsGood pools k p h i =
      let o = lookup p.pool_contract pools in
      let same = compute_block-block_by x pools p none in
      record {
        out_address = refl;
        out_pool = refl;
        owned = rw same (block-Of o p);
        sorted = rw same (block_sorted o p h i);
      }

  entries-IsGood :
      (pools : Dict PoolBuilder) (m : Dict (Pending x))
      → ((id : Str) → Sound (lookup id pools))
      → All (IsPositions x) (values m)
      → All IsGood (each (entry_for x pools) m)
  unfolding each
  entries-IsGood pools [] h i = tt
  entries-IsGood pools ((k, p) ∷ m) h i =
      (entry_for-IsGood pools k p (h p.pool_contract) i.0, entries-IsGood pools m h i.1)

  entries_out :
      (pools : Dict PoolBuilder) (m : Dict (Pending x))
      → map (λ e. e.out) (each (entry_for x pools) m) ≡ map pending_out (values m)
  unfolding each entry_for
  entries_out pools [] = refl
  entries_out pools ((k, p) ∷ m) = cc (entries_out pools m)

  entries_blocks :
      (pools : Dict PoolBuilder) (m : Dict (Pending x))
      → gather (λ e. e.block) (each (entry_for x pools) m)
        ≡ gather (λ p. block_by x (lookup p.pool_contract pools) p) (values m)
  unfolding each entry_for gather
  entries_blocks pools [] = refl
  entries_blocks pools ((k, p) ∷ m) =
      cc (compute_block-block_by x pools p none, entries_blocks pools m)

  -- With nothing dirty and the pools finalized, what the caches emit is what the assembly from
  -- scratch gives.
  module _ {pools : Dict PoolBuilder} {s : Strategy x} (c : IsCached x pools s) (d : s.dirty ≡ [])
      (sound : (id : Str) → Sound (lookup id pools)) where
    pub cached_pending-rebuilt_pending :
        All (IsPositions x) (values s.pending_pos) → cached_pending x s ≡ rebuilt_pending x s
    unfolding cached_pending rebuilt_pending
    cached_pending-rebuilt_pending i =
        let entries = IsCached-Perm x c d in
        let good =
          All-perm IsGood (Perm.symm entries) (entries-IsGood pools s.pending_pos sound i) in
        IsStrict-sort_slice less_pending less_pending-IsOrder (map (λ e. e.out) s.keys)
          (map pending_out (values s.pending_pos)) (outs-IsStrict s.keys good c.ordered.strict)
          (rw (← entries_out pools s.pending_pos) (Perm.map (λ (e : UserEntry). e.out) entries))

    pub cached_users-rebuilt_users :
        s.pools ≡ pools
        → All (IsPositions x) (values s.pending_pos)
        → cached_users x s ≡ rebuilt_users x s
    unfolding cached_users rebuilt_users
    cached_users-rebuilt_users q i =
        let entries = IsCached-Perm x c d in
        let good =
          All-perm IsGood (Perm.symm entries) (entries-IsGood pools s.pending_pos sound i) in
        let by = λ (p : Pending x). block_by x (lookup p.pool_contract pools) p in
        IsStrict-sort_slice less_user less_user-IsOrder (gather (λ e. e.block) s.keys)
          (gather (rebuilt_positions x s.pools) (values s.pending_pos))
          (blocks-IsStrict s.keys good c.ordered.strict)
          (Permᴰ.trans (gather-Perm (λ (e : UserEntry). e.block) entries) (
            rw (entries_blocks pools s.pending_pos, q)
              (gather-each by (rebuilt_positions x pools)
                (λ p.
                  rw (rebuilt_positions-unsorted pools p (sound p.pool_contract))
                    (block-Perm (lookup p.pool_contract pools) p))
                (values s.pending_pos))))
