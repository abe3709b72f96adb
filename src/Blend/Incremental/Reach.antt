-- ===== src/Blend/Incremental/Reach.antt =====
-- blend/state_incremental.go: the strategy from its first ledger on, and what it emits.
use mathlib.Core.Path.{fun_ext}
use lidapters.Common.{◌≡◌, refl, sym, ◌∙◌, ap, false, Option, none, some, List, [], ◌∷◌, All}
use lidapters.Common.Int.{ℤ}
use lidapters.Common.Str.{Str, eq_str}
use lidapters.Common.Dict.{Dict, lookup, values, IsKeyed, lookup-none-key}
use lidapters.Common.Entries.{each, NoKeyTwice, lookup-each, values-each, AllEntries}
use lidapters.Common.Sort.{Apart, IsDistinct, sort_slice-IsStrict}
use lidapters.Common.Strict.{sort_slice-Perm, All-map2}
use lidapters.Xdr.{Xdr}
use lidapters.Bindings.State.{ContractDataChange, DecodeDiagnostic}
use lidapters.Blend.Reserves.{PoolBuilder, finalize_pool_reserves}
use lidapters.Blend.Reserves.Once.{name_reserves_named}
use lidapters.Blend.Reserves.Published.{finalize_pool_reserves_idem}
use lidapters.Blend.Positions.{
  Pending, apply_positions, apply_delete_positions, build_user_positions_for_pending,
}
use lidapters.Blend.Positions.Apart.{IsPositions}
use lidapters.Blend.Incremental.{
  UserEntry, Strategy, writes_of, with_writes, user_entry_less, entry_for, reseed, finalize_pools,
  refresh, cached_pending, cached_users, rebuilt_pending, rebuilt_by, rebuilt_positions,
  rebuilt_users,
}
use lidapters.Blend.Incremental.Keys.{IsSigned, key_of, user_entry_less-IsOrder, Apart-composite}
use lidapters.Blend.Incremental.Update.{IsHeld}
use lidapters.Blend.Incremental.Refresh.{
  IsCached, Agree, HasOnce, finalize_pools-HasOnce, finalize_pools-NoKeyTwice,
}
use lidapters.Blend.Incremental.Snapshot.{refresh-IsCached, refresh_keeps, wanted_lem}
use lidapters.Blend.Incremental.Rebuilt.{
  IsFiled, finalize_pools-Sound, cached_pending-rebuilt_pending, cached_users-rebuilt_users,
}
use lidapters.Blend.Incremental.Applied.{
  NamesPlain, apply_positions-IsCached, apply_delete_positions-IsCached,
}

-- Entries with different keys are of different users or pools.
IsKeyed-IsDistinct :
    (m : Dict UserEntry)
    → IsKeyed key_of m
    → All IsSigned (values m)
    → IsDistinct user_entry_less (values m)
IsKeyed-IsDistinct [] h s = tt
IsKeyed-IsDistinct ((k, e) ∷ m) h s = (
  All-map2 IsSigned (λ d. eq_str d.composite e.composite ≡ false) (Apart user_entry_less e)
      (λ d g n. Apart-composite e d s.0 g n) (values m) s.1
      (rw h.0 (lookup-none-key key_of k m h.2 h.1)),
  IsKeyed-IsDistinct m h.2 s.1,
)

module _ (x : Xdr) where
  open x use {ScVal}

  -- A mirror as a load of a prior state leaves it, its pools to be finalized.
  pub record IsMirror (s : Strategy x) : Type 0 where
    pub held : AllEntries (IsHeld x) s.pending_pos
    pub once : NoKeyTwice s.pending_pos
    pub pools_once : NoKeyTwice s.pools
    pub filed : AllEntries IsFiled s.pools

  abbrev pub loaded : Strategy x → Strategy x
  loaded s = record s { pools = finalize_pools x s.pools }

  entries-IsKeyed :
      (pools : Dict PoolBuilder) (m : Dict (Pending x))
      → NoKeyTwice m
      → IsKeyed key_of (each (λ k p. (k, entry_for x pools k p)) m)
  unfolding each entry_for
  entries-IsKeyed pools [] h = tt
  entries-IsKeyed pools ((k, p) ∷ m) h =
      (refl, (lookup-each (entry_for x pools) k m ∙ simp h.0 refl), entries-IsKeyed pools m h.1)

  entries-IsSigned :
      (pools : Dict PoolBuilder) (m : Dict (Pending x))
      → AllEntries (IsHeld x) m
      → All IsSigned (each (entry_for x pools) m)
  unfolding each entry_for
  entries-IsSigned pools [] h = tt
  entries-IsSigned pools ((k, p) ∷ m) h = (h.0, entries-IsSigned pools m h.1)

  indexes-Agree :
      (o : Option PoolBuilder)
      → HasOnce o
      → Agree (elim o [ none ↦ none | some pool ↦ some pool.reserve_by_index ]) o
  indexes-Agree none h = tt
  indexes-Agree (some pool) h = (h, λ i. refl)

  -- `reseed` makes caches that stand for the mirror.
  reseed-IsCached :
      (s : Strategy x) → IsMirror s → IsCached x (finalize_pools x s.pools) (reseed x (loaded s))
  unfolding reseed
  reseed-IsCached s h =
      let pools = finalize_pools x s.pools in
      let keyed = entries-IsKeyed pools s.pending_pos h.once in
      let same = values-each (entry_for x pools) s.pending_pos in
      let signed = entries-IsSigned pools s.pending_pos h.held in
      record {
        ordered = record {
          keyed = keyed;
          signed = rw same signed;
          strict =
              sort_slice-IsStrict user_entry_less user_entry_less-IsOrder
                (each (entry_for x pools) s.pending_pos)
                (rw (← same) (
                  IsKeyed-IsDistinct (each (λ k p. (k, entry_for x pools k p)) s.pending_pos) keyed
                    (rw same signed)));
          same = rw same (sort_slice-Perm user_entry_less (each (entry_for x pools) s.pending_pos));
        };
        tracked = λ id.
            rw (lookup-each (λ i (p : PoolBuilder). p.reserve_by_index) id pools)
              (indexes-Agree (lookup id pools) (finalize_pools-HasOnce x id s.pools));
        current = λ k n. sym (wanted_lem x pools k s.pending_pos);
        named = tt;
        held = h.held;
        once = h.once;
        pools_once = finalize_pools-NoKeyTwice x s.pools h.pools_once;
      }

  -- What happens to the strategy: a live or a lapsed positions entry, whatever other changes do to
  -- the pools and a ledger's start to the scratch values, and the snapshot at a ledger's end.
  pub data Step : Strategy x → Strategy x → Type 0 where
    live :
        (s : Strategy x) (pool : Str) (args : List ScVal) (value : ScVal) (text : Str)
        → NamesPlain x args
        → Step s (with_writes x s (apply_positions x pool args value text (writes_of x s)))
    lapsed :
        (s : Strategy x) (c : ContractDataChange) (args : List ScVal) (seq : ℤ)
        → NamesPlain x args
        → Step s (with_writes x s (apply_delete_positions x c args seq (writes_of x s)))
    other :
        (s : Strategy x) (pools : Dict PoolBuilder) (seq : ℤ) (ds : List DecodeDiagnostic)
        → NoKeyTwice pools
        → AllEntries IsFiled pools
        → Step s (record s { pools = pools; ledger_seq = seq; diagnostics = ds })
    snapshot : (s : Strategy x) → Step s (refresh x s)

  pub data Reach : Strategy x → Type 0 where
    seeded : (s : Strategy x) → IsMirror s → Reach (reseed x (loaded s))
    next : {s t : Strategy x} → Reach s → Step s t → Reach t

  finalize-IsFiled :
      (id : Str) (p : PoolBuilder) → IsFiled id p → IsFiled id (finalize_pool_reserves p)
  unfolding finalize_pool_reserves
  finalize-IsFiled id p h = rw (name_reserves_named p.reserves h) h

  finalize_pools-IsFiled :
      (pools : Dict PoolBuilder)
      → AllEntries IsFiled pools
      → AllEntries IsFiled (finalize_pools x pools)
  unfolding finalize_pools each
  finalize_pools-IsFiled [] h = tt
  finalize_pools-IsFiled ((id, p) ∷ pools) h =
      (finalize-IsFiled id p h.0, finalize_pools-IsFiled pools h.1)

  -- What holds of every reachable strategy: its caches stand for the pools of some earlier time.
  record IsSound (s : Strategy x) : Type 0 where
    old : Dict PoolBuilder
    cached : IsCached x old s
    filed : AllEntries IsFiled s.pools

  unfiled : (s : Strategy x) → IsMirror s → AllEntries IsFiled (reseed x (loaded s)).pools
  unfolding reseed
  unfiled s h = finalize_pools-IsFiled s.pools h.filed

  Step-IsSound : {s t : Strategy x} → Step s t → IsSound s → IsSound t
  Step-IsSound (live s pool args value text h) i = record {
    old = i.old;
    cached = apply_positions-IsCached x i.old s pool args value text h i.cached;
    filed = i.filed;
  }
  Step-IsSound (lapsed s c args seq h) i = record {
    old = i.old;
    cached = apply_delete_positions-IsCached x i.old s c args seq h i.cached;
    filed = i.filed;
  }
  Step-IsSound (other s pools seq ds once filed) i =
      let c = i.cached in
      record {
        old = i.old;
        cached = record {
          ordered = c.ordered;
          tracked = c.tracked;
          current = c.current;
          named = c.named;
          held = c.held;
          once = c.once;
          pools_once = once;
        };
        filed = filed;
      }
  Step-IsSound (snapshot s) i = record {
    old = finalize_pools x s.pools;
    cached = refresh-IsCached x i.cached;
    filed = rw (refresh_keeps x i.cached).1 (finalize_pools-IsFiled s.pools i.filed);
  }

  Reach-IsSound : {s : Strategy x} → Reach s → IsSound s
  Reach-IsSound (seeded s h) = record {
    old = finalize_pools x s.pools;
    cached = reseed-IsCached s h;
    filed = unfiled s h;
  }
  Reach-IsSound (next r st) = Step-IsSound st (Reach-IsSound r)

  -- The assembly from scratch finalizes the pools itself.
  finalized_twice :
      (o : Option PoolBuilder) (p : Pending x)
      → rebuilt_by x
          (let q : Option PoolBuilder = (elim o [
            | none ↦ none
            | some q ↦ some (finalize_pool_reserves q)
          ]) in
            q)
          p
        ≡ rebuilt_by x o p
  finalized_twice none p = refl
  finalized_twice (some q) p =
      ap (λ (k : PoolBuilder). (build_user_positions_for_pending x k p none).positions)
        (finalize_pool_reserves_idem q)

  rebuilt_positions_finalized :
      (pools : Dict PoolBuilder) (p : Pending x)
      → rebuilt_positions x (finalize_pools x pools) p ≡ rebuilt_positions x pools p
  unfolding rebuilt_positions finalize_pools
  rebuilt_positions_finalized pools p =
      ap (λ (o : Option PoolBuilder). rebuilt_by x o p)
        (lookup-each (λ i q. finalize_pool_reserves q) p.pool_contract pools)
      ∙ finalized_twice (lookup p.pool_contract pools) p

  rebuilt_users_finalized :
      (s t : Strategy x)
      → t.pending_pos ≡ s.pending_pos
      → t.pools ≡ finalize_pools x s.pools
      → rebuilt_users x t ≡ rebuilt_users x s
  unfolding rebuilt_users
  rebuilt_users_finalized s t e f = rw (e, f, fun_ext (rebuilt_positions_finalized s.pools)) refl

  rebuilt_pending_kept :
      (s t : Strategy x) → t.pending_pos ≡ s.pending_pos → rebuilt_pending x t ≡ rebuilt_pending x s
  unfolding rebuilt_pending
  rebuilt_pending_kept s t e = rw e refl

  -- Start from a loaded mirror, and let positions entries be written or lapse, other changes do to
  -- the pools what they like, and snapshots be taken, in any order and number. Then a snapshot emits
  -- from its caches exactly the pending entries and the user positions that the assembly from scratch
  -- gives for the same mirror. It is assumed that the users' addresses have no `|`, that the reserves
  -- of a pool are stored under their asset ids, that no key is twice in a map, and that each pending
  -- entry has no index twice in one of its three maps.
  pub Reach-refresh :
      {s : Strategy x}
      → Reach s
      → All (IsPositions x) (values s.pending_pos)
      → (cached_pending x (refresh x s) ≡ rebuilt_pending x s)
        × (cached_users x (refresh x s) ≡ rebuilt_users x s)
  Reach-refresh {s} r h =
      let i = Reach-IsSound r in
      let c = refresh-IsCached x i.cached in
      let (e, f, g) = refresh_keeps x i.cached in
      let sound = λ (id : Str). finalize_pools-Sound x s.pools id i.filed in
      let entries : All (IsPositions x) (values (refresh x s).pending_pos) = rw e h in
      (
        cached_pending-rebuilt_pending x c g sound entries ∙ rebuilt_pending_kept s (refresh x s) e,
        cached_users-rebuilt_users x c g sound f entries
            ∙ rebuilt_users_finalized s (refresh x s) e f,
      )
