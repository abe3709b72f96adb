-- ===== src/Blend/Incremental/Snapshot.antt =====
-- blend/state_incremental.go, `snapshot` and `reseed`: that the caches stand for the mirror.
use mathlib.Core.List.{Permᴰ}
use lidapters.Common.{◌≡◌, refl, sym, ◌∙◌, Option, none, some, [], ◌∷◌}
use lidapters.Common.Str.{Str}
use lidapters.Common.Dict.{Dict, lookup, IsKeyed}
use lidapters.Common.IntDict.{IntDict}
use lidapters.Common.Entries.{
  each, NoKeyTwice, NoKeyTwice-Perm, each-NoKeyTwice, lookup-each, values-each, values-Perm,
}
use lidapters.Xdr.{Xdr}
use lidapters.Blend.Reserves.{PoolBuilder}
use lidapters.Blend.Positions.{Pending}
use lidapters.Blend.Incremental.{
  UserEntry, Strategy, track, mark_changed, entry_for, finalize_pools, refresh,
}
use lidapters.Blend.Incremental.Keys.{key_of, keys_signed}
use lidapters.Blend.Incremental.Track.{track-lookup}
use lidapters.Blend.Incremental.Marked.{mark_changed-IsNamed}
use lidapters.Blend.Incremental.Update.{wanted, update_dirty-IsUpToDate}
use lidapters.Blend.Incremental.Refresh.{
  IsCached, Agree, kept_map, kept-Agree, finalize_pools-HasOnce, now, now_once, awaits,
}

keyed_once : (m : Dict UserEntry) → IsKeyed key_of m → NoKeyTwice m
keyed_once [] h = tt
keyed_once ((k, e) ∷ m) h = (h.1, keyed_once m h.2)

kept_lem :
    (previous : Option (IntDict Str)) (o : Option PoolBuilder)
    → elim o [ none ↦ none | some pool ↦ kept_map previous (some pool) ] ≡ kept_map previous o
kept_lem previous none = refl
kept_lem previous (some pool) = refl

module _ (x : Xdr) where
  module _ {old : Dict PoolBuilder} {s : Strategy x} (c : IsCached x old s) where
    abbrev tracked_now : Dict (IntDict Str)
    tracked_now = (track (now x c) s.pool_indexes).indexes

    Agree-tracked_now : (id : Str) → Agree (lookup id tracked_now) (lookup id (now x c))
    Agree-tracked_now id =
        let (f, g) = track-lookup id (now x c) s.pool_indexes (now_once x c) in
        let id_now = lookup id (now x c) in
        let before = lookup id s.pool_indexes in
        rw (f ∙ kept_lem before id_now) (
          kept-Agree before (lookup id old) id_now (c.tracked id)
            (finalize_pools-HasOnce x id s.pools))

    -- After `snapshot`, the caches stand for the pools as they are now, and nothing is dirty.
    pub refresh-IsCached : IsCached x (finalize_pools x s.pools) (refresh x s)
    unfolding refresh lookup
    refresh-IsCached =
        let t = track (now x c) s.pool_indexes in
        let dirty = mark_changed t.changed s.keys s.dirty in
        let start : Strategy x = record s { pools = now x c; pool_indexes = t.indexes } in
        let u =
          update_dirty-IsUpToDate x dirty start
            (mark_changed-IsNamed t.changed s.keys s.dirty (keys_signed c.ordered) c.named) c.held
            c.ordered (awaits x c) in
        record {
          ordered = u.ordered;
          tracked = λ id. rw u.indexes_kept (Agree-tracked_now id);
          current = λ k n. rw u.pending_kept (u.entries k);
          named = tt;
          held = rw u.pending_kept c.held;
          once = rw u.pending_kept c.once;
          pools_once = rw u.pools_kept (now_once x c);
        }

    -- What the mirror has for the pending entries and the pools stays.
    pub refresh_keeps :
        ((refresh x s).pending_pos ≡ s.pending_pos)
        × ((refresh x s).pools ≡ finalize_pools x s.pools)
        × ((refresh x s).dirty ≡ [])
    unfolding refresh
    refresh_keeps =
        let t = track (now x c) s.pool_indexes in
        let dirty = mark_changed t.changed s.keys s.dirty in
        let start : Strategy x = record s { pools = now x c; pool_indexes = t.indexes } in
        let u =
          update_dirty-IsUpToDate x dirty start
            (mark_changed-IsNamed t.changed s.keys s.dirty (keys_signed c.ordered) c.named) c.held
            c.ordered (awaits x c) in
        (u.pending_kept, u.pools_kept, refl)

  wanted_cases :
      (pools : Dict PoolBuilder) (k : Str) (o : Option (Pending x))
      → wanted x pools k o ≡ elim o [ none ↦ none | some p ↦ some (entry_for x pools k p) ]
  wanted_cases pools k none = refl
  wanted_cases pools k (some p) = refl

  pub wanted_lem :
      (pools : Dict PoolBuilder) (k : Str) (m : Dict (Pending x))
      → wanted x pools k (lookup k m) ≡ lookup k (each (λ j p. (j, entry_for x pools j p)) m)
  wanted_lem pools k m =
      wanted_cases pools k (lookup k m) ∙ sym (lookup-each (entry_for x pools) k m)

  -- With nothing dirty, the sorted entries are those made from the pending entries.
  pub IsCached-Perm :
      {pools : Dict PoolBuilder} {s : Strategy x}
      → IsCached x pools s
      → s.dirty ≡ []
      → Permᴰ s.keys (each (entry_for x pools) s.pending_pos)
  unfolding lookup
  IsCached-Perm {pools} {s} c d =
      let f = entry_for x pools in
      let same : (k : Str) → lookup k s.index ≡ lookup k (each (λ j p. (j, f j p)) s.pending_pos) =
        λ k. c.current k (rw d refl) ∙ (wanted_lem pools k s.pending_pos) in
      Permᴰ.trans c.ordered.same (
        rw (← values-each f s.pending_pos) (
          values-Perm (
            NoKeyTwice-Perm s.index (each (λ j p. (j, f j p)) s.pending_pos)
              (keyed_once s.index c.ordered.keyed) (each-NoKeyTwice f s.pending_pos c.once) same)))
