-- ===== src/Blend/Incremental/Track.antt =====
-- blend/state_incremental.go: the pools whose mapping changed since the last snapshot.
use lidapters.Common.{
  ◌≡◌, refl, inl, inr, Bool, true, false, ◌||◌, Option, none, some, [], ◌∷◌, arith, if◌then◌else◌,
  Bool-cases,
}
use lidapters.Common.Str.{Str, eq_str, eq_str_iff}
use lidapters.Common.Dict.{Dict, mem, lookup, mem-add, lookup-insert, lookup-delete}
use lidapters.Common.Entries.{NoKeyTwice}
use lidapters.Common.IntDict.{IntDict}
use lidapters.Blend.Reserves.{PoolBuilder}
use lidapters.Blend.Incremental.{
  Tracked, is_changed, track_pool, track_pools, forget_pool, forget_pools, track,
}

abbrev Mapped : Type 0
Mapped = Option (IntDict Str)

-- The mapping that is kept for a pool, given the one before.
abbrev kept : Mapped → Option PoolBuilder → Mapped
kept previous none = previous
kept previous (some pool) =
    if is_changed previous pool.reserve_by_index then some pool.reserve_by_index else previous

abbrev marks : Mapped → Option PoolBuilder → Bool
marks previous none = false
marks previous (some pool) = is_changed previous pool.reserve_by_index

track_pool-lookup :
    (id k : Str) (pool : PoolBuilder) (t : Tracked)
    → (lookup k (track_pool id pool t).indexes
        ≡ (if eq_str id k then kept (lookup k t.indexes) (some pool) else lookup k t.indexes))
      × (mem k (track_pool id pool t).changed ≡ (
          (if eq_str id k then marks (lookup k t.indexes) (some pool) else false)
          || mem k t.changed))
unfolding track_pool
track_pool-lookup id k pool t = ground (
  arith,
  eq_str_iff id k,
  lookup-insert id k pool.reserve_by_index t.indexes,
  mem-add id k t.changed,
)

track_pools-lookup :
    (k : Str) (pools : Dict PoolBuilder) (t : Tracked)
    → NoKeyTwice pools
    → (lookup k (track_pools pools t).indexes ≡ kept (lookup k t.indexes) (lookup k pools))
      × (mem k (track_pools pools t).changed
          ≡ (marks (lookup k t.indexes) (lookup k pools) || mem k t.changed))
unfolding track_pools lookup
track_pools-lookup k [] t h = (refl, refl)
track_pools-lookup k ((id, pool) ∷ pools) t h =
    let (f, g) = track_pools-lookup k pools (track_pool id pool t) h.1 in
    let (u, v) = track_pool-lookup id k pool t in
    elim (Bool-cases (eq_str id k)) [
      | inl e ↦
          let none_left : lookup k pools ≡ none = rw (← (eq_str_iff id k).0 e) h.0 in
          simp (e, f, g, none_left, u, v) (refl, refl)
      | inr e ↦ simp (e, f, g, u, v) (refl, refl)
    ]

-- Whether a mapping is kept for a pool that is no longer there.
abbrev lost : Mapped → Option PoolBuilder → Bool
lost (some m) none = true
lost _ _ = false

forget_pool-lookup :
    (pools : Dict PoolBuilder) (id k : Str) (t : Tracked)
    → (lookup k (forget_pool pools id t).indexes ≡ elim (lookup id pools) [
      | some pool ↦ lookup k t.indexes
      | none ↦ if eq_str id k then none else lookup k t.indexes
    ])
      × (mem k (forget_pool pools id t).changed ≡ elim (lookup id pools) [
        | some pool ↦ mem k t.changed
        | none ↦ if eq_str id k then true else mem k t.changed
      ])
unfolding forget_pool
forget_pool-lookup pools id k t =
    ground (arith, lookup-delete id k t.indexes, mem-add id k t.changed)

forget_pools-lookup :
    (pools : Dict PoolBuilder) (k : Str) (ms : Dict (IntDict Str)) (t : Tracked)
    → (lookup k (forget_pools pools ms t).indexes
        ≡ (if lost (lookup k ms) (lookup k pools) then none else lookup k t.indexes))
      × (mem k (forget_pools pools ms t).changed
          ≡ (lost (lookup k ms) (lookup k pools) || mem k t.changed))
unfolding forget_pools lookup
forget_pools-lookup pools k [] t = (refl, refl)
forget_pools-lookup pools k ((id, m) ∷ ms) t =
    let (f, g) = forget_pools-lookup pools k ms (forget_pool pools id t) in
    let (u, v) = forget_pool-lookup pools id k t in
    let same = eq_str_iff id k in ground (arith, f, g, u, v, same)

-- How the mapping that is kept for a pool, and the mark, come from the mapping before.
pub track-lookup :
    (k : Str) (pools : Dict PoolBuilder) (indexes : Dict (IntDict Str))
    → NoKeyTwice pools
    → (lookup k (track pools indexes).indexes
        ≡ elim (lookup k pools) [ none ↦ none | some pool ↦ kept (lookup k indexes) (some pool) ])
      × (mem k (track pools indexes).changed ≡ elim (lookup k pools) [
        | none ↦ elim (lookup k indexes) [ none ↦ false | some m ↦ true ]
        | some pool ↦ marks (lookup k indexes) (some pool)
      ])
unfolding track mem
track-lookup k pools indexes h =
    let start : Tracked = record { changed = []; indexes = indexes } in
    let t = track_pools pools start in
    let (f, g) = track_pools-lookup k pools start h in
    let (u, v) = forget_pools-lookup pools k t.indexes t in ground (arith, f, g, u, v)
