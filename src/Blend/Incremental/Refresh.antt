-- ===== src/Blend/Incremental/Refresh.antt =====
-- blend/state_incremental.go, `snapshot`: the caches after it.
use lidapters.Common.{
  ◌≡◌, refl, sym, ◌∙◌, ap, inl, inr, Bool, true, false, Option, none, some, arith, if◌then◌else◌,
  Bool-cases, Option-cases,
}
use lidapters.Common.Str.{Str, eq_str_iff}
use lidapters.Common.Dict.{Dict, mem, lookup}
use lidapters.Common.IntDict.{IntDict, HasKeysOnce}
use lidapters.Common.Entries.{
  NoKeyTwice, each-NoKeyTwice, lookup-each, AllEntries, AllEntries-lookup, AllEntries-values,
}
use lidapters.Common.Sort.{sort_slice, All-perm}
use lidapters.Xdr.{Xdr}
use lidapters.Blend.Order.{less_position}
use lidapters.Blend.Reserves.{PoolBuilder, finalize_pool_reserves, reserve_index_equal}
use lidapters.Blend.Reserves.Equal.{
  Alike, reserve_index_equal-Alike, finalize_pool_reserves-HasKeysOnce,
}
use lidapters.Blend.Positions.{Pending}
use lidapters.Blend.Positions.Resolves.{placed_user-Alike}
use lidapters.Blend.Incremental.{
  Strategy, is_changed, track, mark_changed, entry_for, finalize_pools,
}
use lidapters.Blend.Incremental.Keys.{IsOrdered}
use lidapters.Blend.Incremental.Track.{track-lookup}
use lidapters.Blend.Incremental.Marked.{Unmoved, mark_changed-none}
use lidapters.Blend.Incremental.Update.{IsNamed, IsHeld, block_by, compute_block-block_by, wanted}

-- The mapping that is kept of a pool resolves as the pool does.
abbrev pub Agree : Option (IntDict Str) → Option PoolBuilder → Type 0
Agree none none = Unit
Agree (some m) (some pool) = HasKeysOnce m × Alike m pool.reserve_by_index
Agree _ _ = ⊥

-- Whether a pool that is there publishes an index once.
abbrev pub HasOnce : Option PoolBuilder → Type 0
HasOnce none = Unit
HasOnce (some pool) = HasKeysOnce pool.reserve_by_index

abbrev pub kept_map : Option (IntDict Str) → Option PoolBuilder → Option (IntDict Str)
kept_map previous none = none
kept_map previous (some pool) =
    if is_changed previous pool.reserve_by_index then some pool.reserve_by_index else previous

pub kept-Agree :
    (previous : Option (IntDict Str)) (old now : Option PoolBuilder)
    → Agree previous old
    → HasOnce now
    → Agree (kept_map previous now) now
kept-Agree previous old none a h = tt
kept-Agree none old (some pool) a h = (h, λ i. refl)
kept-Agree (some m) none (some pool) a h = absurd a
kept-Agree (some m) (some o) (some pool) a h =
    elim (Bool-cases (reserve_index_equal m pool.reserve_by_index)) [
      | inl e ↦ simp e (a.0, reserve_index_equal-Alike m pool.reserve_by_index a.0 h e)
      | inr e ↦ simp e (h, λ i. refl)
    ]

-- Whether the code takes a pool as changed.
abbrev moved : Option (IntDict Str) → Option PoolBuilder → Bool
moved none none = false
moved (some m) none = true
moved previous (some pool) = is_changed previous pool.reserve_by_index

module _ (x : Xdr) where
  -- A block of a pool that did not change.
  unmoved_block :
      (p : Pending x) (previous : Option (IntDict Str)) (old now : Option PoolBuilder)
      → Agree previous old
      → HasOnce now
      → moved previous now ≡ false
      → block_by x old p ≡ block_by x now p
  unmoved_block p none none none a h e = refl
  unmoved_block p none (some o) now a h e = absurd a
  unmoved_block p (some m) none now a h e = absurd a
  unmoved_block p (some m) (some o) none a h e = cc
  unmoved_block p none none (some pool) a h e = cc
  unmoved_block p (some m) (some o) (some pool) a h e =
      let equal : reserve_index_equal m pool.reserve_by_index ≡ true = ground arith in
      let alike : Alike o.reserve_by_index pool.reserve_by_index =
        λ i. sym (a.1 i) ∙ reserve_index_equal-Alike m pool.reserve_by_index a.0 h equal i in
      ap (sort_slice less_position)
        (placed_user-Alike x o.reserve_by_index pool.reserve_by_index p alike)

  -- The caches of a strategy, as they stand for the pools of its last snapshot: the entries under
  -- keys that are not dirty are those of the pending entries.
  pub record IsCached (old : Dict PoolBuilder) (s : Strategy x) : Type 0 where
    pub ordered : IsOrdered s.keys s.index
    pub tracked : (id : Str) → Agree (lookup id s.pool_indexes) (lookup id old)
    pub current :
        (k : Str)
        → lookup k s.dirty ≡ none
        → lookup k s.index ≡ wanted x old k (lookup k s.pending_pos)
    pub named : AllEntries IsNamed s.dirty
    pub held : AllEntries (IsHeld x) s.pending_pos
    pub once : NoKeyTwice s.pending_pos
    pub pools_once : NoKeyTwice s.pools

  entry_for_block :
      (a b : Dict PoolBuilder) (k : Str) (p : Pending x)
      → block_by x (lookup p.pool_contract a) p ≡ block_by x (lookup p.pool_contract b) p
      → entry_for x a k p ≡ entry_for x b k p
  unfolding entry_for
  entry_for_block a b k p h =
      cc (compute_block-block_by x a p none, compute_block-block_by x b p none, h)

  pub finalize_pools-HasOnce :
      (id : Str) (pools : Dict PoolBuilder) → HasOnce (lookup id (finalize_pools x pools))
  unfolding finalize_pools
  finalize_pools-HasOnce id pools =
      let f = λ (i : Str) (p : PoolBuilder). finalize_pool_reserves p in
      rw (lookup-each f id pools) (once (lookup id pools))
    where
      once :
          (o : Option PoolBuilder)
          → HasOnce (elim o [ none ↦ none | some p ↦ some (finalize_pool_reserves p) ])
      once none = tt
      once (some p) = finalize_pool_reserves-HasKeysOnce p

  pub finalize_pools-NoKeyTwice :
      (pools : Dict PoolBuilder) → NoKeyTwice pools → NoKeyTwice (finalize_pools x pools)
  unfolding finalize_pools
  finalize_pools-NoKeyTwice pools h = each-NoKeyTwice (λ i p. finalize_pool_reserves p) pools h

  moved_lem :
      (previous : Option (IntDict Str)) (now : Option PoolBuilder)
      → elim now [
        | none ↦ elim previous [ none ↦ false | some m ↦ true ]
        | some pool ↦ is_changed previous pool.reserve_by_index
      ]
        ≡ moved previous now
  moved_lem none none = refl
  moved_lem (some m) none = refl
  moved_lem none (some pool) = refl
  moved_lem (some m) (some pool) = refl

  module _ {old : Dict PoolBuilder} {s : Strategy x} (c : IsCached old s) where
    abbrev pub now : Dict PoolBuilder
    now = finalize_pools x s.pools

    pub now_once : NoKeyTwice now
    now_once = finalize_pools-NoKeyTwice s.pools c.pools_once

    -- An entry of a pool that is not marked is already the wanted one.
    unmarked_entry :
        (k : Str) (p : Pending x)
        → mem p.pool_contract (track now s.pool_indexes).changed ≡ false
        → entry_for x old k p ≡ entry_for x now k p
    unmarked_entry k p m =
        let id = p.pool_contract in
        let (f, g) = track-lookup id now s.pool_indexes now_once in
        let still : moved (lookup id s.pool_indexes) (lookup id now) ≡ false =
          sym (moved_lem (lookup id s.pool_indexes) (lookup id now)) ∙ (sym g ∙ m) in
        entry_for_block old now k p (
          unmoved_block p (lookup id s.pool_indexes) (lookup id old) (lookup id now) (c.tracked id)
            (finalize_pools-HasOnce id s.pools) still)

    pub awaits :
        (j : Str)
        → lookup j (mark_changed (track now s.pool_indexes).changed s.keys s.dirty) ≡ none
        → lookup j s.index ≡ wanted x now j (lookup j s.pending_pos)
    unfolding entry_for
    awaits j n =
        let changed = (track now s.pool_indexes).changed in
        let (f, g) = mark_changed-none changed j s.keys s.dirty n in
        let cur = c.current j f in
        elim (Option-cases (lookup j s.pending_pos)) [
          | inl e ↦ cur ∙ simp e refl
          | inr (p, e) ↦
              let here : lookup j s.index ≡ some (entry_for x old j p) = cur ∙ simp e refl in
              let u : Unmoved changed j (entry_for x old j p) =
                AllEntries-lookup (λ k d. Unmoved changed j d) j (entry_for x old j p) s.index
                  (AllEntries-values (Unmoved changed j) s.index
                    (All-perm (Unmoved changed j) c.ordered.same g))
                  here in
              let m : mem p.pool_contract changed ≡ false = u ((eq_str_iff j j).1 refl) in
              here ∙ simp e (ap some (unmarked_entry j p m))
        ]
