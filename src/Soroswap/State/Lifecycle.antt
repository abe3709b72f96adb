-- ===== src/Soroswap/State/Lifecycle.antt =====
-- soroswap/state.go, `DecodeState`: the life of an LP position over a call.
use lidapters.Common.{
  ◌≡◌, refl, ap, ◌∙◌, Bool, true, false, Option, none, List, [], ◌∷◌, arith, Bool-cases, inl, inr,
  All,
}
use lidapters.Common.Int.{ℤ}
use lidapters.Common.Str.{Str, lit, eq_str, eq_str_iff}
use lidapters.Common.Dict.{
  Dict, lookup, insert, lookup-insert, find_by, find_by-collect, lookup-index_by,
}
use lidapters.Common.Sort.{sort_slice}
use lidapters.Xdr.{Xdr}
use lidapters.Bindings.State.{AmmPoolState, AmmPositionState, LedgerState, ContractDataChange}
use lidapters.Soroswap.Config.{Adapter}
use lidapters.Soroswap.Values.{position_key, clone_state}
use lidapters.Soroswap.State.{
  Work, had, new_position, current_had_shares, upsert_position, tombstone_position, renewed,
  closed_out, less_dirty, removed_write, asset_write, pair_write, reduce, reduce_all, discover_all,
  start_work, decode_state,
}
use lidapters.Soroswap.State.Keyed.{pool_key, final_work, final_work-IsIndexed}
use lidapters.Soroswap.State.Keeps.{reduce_all-Keeps}

-- The position of a state at a key, and whether that position is known to have held shares.
abbrev pub position_at : LedgerState → Str → Option AmmPositionState
position_at s k = find_by position_key k s.amm_positions

abbrev pub pool_at : LedgerState → Str → Option AmmPoolState
pool_at s id = find_by pool_key id s.amm_pools

abbrev pub held_at : LedgerState → Str → Bool
held_at s k = had (position_at s k)

abbrev pub next_state :
    Xdr → Adapter → Option LedgerState → List ContractDataChange → ℤ → LedgerState
next_state x a prior changes seq = (decode_state x a prior changes seq).1

-- The next state answers as the maps of the work answer.
pub position_at-next :
    (x : Xdr) (a : Adapter) (prior : Option LedgerState) (changes : List ContractDataChange)
    (seq : ℤ) (k : Str)
    → position_at (next_state x a prior changes seq) k
      ≡ lookup k (final_work x a prior changes).positions
unfolding decode_state
position_at-next x a prior changes seq k =
    find_by-collect position_key k _ (final_work-IsIndexed x a prior changes).positions

pub pool_at-next :
    (x : Xdr) (a : Adapter) (prior : Option LedgerState) (changes : List ContractDataChange)
    (seq : ℤ) (id : Str)
    → pool_at (next_state x a prior changes seq) id ≡ lookup id (final_work x a prior changes).pools
unfolding decode_state
pool_at-next x a prior changes seq id =
    find_by-collect pool_key id _ (final_work-IsIndexed x a prior changes).pools

module _ (k : Str) where
  abbrev IsHeld : Work → Type 0
  IsHeld w = current_had_shares w.positions k ≡ true

  insert-IsHeld :
      (key : Str) (p : AmmPositionState) (m : Dict AmmPositionState)
      → (had (lookup key m) ≡ true → p.had_shares ≡ true)
      → had (lookup k m) ≡ true
      → had (lookup k (insert key p m)) ≡ true
  insert-IsHeld key p m f h = ap had (lookup-insert key k p m) ∙ elim (Bool-cases (eq_str key k)) [
    | inl e ↦ rw e (f (rw ((eq_str_iff key k).0 e) h))
    | inr e ↦ rw e h
  ]

  upsert_position-IsHeld :
      (pair holder shares : Str) (w : Work)
      → IsHeld w
      → IsHeld (upsert_position pair holder shares w)
  unfolding upsert_position renewed
  upsert_position-IsHeld pair holder shares w h =
      insert-IsHeld (position_key (new_position pair holder shares))
        (renewed pair holder shares w.positions) w.positions (λ e. ground arith) h

  tombstone_position-IsHeld :
      (pair holder : Str) (w : Work) → IsHeld w → IsHeld (tombstone_position pair holder w)
  unfolding tombstone_position closed_out
  tombstone_position-IsHeld pair holder w h =
      insert-IsHeld (position_key (new_position pair holder (lit "0")))
        (closed_out pair holder w.positions) w.positions (λ e. e) h

held-start :
    (s : LedgerState) (k : Str) → current_had_shares (start_work s).positions k ≡ held_at s k
held-start s k = ap had (lookup-index_by position_key k s.amm_positions)

-- Once a position is known to have held shares it stays in the state and stays so, whatever
-- changes come in: `HadShares` never flips back.
pub decode_state_keeps_had_shares :
    (x : Xdr) (a : Adapter) (prior : Option LedgerState) (changes : List ContractDataChange)
    (seq : ℤ) (k : Str)
    → held_at (clone_state prior) k ≡ true
    → held_at (next_state x a prior changes seq) k ≡ true
decode_state_keeps_had_shares x a prior changes seq k h =
    ap had (position_at-next x a prior changes seq k)
    ∙ (reduce_all-Keeps x (discover_all x (record a { dirty = [] }) changes) (IsHeld k)
        (upsert_position-IsHeld k) (tombstone_position-IsHeld k) (λ w pools assets p. p) changes
        (start_work (clone_state prior)) (held-start (clone_state prior) k ∙ h))

-- A change that is no write: the entry has no value, and its removal is not reported. This is what
-- a TTL lapse or an eviction looks like.
abbrev pub IsArchival : ContractDataChange → Type 0
IsArchival c = (c.value_xdr ≡ none) × (eq_str c.change_type (lit "Removed") ≡ false)

reduce_archival :
    (x : Xdr) (a : Adapter) (w : Work) (c : ContractDataChange) → IsArchival c → reduce x a w c ≡ w
unfolding reduce pair_write removed_write asset_write
reduce_archival x a w c (e, t) = ground arith

reduce_all_archival :
    (x : Xdr) (a : Adapter) (w : Work) (cs : List ContractDataChange)
    → All IsArchival cs
    → reduce_all x a w cs ≡ w
unfolding reduce_all
reduce_all_archival x a w [] h = refl
reduce_all_archival x a w (c ∷ cs) h =
    rw (reduce_archival x a w c h.0) (reduce_all_archival x a w cs h.1)

-- A ledger in which entries are only archived leaves every pool and every position as they were,
-- the assets too, and reports nothing dirty.
pub decode_state_archival :
    (x : Xdr) (a : Adapter) (prior : Option LedgerState) (changes : List ContractDataChange)
    (seq : ℤ)
    → All IsArchival changes
    → let s = clone_state prior in
      let (a', next) = decode_state x a prior changes seq in
      ((k : Str) → position_at next k ≡ position_at s k)
      × ((id : Str) → pool_at next id ≡ pool_at s id)
      × (next.amm_assets ≡ s.amm_assets)
      × (a'.dirty ≡ [])
decode_state_archival x a prior changes seq h =
    let s = clone_state prior in
    let a' = discover_all x (record a { dirty = [] }) changes in
    let same : final_work x a prior changes ≡ start_work s =
      reduce_all_archival x a' (start_work s) changes h in
    (
      λ k.
          position_at-next x a prior changes seq k
          ∙ ap (λ (w : Work). lookup k w.positions) same
          ∙ lookup-index_by position_key k s.amm_positions,
      λ id.
          pool_at-next x a prior changes seq id
          ∙ ap (λ (w : Work). lookup id w.pools) same
          ∙ lookup-index_by pool_key id s.amm_pools,
      unfold decode_state in ap (λ (w : Work). w.amm_assets) same,
      unfold decode_state sort_slice in ap (λ (w : Work). sort_slice less_dirty w.dirty) same,
    )
