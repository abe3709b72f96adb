-- ===== src/Soroswap/State/Dirty.antt =====
-- soroswap/state.go, `DecodeState`: the dirty positions that a call reports.
use lidapters.Common.{
  ◌≡◌, refl, ◌∙◌, ap, true, false, Option, List, [], ◌∷◌, ◌++◌, arith, All, All-append,
  All-append_inv, is_some,
}
use lidapters.Common.Int.{ℤ}
use lidapters.Common.Str.{Str, lit, eq_str, eq_str_refl}
use lidapters.Common.Sort.{All-sort_slice, All-sort_slice_inv, All-map}
use lidapters.Common.Dict.{Dict, lookup, insert, lookup-insert, lookup-index_by}
use lidapters.Xdr.{Xdr}
use lidapters.Bindings.State.{
  AmmPositionState, LedgerState, ContractDataChange, DirtyPosition, upsert, removal,
}
use lidapters.Soroswap.Config.{Adapter}
use lidapters.Soroswap.Values.{position_key, clone_state}
use lidapters.Soroswap.State.{
  Work, renewed, closed_out, upsert_position, tombstone_position, less_dirty, discover_all,
  start_work, decode_state,
}
use lidapters.Soroswap.State.Keyed.{final_work}
use lidapters.Soroswap.State.Keeps.{reduce_all-Keeps}
use lidapters.Soroswap.State.Lifecycle.{position_at, position_at-next, next_state}

-- The key of the position that an entry of the dirty list names.
abbrev pub dirty_key : DirtyPosition → Str
dirty_key d = d.pool_contract_id ++ (lit "|" ++ d.address)

-- No entry of the list names the position at `k`.
abbrev pub IsClean : Str → List DirtyPosition → Type 0
IsClean k l = All (λ d. eq_str (dirty_key d) k ≡ false) l

module _ (k : Str) (before : Option AmmPositionState) where
  abbrev IsUntouched : Work → Type 0
  IsUntouched w = IsClean k w.dirty → lookup k w.positions ≡ before

  report-IsUntouched :
      (d : DirtyPosition) (p : AmmPositionState) (w : Work)
      → IsUntouched w
      → IsClean k (w.dirty ++ d ∷ [])
      → lookup k (insert (dirty_key d) p w.positions) ≡ before
  report-IsUntouched d p w h c =
      let (old, new) =
        All-append_inv (λ (e : DirtyPosition). eq_str (dirty_key e) k ≡ false) w.dirty (d ∷ []) c in
      lookup-insert (dirty_key d) k p w.positions ∙ rw new.0 (h old)

  upsert_position-IsUntouched :
      (pair holder shares : Str) (w : Work)
      → IsUntouched w
      → IsUntouched (upsert_position pair holder shares w)
  unfolding upsert_position position_key
  upsert_position-IsUntouched pair holder shares w h =
      report-IsUntouched (record { address = holder; pool_contract_id = pair; kind = upsert })
        (renewed pair holder shares w.positions) w h

  tombstone_position-IsUntouched :
      (pair holder : Str) (w : Work)
      → IsUntouched w
      → IsUntouched (tombstone_position pair holder w)
  unfolding tombstone_position position_key
  tombstone_position-IsUntouched pair holder w h =
      report-IsUntouched (record { address = holder; pool_contract_id = pair; kind = removal })
        (closed_out pair holder w.positions) w h

abbrev IsReported : Work → Type 0
IsReported w = All (λ d. is_some (lookup (dirty_key d) w.positions) ≡ true) w.dirty

insert_some :
    (k j : Str) (p : AmmPositionState) (m : Dict AmmPositionState)
    → is_some (lookup j m) ≡ true
    → is_some (lookup j (insert k p m)) ≡ true
insert_some k j p m h = rw (lookup-insert k j p m) (ground arith)

report-IsReported :
    (d : DirtyPosition) (p : AmmPositionState) (w : Work)
    → IsReported w
    → All
        (λ e. is_some (lookup (dirty_key e) (insert (dirty_key d) p w.positions)) ≡ true)
        (w.dirty ++ d ∷ [])
report-IsReported d p w h =
    let m = insert (dirty_key d) p w.positions in
    All-append (λ (e : DirtyPosition). is_some (lookup (dirty_key e) m) ≡ true) w.dirty (d ∷ [])
      (All-map (λ (e : DirtyPosition). is_some (lookup (dirty_key e) w.positions) ≡ true)
        (λ (e : DirtyPosition). is_some (lookup (dirty_key e) m) ≡ true)
        (λ e. insert_some (dirty_key d) (dirty_key e) p w.positions) w.dirty h)
      (
        rw (lookup-insert (dirty_key d) (dirty_key d) p w.positions, eq_str_refl (dirty_key d))
            refl,
        tt,
      )

upsert_position-IsReported :
    (pair holder shares : Str) (w : Work)
    → IsReported w
    → IsReported (upsert_position pair holder shares w)
unfolding upsert_position position_key
upsert_position-IsReported pair holder shares w h =
    report-IsReported (record { address = holder; pool_contract_id = pair; kind = upsert })
      (renewed pair holder shares w.positions) w h

tombstone_position-IsReported :
    (pair holder : Str) (w : Work) → IsReported w → IsReported (tombstone_position pair holder w)
unfolding tombstone_position position_key
tombstone_position-IsReported pair holder w h =
    report-IsReported (record { address = holder; pool_contract_id = pair; kind = removal })
      (closed_out pair holder w.positions) w h

module _ (x : Xdr) (a : Adapter) (prior : Option LedgerState) (changes : List ContractDataChange)
    (seq : ℤ) where
  -- A position that no entry of the dirty list names is in the next state what it was in the prior
  -- one, there or not: the dirty list misses no change.
  pub decode_state_clean :
      (k : Str)
      → IsClean k (decode_state x a prior changes seq).0.dirty
      → position_at (next_state x a prior changes seq) k ≡ position_at (clone_state prior) k
  unfolding decode_state
  decode_state_clean k c =
      let s = clone_state prior in
      let before = lookup k (start_work s).positions in
      let w = final_work x a prior changes in
      let u : IsUntouched k before w =
        reduce_all-Keeps x (discover_all x (record a { dirty = [] }) changes) (IsUntouched k before)
          (upsert_position-IsUntouched k before) (tombstone_position-IsUntouched k before)
          (λ w pools assets h. h) changes (start_work s) (λ _. refl) in
      position_at-next x a prior changes seq k
      ∙ u (
          All-sort_slice_inv less_dirty (λ (e : DirtyPosition). eq_str (dirty_key e) k ≡ false)
            w.dirty c)
      ∙ lookup-index_by position_key k s.amm_positions

  -- Every entry of the dirty list names a position that the next state holds, a closed one too.
  pub decode_state_reported :
      All
        (λ d. is_some (position_at (next_state x a prior changes seq) (dirty_key d)) ≡ true)
        (decode_state x a prior changes seq).0.dirty
  unfolding decode_state
  decode_state_reported =
      let w = final_work x a prior changes in
      let next = next_state x a prior changes seq in
      let r : IsReported w =
        reduce_all-Keeps x (discover_all x (record a { dirty = [] }) changes) IsReported
          upsert_position-IsReported tombstone_position-IsReported (λ w pools assets h. h) changes
          (start_work (clone_state prior)) tt in
      All-sort_slice less_dirty
        (λ (d : DirtyPosition). is_some (position_at next (dirty_key d)) ≡ true) w.dirty
        (All-map (λ (d : DirtyPosition). is_some (lookup (dirty_key d) w.positions) ≡ true)
          (λ (d : DirtyPosition). is_some (position_at next (dirty_key d)) ≡ true)
          (λ d e. ap is_some (position_at-next x a prior changes seq (dirty_key d)) ∙ e) w.dirty r)
