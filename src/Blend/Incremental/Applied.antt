-- ===== src/Blend/Incremental/Applied.antt =====
-- blend/state.go, the positions entries of `apply` and `applyDelete`: what the writes leave of the
-- caches.
use mathlib.Core.Path.{subst}
use lidapters.Common.{
  ◌≡◌, refl, ◌∙◌, inl, inr, false, Option, none, some, List, [], arith, Bool-cases, Option-cases,
}
use lidapters.Common.Int.{ℤ}
use lidapters.Common.Str.{Str, eq_str, eq_str_iff}
use lidapters.Common.Dict.{Dict, lookup, insert, delete, lookup-insert, lookup-delete}
use lidapters.Common.Entries.{
  insert-NoKeyTwice, delete-NoKeyTwice, insert-AllEntries, delete-AllEntries,
}
use lidapters.Xdr.{Xdr}
use lidapters.Bindings.State.{ContractDataChange}
use lidapters.Blend.Values.{variant_address, decode_sc_val_base64}
use lidapters.Blend.Reserves.{PoolBuilder}
use lidapters.Blend.Positions.{
  Pending, UserIdentity, Writes, typed_user_entity_key, mark, store, store_some, drop_pending,
  live_entry, apply_positions, is_explicit_on_chain_delete, archive, archived_entry,
  lapse_positions, apply_delete_positions,
}
use lidapters.Blend.Positions.Identity.{HasNoBar}
use lidapters.Blend.Incremental.{Strategy, writes_of, with_writes}
use lidapters.Blend.Incremental.Update.{IsNamed, IsHeld}
use lidapters.Blend.Incremental.Refresh.{IsCached}

module _ (x : Xdr) where
  open x use {ScVal}

  -- The caches as they stand, after the maps became those of `w`.
  abbrev Stands : Dict PoolBuilder → Strategy x → Writes x → Type 0
  Stands old s w = IsCached x old (with_writes x s w)

  abbrev identity : Str → Str → UserIdentity
  identity user pool = record { address = user; pool = pool }

  -- Marking a key, and changing the entry under a key that is marked.
  mark-Stands :
      (old : Dict PoolBuilder) (s : Strategy x) (w : Writes x) (user pool : Str)
      → HasNoBar user
      → Stands old s w
      → Stands old s (mark x user pool w)
  mark-Stands old s w user pool h c =
      let k = typed_user_entity_key user pool in
      record {
        ordered = c.ordered;
        tracked = c.tracked;
        current = λ j n.
            c.current j (ground (arith, lookup-insert k j (identity user pool) w.dirty_users, n));
        named =
            insert-AllEntries IsNamed k (identity user pool) w.dirty_users
              (record { key = refl; plain = h }) c.named;
        held = c.held;
        once = c.once;
        pools_once = c.pools_once;
      }

  store-Stands :
      (old : Dict PoolBuilder) (s : Strategy x) (w : Writes x) (p : Pending x) (i : UserIdentity)
      → HasNoBar p.user
      → lookup (typed_user_entity_key p.user p.pool_contract) w.dirty_users ≡ some i
      → Stands old s w
      → Stands old s (store x p w)
  unfolding store
  store-Stands old s w p i h m c =
      let k = typed_user_entity_key p.user p.pool_contract in
      record {
        ordered = c.ordered;
        tracked = c.tracked;
        current = λ j n.
            let other : eq_str k j ≡ false = ground (arith, m, n, eq_str_iff k j) in
            let same : lookup j (insert k p w.pending_pos) ≡ lookup j w.pending_pos =
              lookup-insert k j p w.pending_pos ∙ simp other refl in
            rw same (c.current j n);
        named = c.named;
        held =
            insert-AllEntries (IsHeld x) k p w.pending_pos (record { key = refl; plain = h })
              c.held;
        once = insert-NoKeyTwice k p w.pending_pos c.once;
        pools_once = c.pools_once;
      }

  drop_pending-Stands :
      (old : Dict PoolBuilder) (s : Strategy x) (w : Writes x) (k : Str) (i : UserIdentity)
      → lookup k w.dirty_users ≡ some i
      → Stands old s w
      → Stands old s (drop_pending x k w)
  drop_pending-Stands old s w k i m c = record {
    ordered = c.ordered;
    tracked = c.tracked;
    current = λ j n.
        let other : eq_str k j ≡ false = ground (arith, m, n, eq_str_iff k j) in
        let same : lookup j (delete k w.pending_pos) ≡ lookup j w.pending_pos =
          lookup-delete k j w.pending_pos ∙ simp other refl in
        rw same (c.current j n);
    named = c.named;
    held = delete-AllEntries (IsHeld x) k w.pending_pos c.held;
    once = delete-NoKeyTwice k w.pending_pos c.once;
    pools_once = c.pools_once;
  }

  marked :
      (user pool : Str) (w : Writes x)
      → lookup (typed_user_entity_key user pool) (mark x user pool w).dirty_users
        ≡ some (identity user pool)
  marked user pool w =
      let k = typed_user_entity_key user pool in
      lookup-insert k k (identity user pool) w.dirty_users ∙ simp ((eq_str_iff k k).1 refl) refl

  -- Marking a key and then storing the entry of it.
  mark-store-Stands :
      (old : Dict PoolBuilder) (s : Strategy x) (w : Writes x) (p : Pending x)
      → HasNoBar p.user
      → Stands old s w
      → Stands old s (store x p (mark x p.user p.pool_contract w))
  mark-store-Stands old s w p h c =
      store-Stands old s (mark x p.user p.pool_contract w) p (identity p.user p.pool_contract) h
        (marked p.user p.pool_contract w) (mark-Stands old s w p.user p.pool_contract h c)

  -- A user that an entry names has an address without `|`.
  abbrev pub NamesPlain : List ScVal → Type 0
  NamesPlain args = (user : Str) → variant_address x args ≡ some user → HasNoBar user

  apply_positions-Stands :
      (old : Dict PoolBuilder) (s : Strategy x) (w : Writes x) (pool : Str) (args : List ScVal)
      (value : ScVal) (text : Str)
      → NamesPlain args
      → Stands old s w
      → Stands old s (apply_positions x pool args value text w)
  unfolding apply_positions store
  apply_positions-Stands old s w pool args value text h c =
      elim (Option-cases (variant_address x args)) [
        | inl e ↦
            let same : w ≡ apply_positions x pool args value text w =
              simp (e, apply_positions) refl in
            subst (Stands old s) same c
        | inr (user, e) ↦
            let p : Pending x = live_entry x user pool value text in
            let same : store x p (mark x user pool w) ≡ apply_positions x pool args value text w =
              simp (e, apply_positions) refl in
            subst (Stands old s) same (mark-store-Stands old s w p (h user e) c)
      ]

  -- The case "Positions" of `apply` leaves the caches standing: what it changes, it marks.
  pub apply_positions-IsCached :
      (old : Dict PoolBuilder) (s : Strategy x) (pool : Str) (args : List ScVal) (value : ScVal)
      (text : Str)
      → NamesPlain args
      → IsCached x old s
      → IsCached x old (with_writes x s (apply_positions x pool args value text (writes_of x s)))
  apply_positions-IsCached old s pool args value text h c =
      apply_positions-Stands old s (writes_of x s) pool args value text h c

  -- The entry of a lapse is of its user and pool.
  IsOf : Str → Str → Option (Pending x) → Type 0
  IsOf user pool o = (p : Pending x) → o ≡ some p → (p.user ≡ user) × (p.pool_contract ≡ pool)

  some-IsOf :
      (user pool : Str) (seq : ℤ) (value : ScVal) (text : Str)
      → IsOf user pool (some (archive x user pool seq value text))
  unfolding IsOf
  some-IsOf user pool seq value text p e = (cc, cc)

  none-IsOf : (user pool : Str) → IsOf user pool none
  unfolding IsOf
  none-IsOf user pool p e = absurd (let bad : none ≡ some p = e in cc)

  archived_entry-IsOf :
      (user pool : Str) (seq : ℤ) (text : Option Str) (prior : Option (Pending x))
      → IsOf user pool (archived_entry x user pool seq text prior)
  unfolding archived_entry
  archived_entry-IsOf user pool seq none none = none-IsOf user pool
  archived_entry-IsOf user pool seq none (some old) =
      some-IsOf user pool seq old.positions old.value_xdr
  archived_entry-IsOf user pool seq (some text) prior = decoded (decode_sc_val_base64 x text) prior
    where
      decoded :
          (v : Option ScVal) (o : Option (Pending x))
          → IsOf user pool (elim v [
            | some value ↦ some (archive x user pool seq value text)
            | none ↦ elim o [
              | some old ↦ some (archive x user pool seq old.positions old.value_xdr)
              | none ↦ some (archive x user pool seq x.nil_val [])
            ]
          ])
      decoded (some value) o = some-IsOf user pool seq value text
      decoded none (some old) = some-IsOf user pool seq old.positions old.value_xdr
      decoded none none = some-IsOf user pool seq x.nil_val []

  store_some-Stands :
      (old : Dict PoolBuilder) (s : Strategy x) (w : Writes x) (user pool : Str)
      (o : Option (Pending x))
      → HasNoBar user
      → IsOf user pool o
      → Stands old s w
      → Stands old s (store_some x o (mark x user pool w))
  unfolding IsOf
  store_some-Stands old s w user pool none h f c = mark-Stands old s w user pool h c
  store_some-Stands old s w user pool (some p) h f c =
      let (a, b) = f p refl in
      subst (λ k. Stands old s (store x p (mark x k pool w))) a
        (subst (λ k. Stands old s (store x p (mark x p.user k w))) b
          (mark-store-Stands old s w p (rw a h) c))

  lapse_positions-Stands :
      (old : Dict PoolBuilder) (s : Strategy x) (w : Writes x) (c : ContractDataChange) (user : Str)
      (seq : ℤ)
      → HasNoBar user
      → Stands old s w
      → Stands old s (lapse_positions x c user seq w)
  unfolding lapse_positions
  lapse_positions-Stands old s w c user seq h st =
      let k = typed_user_entity_key user c.contract_id in
      let o = archived_entry x user c.contract_id seq c.value_xdr (lookup k w.pending_pos) in
      elim (Bool-cases (is_explicit_on_chain_delete x c.change_type)) [
        | inl e ↦
            let same : drop_pending x k (mark x user c.contract_id w)
                ≡ lapse_positions x c user seq w =
              simp e refl in
            subst (Stands old s) same (
              drop_pending-Stands old s (mark x user c.contract_id w) k
                (identity user c.contract_id) (marked user c.contract_id w)
                (mark-Stands old s w user c.contract_id h st))
        | inr e ↦
            let same : store_some x o (mark x user c.contract_id w)
                ≡ lapse_positions x c user seq w =
              simp e refl in
            subst (Stands old s) same (
              store_some-Stands old s w user c.contract_id o h
                (archived_entry-IsOf user c.contract_id seq c.value_xdr (lookup k w.pending_pos))
                st)
      ]

  -- The same for the case "Positions" of `applyDelete`.
  pub apply_delete_positions-IsCached :
      (old : Dict PoolBuilder) (s : Strategy x) (c : ContractDataChange) (args : List ScVal)
      (seq : ℤ)
      → NamesPlain args
      → IsCached x old s
      → IsCached x old (with_writes x s (apply_delete_positions x c args seq (writes_of x s)))
  unfolding apply_delete_positions
  apply_delete_positions-IsCached old s c args seq h st =
      elim (Option-cases (variant_address x args)) [
        | inl e ↦
            let same : writes_of x s ≡ apply_delete_positions x c args seq (writes_of x s) =
              simp (e, apply_delete_positions) refl in
            subst (Stands old s) same st
        | inr (user, e) ↦
            let same : lapse_positions x c user seq (writes_of x s)
                ≡ apply_delete_positions x c args seq (writes_of x s) =
              simp (e, apply_delete_positions) refl in
            subst (Stands old s) same
              (lapse_positions-Stands old s (writes_of x s) c user seq (h user e) st)
      ]
