-- ===== src/Blend/Incremental/Update.antt =====
-- blend/state_incremental.go, the loop of `snapshot` over the dirty keys.
use mathlib.Core.Path.{subst}
use lidapters.Common.{
  ◌≡◌, refl, sym, ◌∙◌, ap, inl, inr, Option, none, some, List, [], ◌∷◌, if◌then◌else◌, Bool-cases,
  Option-cases,
}
use lidapters.Common.Int.{ℤ}
use lidapters.Common.Str.{Str, eq_str, eq_str_iff}
use lidapters.Common.Dict.{
  Dict, lookup, insert, delete, lookup-insert, lookup-delete, lookup-IsKeyed,
}
use lidapters.Common.Entries.{AllEntries, AllEntries-lookup, AllEntries-values}
use lidapters.Common.Sort.{sort_slice}
use lidapters.Xdr.{Xdr}
use lidapters.Blend.Types.{UserReservePosition}
use lidapters.Blend.Order.{less_position}
use lidapters.Blend.Reserves.{PoolBuilder}
use lidapters.Blend.Positions.{Pending, UserIdentity, pending_out}
use lidapters.Blend.Positions.Identity.{IsKeyOf, IsKeyOf-once}
use lidapters.Blend.Positions.Resolves.{placed_user, build_user_positions-placed}
use lidapters.Blend.Incremental.{
  UserEntry, Strategy, compute_block, entry_for, update_entry, update_dirty, insert_key,
  write_entry, remove_key,
}
use lidapters.Blend.Incremental.Keys.{IsSigned, key_of, IsOrdered}
use lidapters.Blend.Incremental.Moves.{
  insert_key-IsOrdered, write_entry-IsOrdered, remove_key-IsOrdered,
}

-- The identity of a dirty key is what the key is made of.
abbrev pub IsNamed : Str → UserIdentity → Type 0
IsNamed k i = IsKeyOf k i.address i.pool

module _ (x : Xdr) where
  abbrev pub IsHeld : Str → Pending x → Type 0
  IsHeld k p = IsKeyOf k p.user p.pool_contract

  -- The positions of a block, by the mapping of its pool.
  abbrev pub block_by : Option PoolBuilder → Pending x → List UserReservePosition
  block_by none p = []
  block_by (some pool) p = sort_slice less_position (placed_user x pool.reserve_by_index p)

  pub compute_block-block_by :
      (pools : Dict PoolBuilder) (p : Pending x) (sink : Option ℤ)
      → (compute_block x pools p sink).positions ≡ block_by (lookup p.pool_contract pools) p
  unfolding compute_block
  compute_block-block_by pools p sink = elim (Option-cases (lookup p.pool_contract pools)) [
    | inl e ↦ simp (e, compute_block) refl
    | inr (pool, e) ↦
        simp (e, compute_block)
          (ap (sort_slice less_position) (build_user_positions-placed x pool p sink))
  ]

  sink_apart :
      (pools : Dict PoolBuilder) (p : Pending x) (seq : ℤ)
      → (compute_block x pools p (some seq)).positions ≡ (compute_block x pools p none).positions
  sink_apart pools p seq =
      compute_block-block_by pools p (some seq) ∙ sym (compute_block-block_by pools p none)

  -- The entry that the cache should have for a pending one.
  abbrev pub wanted : Dict PoolBuilder → Str → Option (Pending x) → Option UserEntry
  wanted pools k none = none
  wanted pools k (some p) = some (entry_for x pools k p)

  -- What one step of the loop does.
  record IsUpdate (k : Str) (s t : Strategy x) : Type 0 where
    ordered : IsOrdered t.keys t.index
    entries :
        (j : Str)
        → lookup j t.index
          ≡ (if eq_str k j then wanted s.pools k (lookup k s.pending_pos) else lookup j s.index)
    pools_kept : t.pools ≡ s.pools
    pending_kept : t.pending_pos ≡ s.pending_pos
    indexes_kept : t.pool_indexes ≡ s.pool_indexes

  -- The entry that is written is the wanted one, if it is of the same user and pool.
  written_lem :
      (pools : Dict PoolBuilder) (k : Str) (p : Pending x) (e : UserEntry) (seq : ℤ)
      → e.address ≡ p.user
      → e.pool ≡ p.pool_contract
      → e.composite ≡ k
      → (let w : UserEntry = record e {
        out = pending_out p;
        block = (compute_block x pools p (some seq)).positions;
      } in
          w)
        ≡ entry_for x pools k p
  unfolding entry_for
  written_lem pools k p e seq a b c = cc (sink_apart pools p seq)

  made_lem :
      (pools : Dict PoolBuilder) (k : Str) (i : UserIdentity) (p : Pending x) (seq : ℤ)
      → i.address ≡ p.user
      → i.pool ≡ p.pool_contract
      → (let w : UserEntry = record {
        address = i.address;
        pool = i.pool;
        composite = k;
        out = pending_out p;
        block = (compute_block x pools p (some seq)).positions;
      } in
          w)
        ≡ entry_for x pools k p
  unfolding entry_for
  made_lem pools k i p seq a b = cc (sink_apart pools p seq)

  entries_insert :
      (k : Str) (s : Strategy x) (p : Pending x) (w : UserEntry)
      → w ≡ entry_for x s.pools k p
      → lookup k s.pending_pos ≡ some p
      → (j : Str)
      → lookup j (insert k w s.index)
        ≡ (if eq_str k j then wanted s.pools k (lookup k s.pending_pos) else lookup j s.index)
  entries_insert k s p w e f j = lookup-insert k j w s.index ∙ simp (f, e) refl

  update_entry-IsUpdate :
      (k : Str) (i : UserIdentity) (s : Strategy x) (op : Option (Pending x))
      (oe : Option UserEntry)
      → IsNamed k i
      → ((p : Pending x) → op ≡ some p → IsHeld k p)
      → IsOrdered s.keys s.index
      → lookup k s.pending_pos ≡ op
      → lookup k s.index ≡ oe
      → IsUpdate k s (update_entry x k i op oe s)
  unfolding update_entry entry_for
  update_entry-IsUpdate k i s (some p) (some e) n h o f g =
      let c : e.composite ≡ k = lookup-IsKeyed key_of k e s.index o.keyed g in
      let d : IsSigned e =
        AllEntries-lookup (λ k e. IsSigned e) k e s.index
          (AllEntries-values IsSigned s.index o.signed) g in
      let held : IsHeld k p = h p refl in
      let (a, b) =
        IsKeyOf-once k e.address p.user e.pool p.pool_contract
          (record { key = sym c ∙ d.key; plain = d.plain }) held in
      let same = written_lem s.pools k p e s.ledger_seq a b c in
      record {
        ordered =
            subst (λ w. IsOrdered (write_entry w s.keys) (insert k w s.index)) (sym same)
              (write_entry-IsOrdered o (entry_for x s.pools k p) e held g);
        entries = entries_insert k s p _ same f;
        pools_kept = refl;
        pending_kept = refl;
        indexes_kept = refl;
      }
  update_entry-IsUpdate k i s (some p) none n h o f g =
      let held : IsHeld k p = h p refl in
      let (a, b) = IsKeyOf-once k i.address p.user i.pool p.pool_contract n held in
      let same = made_lem s.pools k i p s.ledger_seq a b in
      record {
        ordered =
            subst (λ w. IsOrdered (insert_key w s.keys) (insert k w s.index)) (sym same)
              (insert_key-IsOrdered o (entry_for x s.pools k p) held g);
        entries = entries_insert k s p _ same f;
        pools_kept = refl;
        pending_kept = refl;
        indexes_kept = refl;
      }
  update_entry-IsUpdate k i s none (some e) n h o f g =
      let c : e.composite ≡ k = lookup-IsKeyed key_of k e s.index o.keyed g in
      let d : IsSigned e =
        AllEntries-lookup (λ k e. IsSigned e) k e s.index
          (AllEntries-values IsSigned s.index o.signed) g in
      record {
        ordered =
            subst (λ l. IsOrdered (remove_key e s.keys) (delete l s.index)) c
              (remove_key-IsOrdered o e d);
        entries = λ j. lookup-delete k j s.index ∙ simp f refl;
        pools_kept = refl;
        pending_kept = refl;
        indexes_kept = refl;
      }
  update_entry-IsUpdate k i s none none n h o f g = record {
    ordered = o;
    entries = λ j. elim (Bool-cases (eq_str k j)) [
      | inl e ↦ simp (e, f) (rw (← (eq_str_iff k j).0 e) g)
      | inr e ↦ simp e refl
    ];
    pools_kept = refl;
    pending_kept = refl;
    indexes_kept = refl;
  }

  -- What the loop does: the caches hold what is wanted for each key.
  pub record IsUpToDate (s t : Strategy x) : Type 0 where
    pub ordered : IsOrdered t.keys t.index
    pub entries : (j : Str) → lookup j t.index ≡ wanted s.pools j (lookup j s.pending_pos)
    pub pools_kept : t.pools ≡ s.pools
    pub pending_kept : t.pending_pos ≡ s.pending_pos
    pub indexes_kept : t.pool_indexes ≡ s.pool_indexes

  -- The entries under keys that are not dirty are as wanted.
  abbrev pub AwaitsOnly : Dict UserIdentity → Strategy x → Type 0
  AwaitsOnly dirty s =
      (j : Str)
      → lookup j dirty ≡ none
      → lookup j s.index ≡ wanted s.pools j (lookup j s.pending_pos)

  after_update :
      (k : Str) (i : UserIdentity) (dirty : Dict UserIdentity) (s t : Strategy x)
      → IsUpdate k s t
      → AwaitsOnly ((k, i) ∷ dirty) s
      → AwaitsOnly dirty t
  unfolding lookup
  after_update k i dirty s t u a j n = u.entries j ∙ (elim (Bool-cases (eq_str k j)) [
    | inl e ↦ simp (e, u.pools_kept, u.pending_kept) (rw ((eq_str_iff k j).0 e) refl)
    | inr e ↦ simp (e, u.pools_kept, u.pending_kept) (a j (rw e n))
  ])

  pub update_dirty-IsUpToDate :
      (dirty : Dict UserIdentity) (s : Strategy x)
      → AllEntries IsNamed dirty
      → AllEntries IsHeld s.pending_pos
      → IsOrdered s.keys s.index
      → AwaitsOnly dirty s
      → IsUpToDate s (update_dirty x dirty s)
  unfolding update_dirty lookup
  update_dirty-IsUpToDate [] s n h o a = record {
    ordered = o;
    entries = λ j. a j refl;
    pools_kept = refl;
    pending_kept = refl;
    indexes_kept = refl;
  }
  update_dirty-IsUpToDate ((k, i) ∷ dirty) s n h o a =
      let t = update_entry x k i (lookup k s.pending_pos) (lookup k s.index) s in
      let u =
        update_entry-IsUpdate k i s (lookup k s.pending_pos) (lookup k s.index) n.0
          (λ p e. AllEntries-lookup IsHeld k p s.pending_pos h e) o refl refl in
      let ih =
        update_dirty-IsUpToDate dirty t n.1 (rw u.pending_kept h) u.ordered
          (after_update k i dirty s t u a) in
      record {
        ordered = ih.ordered;
        entries = λ j. ih.entries j ∙ simp (u.pools_kept, u.pending_kept) refl;
        pools_kept = ih.pools_kept ∙ u.pools_kept;
        pending_kept = ih.pending_kept ∙ u.pending_kept;
        indexes_kept = ih.indexes_kept ∙ u.indexes_kept;
      }
