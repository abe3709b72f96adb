-- ===== src/Blend/Positions/Lapses.antt =====
-- blend/state.go, `applyDelete`: what becomes of a user's entry that is no longer live.
use lidapters.Common.{◌≡◌, refl, ◌∙◌, ◌⊎◌, inl, inr, true, false, Option, none, some, if◌then◌else◌}
use lidapters.Common.Int.{ℤ}
use lidapters.Common.Str.{Str, eq_str}
use lidapters.Common.Dict.{lookup, lookup-insert}
use lidapters.Xdr.{Xdr}
use lidapters.Bindings.State.{ContractDataChange}
use lidapters.Blend.Values.{decode_sc_val_base64}
use lidapters.Blend.Positions.{
  Pending, Writes, typed_user_entity_key, mark, store, store_some, archive, archived_entry,
  is_explicit_on_chain_delete, lapse_positions,
}

module _ (x : Xdr) where
  open x use {ScVal}

  -- The change has no value, or one that does not decode.
  abbrev pub HasNoValue : ContractDataChange → Type 0
  HasNoValue c =
      (c.value_xdr ≡ none)
      ⊎ (text : Str) × (c.value_xdr ≡ some text) × (decode_sc_val_base64 x text ≡ none)

  -- What a lapse leaves of an entry: its positions are those of the change's own value, where that
  -- decodes, or else the ones that it had.
  pub record IsArchived (c : ContractDataChange) (user : Str) (seq : ℤ) (old p : Pending x)
      : Type 0 where
    pub user_kept : p.user ≡ user
    pub pool_kept : p.pool_contract ≡ c.contract_id
    pub archived : p.archived ≡ true
    pub since : p.archived_ledger_seq ≡ seq
    pub value :
        HasNoValue c × (p.value_xdr ≡ old.value_xdr) × (p.positions ≡ old.positions)
        ⊎ (text : Str) × (c.value_xdr ≡ some text)
          × (decode_sc_val_base64 x text ≡ some p.positions)
          × (p.value_xdr ≡ text)

  archived_entry-IsArchived :
      (c : ContractDataChange) (user : Str) (seq : ℤ) (old : Pending x)
      → (p : Pending x) × (archived_entry x user c.contract_id seq c.value_xdr (some old) ≡ some p)
        × IsArchived c user seq old p
  unfolding archived_entry
  archived_entry-IsArchived c user seq old = by_text c.value_xdr refl
    where
      kept : Pending x
      kept = archive x user c.contract_id seq old.positions old.value_xdr

      kept_lem : HasNoValue c → IsArchived c user seq old kept
      kept_lem h = record {
        user_kept = refl;
        pool_kept = refl;
        archived = refl;
        since = refl;
        value = inl (h, refl, refl);
      }

      by_value :
          (text : Str)
          → c.value_xdr ≡ some text
          → (v : Option ScVal) → decode_sc_val_base64 x text ≡ v
          → (p : Pending x) × ((elim v [
            | some value ↦ some (archive x user c.contract_id seq value text)
            | none ↦ some kept
          ])
              ≡ some p)
            × IsArchived c user seq old p
      by_value text e none f = (kept, refl, kept_lem (inr (text, e, f)))
      by_value text e (some value) f = (
        archive x user c.contract_id seq value text,
        refl,
        record {
          user_kept = refl;
          pool_kept = refl;
          archived = refl;
          since = refl;
          value = inr (text, e, f, refl);
        },
      )

      by_text :
          (o : Option Str)
          → c.value_xdr ≡ o
          → (p : Pending x) × (archived_entry x user c.contract_id seq o (some old) ≡ some p)
            × IsArchived c user seq old p
      by_text none e = (kept, refl, kept_lem (inl e))
      by_text (some text) e = by_value text e (decode_sc_val_base64 x text) refl

  -- When an entry that is known goes not live without a removal on chain, it is kept and marked as
  -- archived from this ledger on, with the change's own value where that decodes or else with the
  -- one it had; no other entry changes, and the user and pool become dirty.
  pub lapse_positions-IsArchived :
      (c : ContractDataChange) (user : Str) (seq : ℤ) (w : Writes x) (old : Pending x)
      → lookup (typed_user_entity_key user c.contract_id) w.pending_pos ≡ some old
      → is_explicit_on_chain_delete x c.change_type ≡ false
      → let k = typed_user_entity_key user c.contract_id in
        let t = lapse_positions x c user seq w in
        (p : Pending x) × IsArchived c user seq old p
        × ((j : Str)
            → lookup j t.pending_pos ≡ (if eq_str k j then some p else lookup j w.pending_pos))
        × (t.dirty_users ≡ (mark x user c.contract_id w).dirty_users)
  unfolding lapse_positions store
  lapse_positions-IsArchived c user seq w old found kept =
      let k = typed_user_entity_key user c.contract_id in
      let (p, e, h) = archived_entry-IsArchived c user seq old in
      let stored : archived_entry x user c.contract_id seq c.value_xdr (lookup k w.pending_pos)
          ≡ some p =
        simp found e in
      let same : store_some x (some p) (mark x user c.contract_id w)
          ≡ lapse_positions x c user seq w =
        simp (kept, stored) refl in
      let key : typed_user_entity_key p.user p.pool_contract ≡ k =
        rw (h.user_kept, h.pool_kept) refl in
      (
        p,
        h,
        (λ j. rw (← same) (
            lookup-insert (typed_user_entity_key p.user p.pool_contract) j p w.pending_pos
            ∙ rw key refl)),
        rw (← same) refl,
      )
