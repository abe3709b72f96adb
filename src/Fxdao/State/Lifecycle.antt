-- ===== src/Fxdao/State/Lifecycle.antt =====
-- fxdao/state.go, `DecodeState`: the life of a vault over a call.
use lidapters.Common.{
  ◌≡◌, refl, ap, ◌∙◌, Bool, true, false, Option, none, some, List, [], ◌∷◌, arith, Bool-cases, inl,
  inr, All,
}
use lidapters.Common.Int.{ℤ}
use lidapters.Common.Str.{Str, lit, eq_str}
use lidapters.Common.Sort.{sort_slice, All-sort_slice}
use lidapters.Common.Dict.{Dict, lookup, insert, lookup-insert, values, index_onto, lookup-index_by}
use lidapters.Xdr.{Xdr}
use lidapters.Bindings.State.{VaultState, LedgerState, ContractDataChange}
use lidapters.Fxdao.Config.{Adapter, sort_dirty}
use lidapters.Fxdao.Values.{clone_state}
use lidapters.Fxdao.State.{
  Work, key_of_vault, closed_vault, remove_vault, live_vault, write_vault, removed_write, reduce,
  reduce_all, start_work, final_work, decode_state, dedupe_dirty,
}
use lidapters.Fxdao.State.Keeps.{reduce_all-Keeps}
use lidapters.Fxdao.State.Vaults.{fresh, next_state, vault_at, vault_at-next}

-- A closed vault was seen, has no amounts, and its last write is no restore.
pub record IsCoherent (v : VaultState) : Type 0 where
  pub seen : v.closed ≡ true → v.had_vault ≡ true
  pub settled : v.closed ≡ true → v.restored ≡ false
  pub no_index : v.closed ≡ true → v.index_raw ≡ []
  pub no_collateral : v.closed ≡ true → v.collateral_raw ≡ []
  pub no_debt : v.closed ≡ true → v.debt_raw ≡ []

abbrev AllCoherent : Dict VaultState → Type 0
AllCoherent m = All IsCoherent (values m)

insert-AllCoherent :
    (k : Str) (v : VaultState) (m : Dict VaultState)
    → IsCoherent v
    → AllCoherent m
    → AllCoherent (insert k v m)
unfolding insert
insert-AllCoherent k v [] p h = (p, tt)
insert-AllCoherent k v ((j, w) ∷ m) p h = elim (Bool-cases (eq_str j k)) [
  | inl e ↦ rw e (p, h.1)
  | inr e ↦ rw e (h.0, insert-AllCoherent k v m p h.1)
]

index_onto-AllCoherent :
    (m : Dict VaultState) (l : List VaultState)
    → AllCoherent m
    → All IsCoherent l
    → AllCoherent (index_onto key_of_vault m l)
unfolding index_onto
index_onto-AllCoherent m [] h k = h
index_onto-AllCoherent m (v ∷ l) h k =
    index_onto-AllCoherent (insert (key_of_vault v) v m) l
      (insert-AllCoherent (key_of_vault v) v m k.0 h) k.1

closed_vault-IsCoherent : (v : VaultState) → IsCoherent (closed_vault v)
unfolding closed_vault
closed_vault-IsCoherent v = record {
  seen = λ _. refl;
  settled = λ _. refl;
  no_index = λ _. refl;
  no_collateral = λ _. refl;
  no_debt = λ _. refl;
}

live_vault-IsCoherent :
    (x : Xdr) (a : Adapter) (v : VaultState) (val : x.ScVal) (type : Str)
    → IsCoherent (live_vault x a v val type)
unfolding live_vault
live_vault-IsCoherent x a v val type = record {
  seen = λ _. refl;
  settled = λ e. cc;
  no_index = λ e. cc;
  no_collateral = λ e. cc;
  no_debt = λ e. cc;
}

-- Had-vault of what a map holds for a key.
abbrev pub had : Option VaultState → Bool
had none = false
had (some v) = v.had_vault

insert-had :
    (k j : Str) (v : VaultState) (m : Dict VaultState)
    → v.had_vault ≡ true
    → had (lookup k m) ≡ true
    → had (lookup k (insert j v m)) ≡ true
insert-had k j v m p h =
    ap had (lookup-insert j k v m)
    ∙ elim (Bool-cases (eq_str j k)) [ inl e ↦ rw e p | inr e ↦ rw e h ]

-- A change that is no write: the entry has no value, and its removal is not reported. This is what
-- a TTL lapse or an eviction looks like.
abbrev pub IsArchival : ContractDataChange → Type 0
IsArchival c = (c.value_xdr ≡ none) × (eq_str c.change_type (lit "Removed") ≡ false)

reduce_archival :
    (x : Xdr) (a : Adapter) (w : Work) (c : ContractDataChange) → IsArchival c → reduce x a w c ≡ w
unfolding reduce removed_write
reduce_archival x a w c (e, t) = ground arith

reduce_all_archival :
    (x : Xdr) (a : Adapter) (w : Work) (cs : List ContractDataChange)
    → All IsArchival cs
    → reduce_all x a w cs ≡ w
unfolding reduce_all
reduce_all_archival x a w [] h = refl
reduce_all_archival x a w (c ∷ cs) h =
    rw (reduce_archival x a w c h.0) (reduce_all_archival x a w cs h.1)

module _ (x : Xdr) (a : Adapter) (prior : Option LedgerState) (changes : List ContractDataChange)
    (seq : ℤ) where
  -- If every vault of the prior state is coherent (a closed one was seen, is not marked restored and
  -- has no amounts), so is every vault of the next state.
  pub decode_state-IsCoherent :
      All IsCoherent (clone_state prior).vaults
      → All IsCoherent (next_state x a prior changes seq).vaults
  unfolding decode_state remove_vault write_vault
  decode_state-IsCoherent h =
      All-sort_slice _ IsCoherent (values (final_work x a prior changes).vaults) (
        reduce_all-Keeps x (fresh a) (λ w. AllCoherent w.vaults)
          (λ id account denom w k. insert-AllCoherent _ _ w.vaults (closed_vault-IsCoherent _) k)
          (λ id account denom val type w k.
            insert-AllCoherent _ _ w.vaults (live_vault-IsCoherent x (fresh a) _ val type) k)
          (λ id account denom w k. k) (λ id denom val w k. k) changes
          (start_work (clone_state prior))
          (index_onto-AllCoherent [] (clone_state prior).vaults tt h))

  -- A vault that was seen on-chain stays in the state and stays seen, whatever changes come in.
  pub decode_state_keeps_had_vault :
      (k : Str)
      → had (vault_at (clone_state prior) k) ≡ true
      → had (vault_at (next_state x a prior changes seq) k) ≡ true
  unfolding remove_vault write_vault closed_vault live_vault
  decode_state_keeps_had_vault k h =
      ap had (vault_at-next x a prior changes seq k)
      ∙ (reduce_all-Keeps x (fresh a) (λ w. had (lookup k w.vaults) ≡ true)
          (λ id account denom w e. insert-had k _ _ w.vaults refl e)
          (λ id account denom val type w e. insert-had k _ _ w.vaults refl e)
          (λ id account denom w e. e) (λ id denom val w e. e) changes
          (start_work (clone_state prior))
          (ap had (lookup-index_by key_of_vault k (clone_state prior).vaults) ∙ h))

  -- A ledger in which entries are only archived leaves every vault as it was and reports none.
  pub decode_vaults_archival :
      All IsArchival changes
      → ((k : Str) → vault_at (next_state x a prior changes seq) k ≡ vault_at (clone_state prior) k)
        × ((decode_state x a prior changes seq).0.dirty ≡ [])
  decode_vaults_archival h =
      let s = clone_state prior in
      let same : final_work x a prior changes ≡ start_work s =
        reduce_all_archival x (fresh a) (start_work s) changes h in
      (
        λ k.
            vault_at-next x a prior changes seq k
            ∙ ap (λ (w : Work). lookup k w.vaults) same
            ∙ lookup-index_by key_of_vault k s.vaults,
        unfold decode_state sort_dirty sort_slice dedupe_dirty in
            ap (λ (w : Work). dedupe_dirty (sort_dirty w.dirty)) same,
      )
