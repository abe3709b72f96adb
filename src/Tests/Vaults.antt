-- ===== src/Tests/Vaults.antt =====
-- The theorems on FxDAO's vaults, applied to a ledger that writes, removes and archives ann's vault.
use lidapters.Common.{◌≡◌, refl, true, false, none, some, List, [], ◌∷◌, ◌++◌, All, Pairwise}
use lidapters.Common.Int.{pos}
use lidapters.Common.Str.{Str, lit, eq_str}
use lidapters.Common.Sort.{IsStrict, IsSorted, sort_slice}
use lidapters.Common.Dict.{lookup, less_by, mem}
use lidapters.Bindings.Rows.{Vault}
use lidapters.Bindings.State.{ContractDataChange, VaultState, upsert, removal}
use lidapters.Fxdao.Config.{Adapter, DirtyVault, default_config, owns_contract, less_dirty}
use lidapters.Fxdao.Values.{vault_key, decode_val, vault_entry_key, addr, clone_state}
use lidapters.Fxdao.State.{
  Work, key_of_vault, key_of_info, dirty_vault, start_work, final_work, reduce, decode_state,
}
use lidapters.Fxdao.State.Vaults.{next_state, vault_at, decode_vaults-IsStrict}
use lidapters.Fxdao.State.Lifecycle.{
  IsCoherent, decode_state-IsCoherent, had, decode_state_keeps_had_vault,
}
use lidapters.Fxdao.State.Writes.{
  IsOf, IsClosed, IsWritten, reduce_vault-IsClosed, reduce_vault-IsWritten,
}
use lidapters.Fxdao.State.Dirty.{names, removes, decode_state_dirty}
use lidapters.Fxdao.Transform.{less_vault, transform}
use lidapters.Fxdao.Transform.Rows.{keep, shown, IsRow, IsHeld, transform_rows}
use lidapters.Tests.{
  Val, decode_text, codec, change, before, tagged, account_val, sym_val, vec, more, no_more, input,
  vault, vault_value,
}

abbrev adapter : Adapter
adapter = record { cfg = default_config; contracts = lit "V" ∷ []; dirty = [] }

abbrev removed : ContractDataChange
removed = change (lit "V") (lit "vault of ann") none (lit "Removed")

abbrev evicted : ContractDataChange
evicted = change (lit "V") (lit "vault of ann") none (lit "Evicted")

abbrev restored : ContractDataChange
restored = change (lit "V") (lit "vault of ann") (some (lit "vault")) (lit "Restored")

abbrev ledger : List ContractDataChange
ledger = evicted ∷ restored ∷ removed ∷ []

abbrev vault_of_ann : Val
vault_of_ann =
    tagged (lit "Vault") (vec (more (account_val (lit "ann")) (more (sym_val (lit "USD")) no_more)))

vault-IsCoherent : IsCoherent vault
vault-IsCoherent = record {
  seen = λ e. refl;
  settled = λ e. refl;
  no_index = λ e. refl;
  no_collateral = λ e. refl;
  no_debt = λ e. cc;
}

decode_state-IsCoherent_example :
    All IsCoherent (next_state codec adapter (some before) ledger (pos 7)).vaults
unfolding clone_state
decode_state-IsCoherent_example =
    decode_state-IsCoherent codec adapter (some before) ledger (pos 7) (vault-IsCoherent, tt)

decode_state_keeps_had_vault_example :
    let k = vault_key (lit "V") (lit "ann") (lit "USD") in
    had (vault_at (next_state codec adapter (some before) ledger (pos 7)) k) ≡ true
unfolding eq_str clone_state vault_key
decode_state_keeps_had_vault_example =
    decode_state_keeps_had_vault codec adapter (some before) ledger (pos 7)
      (vault_key (lit "V") (lit "ann") (lit "USD")) refl

abbrev start : Work
start = start_work before

reduce_vault-IsClosed_example :
    let k = vault_key (lit "V") (lit "ann") (lit "USD") in
    let w' = reduce codec adapter start removed in
    ((v : VaultState) × (lookup k w'.vaults ≡ some v)
      × IsOf adapter (lit "V") (lit "ann") (lit "USD") v
      × IsClosed v)
    × ((j : Str) → eq_str k j ≡ false → lookup j w'.vaults ≡ lookup j start.vaults)
    × (w'.infos ≡ start.infos)
    × (w'.dirty ≡ start.dirty ++ dirty_vault (lit "V") (lit "ann") (lit "USD") removal ∷ [])
unfolding owns_contract mem eq_str decode_val lookup vault_entry_key addr decode_text
reduce_vault-IsClosed_example =
    reduce_vault-IsClosed codec adapter start removed vault_of_ann (lit "ann") (lit "USD") refl refl
      refl refl

reduce_vault-IsWritten_example :
    let k = vault_key (lit "V") (lit "ann") (lit "USD") in
    let w' = reduce codec adapter start restored in
    ((v : VaultState) × (lookup k w'.vaults ≡ some v)
      × IsOf adapter (lit "V") (lit "ann") (lit "USD") v
      × IsWritten codec vault_value (lit "Restored") v)
    × ((j : Str) → eq_str k j ≡ false → lookup j w'.vaults ≡ lookup j start.vaults)
    × (w'.infos ≡ start.infos)
    × (w'.dirty ≡ start.dirty ++ dirty_vault (lit "V") (lit "ann") (lit "USD") upsert ∷ [])
unfolding owns_contract mem eq_str decode_val lookup vault_entry_key addr decode_text
reduce_vault-IsWritten_example =
    reduce_vault-IsWritten codec adapter start restored vault_of_ann (lit "ann") (lit "USD") refl
      refl refl (lit "vault") vault_value refl refl refl refl

decode_state_dirty_example :
    let reported = (decode_state codec adapter (some before) ledger (pos 7)).0.dirty in
    IsStrict less_dirty reported
    × ((d : DirtyVault)
        → names d reported ≡ names d (final_work codec adapter (some before) ledger).dirty)
    × ((d : DirtyVault)
        → removes d reported ≡ removes d (final_work codec adapter (some before) ledger).dirty)
decode_state_dirty_example = decode_state_dirty codec adapter (some before) ledger (pos 7)

decode_vaults-IsStrict_example :
    let next = next_state codec adapter (some before) ledger (pos 7) in
    IsStrict (less_by key_of_vault) next.vaults × IsStrict (less_by key_of_info) next.vaults_info
decode_vaults-IsStrict_example = decode_vaults-IsStrict codec adapter (some before) ledger (pos 7)

transform_rows_example :
    let out = transform codec adapter input in
    Pairwise
      (IsHeld codec adapter)
      (keep (λ evt. owns_contract adapter evt.contract_id) input.events)
      out.quarantine
    × ((rows : List Vault) × Pairwise
          (IsRow codec adapter input)
          (keep (shown codec adapter) before.vaults)
          rows
        × (out.vaults ≡ sort_slice less_vault rows))
    × IsSorted less_vault out.vaults
transform_rows_example = transform_rows codec adapter input before refl
