-- ===== src/Fxdao/State/Writes.antt =====
-- fxdao/state.go, `DecodeState`: one change of a vault entry.
use lidapters.Common.{◌≡◌, refl, ◌∙◌, true, false, none, some, [], ◌∷◌, ◌++◌, arith}
use lidapters.Common.Str.{Str, lit, eq_str, eq_str_refl}
use lidapters.Common.Dict.{lookup, lookup-insert}
use lidapters.Xdr.{Xdr}
use lidapters.Bindings.State.{VaultState, ContractDataChange, upsert, removal}
use lidapters.Fxdao.Config.{Adapter, owns_contract}
use lidapters.Fxdao.Values.{vault_key, decode_val, vault_entry_key, uint_string, fields, field_of}
use lidapters.Fxdao.State.{
  Work, base_vault, dirty_vault, closed_vault, remove_vault, live_vault, write_vault, entry_write,
  removed_write, live_write, reduce,
}

-- The vault `v` is that of an account and a denomination on a contract, as the adapter labels it.
pub record IsOf (a : Adapter) (id who denom : Str) (v : VaultState) : Type 0 where
  pub protocol : v.protocol ≡ a.cfg.protocol
  pub contract_id : v.contract_id ≡ id
  pub account : v.account ≡ who
  pub denomination : v.denomination ≡ denom
  pub had_vault : v.had_vault ≡ true

-- The vault is closed, its amounts are gone, and it is not restored.
pub record IsClosed (v : VaultState) : Type 0 where
  pub closed : v.closed ≡ true
  pub restored : v.restored ≡ false
  pub index_raw : v.index_raw ≡ []
  pub collateral_raw : v.collateral_raw ≡ []
  pub debt_raw : v.debt_raw ≡ []

-- The vault is live with the amounts of a decoded entry, and restored as the change says.
pub record IsWritten (x : Xdr) (val : x.ScVal) (type : Str) (v : VaultState) : Type 0 where
  pub closed : v.closed ≡ false
  pub restored : v.restored ≡ eq_str type (lit "Restored")
  pub index_raw : v.index_raw ≡ uint_string x (field_of x (fields x val) (lit "index"))
  pub collateral_raw :
      v.collateral_raw ≡ uint_string x (field_of x (fields x val) (lit "total_collateral"))
  pub debt_raw : v.debt_raw ≡ uint_string x (field_of x (fields x val) (lit "total_debt"))

module _ (x : Xdr) (a : Adapter) (w : Work) (c : ContractDataChange) (key : x.ScVal)
    (account denom : Str) (owned : owns_contract a c.contract_id ≡ true)
    (named : decode_val x c.key_xdr ≡ some key)
    (entry : vault_entry_key x key ≡ some (account, denom)) where
  -- A change of an owned contract whose key decodes to that of a vault and whose type is Removed,
  -- with a value or not, leaves that vault in the map, labelled, seen and closed, with no amounts;
  -- the other vaults and the infos stay, and the vault is reported as removed.
  pub reduce_vault-IsClosed :
      eq_str c.change_type (lit "Removed") ≡ true
      → let k = vault_key c.contract_id account denom in
        let w' = reduce x a w c in
        ((v : VaultState) × (lookup k w'.vaults ≡ some v)
          × IsOf a c.contract_id account denom v
          × IsClosed v)
        × ((j : Str) → eq_str k j ≡ false → lookup j w'.vaults ≡ lookup j w.vaults)
        × (w'.infos ≡ w.infos)
        × (w'.dirty ≡ w.dirty ++ dirty_vault c.contract_id account denom removal ∷ [])
  unfolding remove_vault base_vault closed_vault
  reduce_vault-IsClosed gone =
      let k = vault_key c.contract_id account denom in
      let v = closed_vault (base_vault a w.vaults c.contract_id account denom) in
      let e : reduce x a w c ≡ remove_vault a c.contract_id account denom w =
        unfold reduce removed_write in ground arith in
      rw e (
        (
          v,
          lookup-insert k k v w.vaults ∙ rw (eq_str_refl k) refl,
          record {
            protocol = refl;
            contract_id = refl;
            account = refl;
            denomination = refl;
            had_vault = refl;
          },
          record {
            closed = refl;
            restored = refl;
            index_raw = refl;
            collateral_raw = refl;
            debt_raw = refl;
          },
        ),
        λ j n. lookup-insert k j v w.vaults ∙ rw n refl,
        refl,
        refl,
      )

  -- A change of an owned contract that is no removal, whose key decodes to that of a vault and
  -- whose value decodes and is no contract instance, leaves that vault in the map, labelled, seen
  -- and open, with the amounts of the value, marked restored exactly if the type is Restored; the
  -- other vaults and the infos stay, and the vault is reported as written.
  pub reduce_vault-IsWritten :
      (value : Str) (val : x.ScVal)
      → eq_str c.change_type (lit "Removed") ≡ false
      → c.value_xdr ≡ some value
      → decode_val x value ≡ some val
      → x.get_instance val ≡ none
      → let k = vault_key c.contract_id account denom in
        let w' = reduce x a w c in
        ((v : VaultState) × (lookup k w'.vaults ≡ some v)
          × IsOf a c.contract_id account denom v
          × IsWritten x val c.change_type v)
        × ((j : Str) → eq_str k j ≡ false → lookup j w'.vaults ≡ lookup j w.vaults)
        × (w'.infos ≡ w.infos)
        × (w'.dirty ≡ w.dirty ++ dirty_vault c.contract_id account denom upsert ∷ [])
  unfolding write_vault base_vault live_vault
  reduce_vault-IsWritten value val here v d i =
      let k = vault_key c.contract_id account denom in
      let u =
        live_vault x a (base_vault a w.vaults c.contract_id account denom) val c.change_type in
      let e : reduce x a w c ≡ write_vault x a c.contract_id account denom val c.change_type w =
        unfold reduce live_write entry_write in
        rw (owned, named, v, here, d, i, entry, reduce, live_write, entry_write) refl in
      rw e (
        (
          u,
          lookup-insert k k u w.vaults ∙ rw (eq_str_refl k) refl,
          record {
            protocol = refl;
            contract_id = refl;
            account = refl;
            denomination = refl;
            had_vault = refl;
          },
          record {
            closed = refl;
            restored = refl;
            index_raw = refl;
            collateral_raw = refl;
            debt_raw = refl;
          },
        ),
        λ j n. lookup-insert k j u w.vaults ∙ rw n refl,
        refl,
        refl,
      )
