-- ===== src/Fxdao/State.antt =====
-- fxdao/state.go: `DecodeState` on the vaults contract, and the merging of dirty vaults.
pub mod Keeps
pub mod Vaults
pub mod Lifecycle
pub mod Writes
pub mod Dirty
use lidapters.Common.{
  ℕ, Bool, true, false, not, ◌&&◌, Option, none, some, List, [], ◌∷◌, ◌++◌, if◌then◌else◌,
}
use lidapters.Common.Int.{ℤ}
use lidapters.Common.Str.{Str, lit, eq_str}
use lidapters.Common.Dict.{Dict, lookup, insert, index_by, collect}
use lidapters.Xdr.{Xdr, ScInstance}
use lidapters.Bindings.State.{
  VaultState, VaultsInfoState, LedgerState, ContractDataChange, DirtyKind, upsert, removal,
  zero_vault,
}
use lidapters.Fxdao.Config.{Adapter, DirtyVault, owns_contract, sort_dirty}
use lidapters.Fxdao.Values.{
  vault_key, clone_state, decode_val, uint_string, fields, field_of, vault_entry_key,
  vault_index_entry_key, vaults_info_entry_key,
}

abbrev pub key_of_vault : VaultState → Str
key_of_vault v = vault_key v.contract_id v.account v.denomination

abbrev pub info_key : Str → Str → Str
info_key contract_id denom = contract_id ++ (lit "|" ++ denom)

abbrev pub key_of_info : VaultsInfoState → Str
key_of_info v = info_key v.contract_id v.denomination

-- What the loop over the changes updates.
pub record Work : Type 0 where
  pub vaults : Dict VaultState
  pub infos : Dict VaultsInfoState
  pub dirty : List DirtyVault

-- `vaults[k]` with its identity fields set
unfoldable pub base_vault : Adapter → Dict VaultState → Str → Str → Str → VaultState
base_vault a vaults id account denom =
    let v : VaultState = elim (lookup (vault_key id account denom) vaults) [
      | none ↦ zero_vault
      | some v ↦ v
    ] in
    record v {
      protocol = a.cfg.protocol;
      contract_id = id;
      account = account;
      denomination = denom;
    }

abbrev pub dirty_vault : Str → Str → Str → DirtyKind → DirtyVault
dirty_vault id account denom kind = record {
  contract_id = id;
  account = account;
  denomination = denom;
  kind = kind;
}

-- The vault that a removal leaves: closed, with no amounts.
unfoldable pub closed_vault : VaultState → VaultState
closed_vault v = record v {
  had_vault = true;
  closed = true;
  restored = false;
  index_raw = [];
  collateral_raw = [];
  debt_raw = [];
}

unfoldable pub remove_vault : Adapter → Str → Str → Str → Work → Work
remove_vault a id account denom w = record w {
  vaults =
      insert (vault_key id account denom) (closed_vault (base_vault a w.vaults id account denom))
        w.vaults;
  dirty = w.dirty ++ dirty_vault id account denom removal ∷ [];
}

module _ (x : Xdr) (a : Adapter) where
  open x use {ScVal, get_instance}

  unfoldable pub info_of : Str → Str → ScVal → VaultsInfoState
  info_of id denom val =
      let f = fields x val in
      let at = λ (k : Str). uint_string x (field_of x f k) in
      record {
        protocol = a.cfg.protocol;
        contract_id = id;
        denomination = denom;
        total_vaults_raw = at (lit "total_vaults");
        total_debt_raw = at (lit "total_debt");
        total_col_raw = at (lit "total_col");
        min_col_rate_raw = at (lit "min_col_rate");
        min_debt_creation_raw = at (lit "min_debt_creation");
        opening_col_rate_raw = at (lit "opening_col_rate");
      }

  -- The loop over the storage of the instance.
  info_entries : Str → Dict VaultsInfoState → List (ScVal × ScVal) → Dict VaultsInfoState
  info_entries id infos [] = infos
  info_entries id infos ((key, val) ∷ es) =
      info_entries id
        (elim (vaults_info_entry_key x key) [
          | none ↦ infos
          | some denom ↦ insert (info_key id denom) (info_of id denom val) infos
        ])
        es

  unfoldable pub instance_write : Str → ScInstance ScVal → Work → Work
  unfolding info_entries
  instance_write id i w = elim i.storage [
    | none ↦ w
    | some es ↦ record w { infos = info_entries id w.infos es }
  ]

  -- The vault that a live write leaves.
  unfoldable pub live_vault : VaultState → ScVal → Str → VaultState
  live_vault v val change_type =
      let f = fields x val in
      record v {
        index_raw = uint_string x (field_of x f (lit "index"));
        collateral_raw = uint_string x (field_of x f (lit "total_collateral"));
        debt_raw = uint_string x (field_of x f (lit "total_debt"));
        had_vault = true;
        closed = false;
        restored = eq_str change_type (lit "Restored");
      }

  unfoldable pub write_vault : Str → Str → Str → ScVal → Str → Work → Work
  write_vault id account denom val change_type w = record w {
    vaults =
        insert (vault_key id account denom)
          (live_vault (base_vault a w.vaults id account denom) val change_type) w.vaults;
    dirty = w.dirty ++ dirty_vault id account denom upsert ∷ [];
  }

  -- The write of an entry that is no instance: a vault, a vault index, or nothing that is carried.
  unfoldable pub entry_write : Str → ScVal → ScVal → Str → Work → Work
  entry_write id key val change_type w = elim (vault_entry_key x key) [
    | some (account, denom) ↦ write_vault id account denom val change_type w
    | none ↦ elim (vault_index_entry_key x key) [
      | some (account, denom) ↦ record w {
        dirty = w.dirty ++ dirty_vault id account denom upsert ∷ [];
      }
      | none ↦ w
    ]
  ]

  -- A change with no value or of type Removed; only the latter closes a vault.
  unfoldable pub removed_write : Str → ScVal → Str → Work → Work
  removed_write id key change_type w =
      if not (eq_str change_type (lit "Removed")) then w else elim (vault_entry_key x key) [
        | none ↦ w
        | some (account, denom) ↦ remove_vault a id account denom w
      ]

  unfoldable pub live_write : Str → ScVal → ScVal → Str → Work → Work
  live_write id key val change_type w = elim (get_instance val) [
    | some i ↦ instance_write id i w
    | none ↦ entry_write id key val change_type w
  ]

  -- One change.
  unfoldable pub reduce : Work → ContractDataChange → Work
  reduce w c = if not (owns_contract a c.contract_id) then w else elim (decode_val x c.key_xdr) [
    | none ↦ w
    | some key ↦ elim c.value_xdr [
      | none ↦ removed_write c.contract_id key c.change_type w
      | some value ↦
          if eq_str c.change_type (lit "Removed")
          then removed_write c.contract_id key c.change_type w
          else elim (decode_val x value) [
            | none ↦ w
            | some val ↦ live_write c.contract_id key val c.change_type w
          ]
    ]
  ]

  unfoldable pub reduce_all : Work → List ContractDataChange → Work
  reduce_all w [] = w
  reduce_all w (c ∷ cs) = reduce_all (reduce w c) cs

-- Whether two entries name the same vault.
unfoldable pub same_vault : DirtyVault → DirtyVault → Bool
same_vault d e =
    eq_str d.contract_id e.contract_id
    && eq_str d.account e.account
    && eq_str d.denomination e.denomination

-- The kind of the last entry of `out` after a duplicate of the given kind.
unfoldable pub merge_kind : DirtyKind → DirtyVault → DirtyVault
merge_kind removal last = record last { kind = removal }
merge_kind upsert last = last

-- The loop with the last entry that was written in hand; the entries before it are out already.
dedupe_from : DirtyVault → List DirtyVault → List DirtyVault
dedupe_from last [] = last ∷ []
dedupe_from last (d ∷ ds) = elim (same_vault last d) [
  | true ↦ dedupe_from (merge_kind d.kind last) ds
  | false ↦ last ∷ dedupe_from d ds
]

unfoldable pub dedupe_dirty : List DirtyVault → List DirtyVault
unfolding dedupe_from
dedupe_dirty [] = []
dedupe_dirty (d ∷ ds) = dedupe_from d ds

-- The maps at the start of the loop.
abbrev pub start_work : LedgerState → Work
start_work s = record {
  vaults = index_by key_of_vault s.vaults;
  infos = index_by key_of_info s.vaults_info;
  dirty = [];
}

-- The work at the end of the loop.
abbrev pub final_work : Xdr → Adapter → Option LedgerState → List ContractDataChange → Work
final_work x a prior changes =
    reduce_all x (record a { dirty = [] }) (start_work (clone_state prior)) changes

-- The adapter that the call leaves, and the next state. The source's error is always nil.
unfoldable pub decode_state :
    Xdr → Adapter → Option LedgerState → List ContractDataChange → ℤ → Adapter × LedgerState
decode_state x a prior changes ledger_seq =
    let s = clone_state prior in
    let w = final_work x a prior changes in
    (
      record a { dirty = dedupe_dirty (sort_dirty w.dirty) },
      record s {
        vaults = collect key_of_vault w.vaults;
        vaults_info = collect key_of_info w.infos;
      },
    )
