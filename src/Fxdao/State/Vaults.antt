-- ===== src/Fxdao/State/Vaults.antt =====
-- fxdao/state.go, `DecodeState`: the maps of vaults and of per-denomination infos, and the slices
-- that are collected from them.
use mathlib.Core.List.{Permᴰ}
use lidapters.Common.{◌≡◌, refl, Option, List, []}
use lidapters.Common.Int.{ℤ}
use lidapters.Common.Str.{Str}
use lidapters.Common.Dict.{
  lookup, values, IsKeyed, insert-IsKeyed, index_onto-IsKeyed, collect-IsStrict, collect-perm,
  less_by, find_by, find_by-collect,
}
use lidapters.Common.Sort.{sort_slice, IsStrict}
use lidapters.Xdr.{Xdr}
use lidapters.Bindings.State.{VaultState, VaultsInfoState, LedgerState, ContractDataChange}
use lidapters.Fxdao.Config.{Adapter}
use lidapters.Fxdao.Values.{clone_state}
use lidapters.Fxdao.State.{
  Work, key_of_vault, key_of_info, base_vault, closed_vault, remove_vault, live_vault, write_vault,
  info_of, start_work, final_work, decode_state,
}
use lidapters.Fxdao.State.Keeps.{reduce_all-Keeps}

-- Both maps hold each key once, at a value that has this key.
pub record IsIndexed (w : Work) : Type 0 where
  pub vaults : IsKeyed key_of_vault w.vaults
  pub infos : IsKeyed key_of_info w.infos

start_work-IsIndexed : (s : LedgerState) → IsIndexed (start_work s)
start_work-IsIndexed s = record {
  vaults = index_onto-IsKeyed key_of_vault [] s.vaults tt;
  infos = index_onto-IsKeyed key_of_info [] s.vaults_info tt;
}

module _ (x : Xdr) (a : Adapter) where
  remove_vault-IsIndexed :
      (id account denom : Str) (w : Work)
      → IsIndexed w
      → IsIndexed (remove_vault a id account denom w)
  unfolding remove_vault closed_vault base_vault
  remove_vault-IsIndexed id account denom w h = record {
    vaults = insert-IsKeyed key_of_vault _ _ w.vaults refl h.vaults;
    infos = h.infos;
  }

  write_vault-IsIndexed :
      (id account denom : Str) (val : x.ScVal) (type : Str) (w : Work)
      → IsIndexed w
      → IsIndexed (write_vault x a id account denom val type w)
  unfolding write_vault live_vault base_vault
  write_vault-IsIndexed id account denom val type w h = record {
    vaults = insert-IsKeyed key_of_vault _ _ w.vaults refl h.vaults;
    infos = h.infos;
  }

-- The adapter as the call uses it, with the dirty list of the last call dropped.
abbrev pub fresh : Adapter → Adapter
fresh a = record a { dirty = [] }

pub final_work-IsIndexed :
    (x : Xdr) (a : Adapter) (prior : Option LedgerState) (changes : List ContractDataChange)
    → IsIndexed (final_work x a prior changes)
unfolding info_of
final_work-IsIndexed x a prior changes =
    reduce_all-Keeps x (fresh a) IsIndexed (remove_vault-IsIndexed x (fresh a))
      (write_vault-IsIndexed x (fresh a))
      (λ id account denom w h. record { vaults = h.vaults; infos = h.infos })
      (λ id denom val w h. record {
        vaults = h.vaults;
        infos = insert-IsKeyed key_of_info _ _ w.infos refl h.infos;
      })
      changes (start_work (clone_state prior)) (start_work-IsIndexed (clone_state prior))

abbrev pub next_state :
    Xdr → Adapter → Option LedgerState → List ContractDataChange → ℤ → LedgerState
next_state x a prior changes seq = (decode_state x a prior changes seq).1

-- The vault of a state at a key: the abstract view of the slice as a map.
abbrev pub vault_at : LedgerState → Str → Option VaultState
vault_at s k = find_by key_of_vault k s.vaults

module _ (x : Xdr) (a : Adapter) (prior : Option LedgerState) (changes : List ContractDataChange)
    (seq : ℤ) where
  -- Whatever state and changes come in, the vaults of the next state are strictly increasing by
  -- contract, account and denomination, and its infos by contract and denomination: none is twice.
  pub decode_vaults-IsStrict :
      IsStrict (less_by key_of_vault) (next_state x a prior changes seq).vaults
      × IsStrict (less_by key_of_info) (next_state x a prior changes seq).vaults_info
  unfolding decode_state
  decode_vaults-IsStrict =
      let h = final_work-IsIndexed x a prior changes in
      (collect-IsStrict key_of_vault _ h.vaults, collect-IsStrict key_of_info _ h.infos)

  -- In whatever order Go iterates over the two maps that it has built, the sorted slices are those
  -- of the next state.
  pub decode_vaults_deterministic :
      {vaults : List VaultState} {infos : List VaultsInfoState}
      → Permᴰ (values (final_work x a prior changes).vaults) vaults
      → Permᴰ (values (final_work x a prior changes).infos) infos
      → (sort_slice (less_by key_of_vault) vaults ≡ (next_state x a prior changes seq).vaults)
        × (sort_slice (less_by key_of_info) infos ≡ (next_state x a prior changes seq).vaults_info)
  unfolding decode_state
  decode_vaults_deterministic {vaults} {infos} p q =
      let h = final_work-IsIndexed x a prior changes in
      (collect-perm key_of_vault _ vaults h.vaults p, collect-perm key_of_info _ infos h.infos q)

  -- The next state answers as the map of the work answers.
  pub vault_at-next :
      (k : Str)
      → vault_at (next_state x a prior changes seq) k
        ≡ lookup k (final_work x a prior changes).vaults
  unfolding decode_state
  vault_at-next k = find_by-collect key_of_vault k _ (final_work-IsIndexed x a prior changes).vaults
