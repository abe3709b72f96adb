-- ===== src/Fxdao/State/Keeps.antt =====
-- fxdao/state.go, `DecodeState`: properties of the work, change by change.
use lidapters.Common.{◌++◌, List, [], ◌∷◌, Bool-cases, Option-cases, inl, inr}
use lidapters.Common.Str.{Str, lit, eq_str}
use lidapters.Common.Dict.{insert}
use lidapters.Xdr.{Xdr, ScInstance}
use lidapters.Bindings.State.{ContractDataChange, upsert}
use lidapters.Fxdao.Config.{Adapter, owns_contract}
use lidapters.Fxdao.Values.{
  decode_val, vault_entry_key, vault_index_entry_key, vaults_info_entry_key,
}
use lidapters.Fxdao.State.{
  Work, info_key, dirty_vault, remove_vault, info_of, info_entries, instance_write, write_vault,
  entry_write, removed_write, live_write, reduce, reduce_all,
}

module _ (x : Xdr) (a : Adapter) (P : Work → Type 0)
    (down : (id account denom : Str) (w : Work) → P w → P (remove_vault a id account denom w))
    (up : (id account denom : Str) (val : x.ScVal) (type : Str) (w : Work)
      → P w
      → P (write_vault x a id account denom val type w))
    (note : (id account denom : Str) (w : Work)
      → P w
      → P (record w { dirty = w.dirty ++ dirty_vault id account denom upsert ∷ [] }))
    (info : (id denom : Str) (val : x.ScVal) (w : Work)
      → P w
      → P (record w {
        infos = insert (info_key id denom) (info_of x a id denom val) w.infos;
      })) where
  open x use {ScVal}

  info_entries-Keeps :
      (id : Str) (es : List (ScVal × ScVal)) (w : Work)
      → P w
      → P (record w { infos = info_entries x a id w.infos es })
  unfolding info_entries
  info_entries-Keeps id [] w h = h
  info_entries-Keeps id ((key, val) ∷ es) w h = elim (Option-cases (vaults_info_entry_key x key)) [
    | inl e ↦ rw (e, info_entries) (info_entries-Keeps id es w h)
    | inr (denom, e) ↦
        rw (e, info_entries)
          (info_entries-Keeps id es
            (record w { infos = insert (info_key id denom) (info_of x a id denom val) w.infos })
            (info id denom val w h))
  ]

  instance_write-Keeps :
      (id : Str) (i : ScInstance ScVal) (w : Work) → P w → P (instance_write x a id i w)
  unfolding instance_write
  instance_write-Keeps id i w h = elim (Option-cases i.storage) [
    | inl e ↦ rw (e, instance_write) h
    | inr (es, e) ↦ rw (e, instance_write) (info_entries-Keeps id es w h)
  ]

  entry_write-Keeps :
      (id : Str) (key val : ScVal) (type : Str) (w : Work)
      → P w
      → P (entry_write x a id key val type w)
  unfolding entry_write
  entry_write-Keeps id key val type w h = elim (Option-cases (vault_entry_key x key)) [
    | inr ((account, denom), e) ↦ rw (e, entry_write) (up id account denom val type w h)
    | inl e ↦ elim (Option-cases (vault_index_entry_key x key)) [
      | inr ((account, denom), f) ↦ rw (e, f, entry_write) (note id account denom w h)
      | inl f ↦ rw (e, f, entry_write) h
    ]
  ]

  removed_write-Keeps :
      (id : Str) (key : ScVal) (type : Str) (w : Work) → P w → P (removed_write x a id key type w)
  unfolding removed_write
  removed_write-Keeps id key type w h = elim (Bool-cases (eq_str type (lit "Removed"))) [
    | inr e ↦ rw (e, removed_write) h
    | inl e ↦ elim (Option-cases (vault_entry_key x key)) [
      | inl f ↦ rw (e, f, removed_write) h
      | inr ((account, denom), f) ↦ rw (e, f, removed_write) (down id account denom w h)
    ]
  ]

  live_write-Keeps :
      (id : Str) (key val : ScVal) (type : Str) (w : Work)
      → P w
      → P (live_write x a id key val type w)
  unfolding live_write
  live_write-Keeps id key val type w h = elim (Option-cases (x.get_instance val)) [
    | inl e ↦ rw (e, live_write) (entry_write-Keeps id key val type w h)
    | inr (i, e) ↦ rw (e, live_write) (instance_write-Keeps id i w h)
  ]

  pub reduce-Keeps : (c : ContractDataChange) (w : Work) → P w → P (reduce x a w c)
  unfolding reduce
  reduce-Keeps c w h = elim (Bool-cases (owns_contract a c.contract_id)) [
    | inr e ↦ rw (e, reduce) h
    | inl e ↦ elim (Option-cases (decode_val x c.key_xdr)) [
      | inl f ↦ rw (e, f, reduce) h
      | inr (key, f) ↦
          let gone : P (removed_write x a c.contract_id key c.change_type w) =
            removed_write-Keeps c.contract_id key c.change_type w h in
          elim (Option-cases c.value_xdr) [
            | inl g ↦ rw (e, f, g, reduce) gone
            | inr (v, g) ↦ elim (Bool-cases (eq_str c.change_type (lit "Removed"))) [
              | inl r ↦ rw (e, f, g, r, reduce) gone
              | inr r ↦ elim (Option-cases (decode_val x v)) [
                | inl k ↦ rw (e, f, g, r, k, reduce) h
                | inr (val, k) ↦
                    rw (e, f, g, r, k, reduce)
                      (live_write-Keeps c.contract_id key val c.change_type w h)
              ]
            ]
          ]
    ]
  ]

  pub reduce_all-Keeps : (cs : List ContractDataChange) (w : Work) → P w → P (reduce_all x a w cs)
  unfolding reduce_all
  reduce_all-Keeps [] w h = h
  reduce_all-Keeps (c ∷ cs) w h = reduce_all-Keeps cs (reduce x a w c) (reduce-Keeps c w h)
