-- ===== src/Soroswap/State/Keeps.antt =====
-- soroswap/state.go, `DecodeState`: properties of the positions and the dirty list, change by
-- change.
use lidapters.Common.{◌||◌, List, [], ◌∷◌, Bool-cases, Option-cases, inl, inr}
use lidapters.Common.Str.{Str, is_empty, lit, eq_str}
use lidapters.Common.Dict.{Dict, insert, mem}
use lidapters.Xdr.{Xdr}
use lidapters.Bindings.State.{AmmPoolState, AmmAssetMetadata, ContractDataChange}
use lidapters.Soroswap.Config.{Adapter, owns_contract}
use lidapters.Soroswap.Values.{
  balance_holder, i128_string, decode_val, asset_metadata, upsert_asset,
}
use lidapters.Soroswap.State.{
  Work, Scan, upsert_position, tombstone_position, base_pool, is_foreign, scan_instance, store_scan,
  with_hash, balance_write, live_write, removed_write, asset_write, pair_write, reduce, reduce_all,
}

abbrev pub with_pools : Work → Dict AmmPoolState → List AmmAssetMetadata → Work
with_pools w pools assets = record w { pools = pools; amm_assets = assets }

module _ (x : Xdr) (a : Adapter) (P : Work → Type 0)
    (up : (pair holder shares : Str) (w : Work) → P w → P (upsert_position pair holder shares w))
    (down : (pair holder : Str) (w : Work) → P w → P (tombstone_position pair holder w))
    (frame : (w : Work) (pools : Dict AmmPoolState) (assets : List AmmAssetMetadata)
      → P w
      → P (with_pools w pools assets)) where
  open x use {ScVal}

  balance_write-Keeps :
      (id : Str) (key val : ScVal) (w : Work) → P w → P (balance_write x a id key val w)
  unfolding balance_write
  balance_write-Keeps id key val w h =
      elim (Bool-cases (is_empty (balance_holder x key) || is_empty (i128_string x val))) [
        | inl e ↦ rw e h
        | inr e ↦ rw e (up id (balance_holder x key) (i128_string x val) w h)
      ]

  store_scan-Keeps :
      (id : Str) (key val : ScVal) (s : Scan) (w : Work) → P w → P (store_scan x a id key val s w)
  unfolding store_scan
  store_scan-Keeps id key val s w h =
      let w' = with_pools w w.pools s.amm_assets in
      let k : P (balance_write x a id key val w') =
        balance_write-Keeps id key val w' (frame w w.pools s.amm_assets h) in
      elim (Bool-cases s.touched) [
        | inl t ↦ rw t (
            frame (balance_write x a id key val w')
              (insert id s.pool (balance_write x a id key val w').pools)
              (balance_write x a id key val w').amm_assets k)
        | inr t ↦ rw t k
      ]

  live_write-Keeps : (id : Str) (key val : ScVal) (w : Work) → P w → P (live_write x a id key val w)
  unfolding live_write
  live_write-Keeps id key val w h = elim (Option-cases (x.get_instance val)) [
    | inl e ↦ rw (e, live_write) (balance_write-Keeps id key val w h)
    | inr (i, e) ↦
        let p = with_hash x a i (base_pool a w.pools id) in
        rw (e, live_write)
          (elim (Bool-cases (is_foreign a p.wasm_hash)) [
            | inl f ↦ rw f h
            | inr f ↦ rw f (store_scan-Keeps id key val (scan_instance x a id p w.amm_assets i) w h)
          ])
  ]

  removed_write-Keeps :
      (id : Str) (key : ScVal) (type : Str) (w : Work) → P w → P (removed_write x a id key type w)
  unfolding removed_write
  removed_write-Keeps id key type w h = elim (Bool-cases (eq_str type (lit "Removed"))) [
    | inl e ↦
        rw (e, removed_write)
          (elim (Bool-cases (is_empty (balance_holder x key))) [
            | inl f ↦ rw f h
            | inr f ↦ rw f (down id (balance_holder x key) w h)
          ])
    | inr e ↦ rw (e, removed_write) h
  ]

  asset_write-Keeps : (c : ContractDataChange) (w : Work) → P w → P (asset_write x a c w)
  unfolding asset_write
  asset_write-Keeps c w h = elim (Option-cases c.value_xdr) [
    | inl e ↦ rw (e, asset_write) h
    | inr (v, e) ↦ elim (Option-cases (decode_val x c.key_xdr)) [
      | inl f ↦ rw (e, f, asset_write) h
      | inr (key, f) ↦ elim (Option-cases (decode_val x v)) [
        | inl g ↦ rw (e, f, g, asset_write) h
        | inr (val, g) ↦ elim (Option-cases (asset_metadata x c.contract_id key val)) [
          | inl m ↦ rw (e, f, g, m, asset_write) h
          | inr (m, k) ↦
              rw (e, f, g, k, asset_write) (frame w w.pools (upsert_asset w.amm_assets m) h)
        ]
      ]
    ]
  ]

  pair_write-Keeps : (c : ContractDataChange) (w : Work) → P w → P (pair_write x a c w)
  unfolding pair_write
  pair_write-Keeps c w h = elim (Option-cases (decode_val x c.key_xdr)) [
    | inl e ↦ rw (e, pair_write) h
    | inr (key, e) ↦
        let gone : P (removed_write x a c.contract_id key c.change_type w) =
          removed_write-Keeps c.contract_id key c.change_type w h in
        elim (Option-cases c.value_xdr) [
          | inl f ↦ rw (e, f, pair_write) gone
          | inr (v, f) ↦ elim (Bool-cases (eq_str c.change_type (lit "Removed"))) [
            | inl g ↦ rw (e, f, g, pair_write) gone
            | inr g ↦ elim (Option-cases (decode_val x v)) [
              | inl k ↦ rw (e, f, g, k, pair_write) h
              | inr (val, k) ↦
                  rw (e, f, g, k, pair_write) (live_write-Keeps c.contract_id key val w h)
            ]
          ]
        ]
  ]

  pub reduce-Keeps : (c : ContractDataChange) (w : Work) → P w → P (reduce x a w c)
  unfolding reduce
  reduce-Keeps c w h = elim (Bool-cases (owns_contract a c.contract_id)) [
    | inr e ↦ rw e h
    | inl e ↦ elim (Bool-cases (mem c.contract_id a.assets)) [
      | inl f ↦ rw (e, f) (asset_write-Keeps c w h)
      | inr f ↦ elim (Bool-cases (mem c.contract_id a.pairs)) [
        | inl g ↦ rw (e, f, g) (pair_write-Keeps c w h)
        | inr g ↦ rw (e, f, g) h
      ]
    ]
  ]

  pub reduce_all-Keeps : (cs : List ContractDataChange) (w : Work) → P w → P (reduce_all x a w cs)
  unfolding reduce_all
  reduce_all-Keeps [] w h = h
  reduce_all-Keeps (c ∷ cs) w h = reduce_all-Keeps cs (reduce x a w c) (reduce-Keeps c w h)
