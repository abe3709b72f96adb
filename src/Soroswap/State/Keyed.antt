-- ===== src/Soroswap/State/Keyed.antt =====
-- soroswap/state.go, `DecodeState`: the maps of the state pass, and the slices that are collected
-- from them.
use mathlib.Core.List.{Permᴰ}
use lidapters.Common.{
  ◌≡◌, refl, false, Option, List, [], ◌∷◌, arith, Bool-cases, Option-cases, inl, inr, ◌∙◌,
}
use lidapters.Common.Int.{ℤ}
use lidapters.Common.Str.{Str}
use lidapters.Common.Dict.{
  values, IsKeyed, insert-IsKeyed, index_onto-IsKeyed, collect-IsStrict, collect-perm, less_by,
}
use lidapters.Common.Sort.{sort_slice, IsStrict}
use lidapters.Xdr.{Xdr, ScInstance}
use lidapters.Bindings.State.{
  AmmPoolState, AmmPositionState, AmmAssetMetadata, LedgerState, ContractDataChange,
}
use lidapters.Soroswap.Config.{Adapter}
use lidapters.Soroswap.Values.{position_key, clone_state, balance_holder, i128_string}
use lidapters.Soroswap.State.{
  Work, Scan, renewed, closed_out, upsert_position, tombstone_position, base_pool, is_foreign,
  pair_field, scan_entry, scan_storage, scan_instance, store_scan, with_hash, balance_write,
  live_write, removed_write, asset_write, pair_write, reduce, reduce_all, discover_all, start_work,
  decode_state,
}

abbrev pub pool_key : AmmPoolState → Str
pool_key p = p.contract_id

-- Both maps hold each key once, at a value that has this key.
pub record IsIndexed (w : Work) : Type 0 where
  pub pools : IsKeyed pool_key w.pools
  pub positions : IsKeyed position_key w.positions

upsert_position-IsIndexed :
    (pair holder shares : Str) {w : Work}
    → IsIndexed w
    → IsIndexed (upsert_position pair holder shares w)
unfolding upsert_position renewed position_key
upsert_position-IsIndexed pair holder shares {w} h = record {
  pools = h.pools;
  positions = insert-IsKeyed position_key _ _ w.positions refl h.positions;
}

tombstone_position-IsIndexed :
    (pair holder : Str) {w : Work} → IsIndexed w → IsIndexed (tombstone_position pair holder w)
unfolding tombstone_position closed_out position_key
tombstone_position-IsIndexed pair holder {w} h = record {
  pools = h.pools;
  positions = insert-IsKeyed position_key _ _ w.positions refl h.positions;
}

start_work-IsIndexed : (s : LedgerState) → IsIndexed (start_work s)
start_work-IsIndexed s = record {
  pools = index_onto-IsKeyed pool_key [] s.amm_pools tt;
  positions = index_onto-IsKeyed position_key [] s.amm_positions tt;
}

module _ (x : Xdr) (a : Adapter) where
  open x use {ScVal}

  pair_field_id :
      (u : _) (val : ScVal) (p : AmmPoolState)
      → (pair_field x a u val p).contract_id ≡ p.contract_id
  unfolding pair_field
  pair_field_id u val p = ground arith

  scan_entry_id :
      (id : Str) (s : Scan) (e : ScVal × ScVal)
      → (scan_entry x a id s e).pool.contract_id ≡ s.pool.contract_id
  unfolding scan_entry
  scan_entry_id id s (key, val) = grind (arith, pair_field_id)

  scan_storage_id :
      (id : Str) (s : Scan) (es : List (ScVal × ScVal))
      → (scan_storage x a id s es).pool.contract_id ≡ s.pool.contract_id
  unfolding scan_storage
  scan_storage_id id s [] = refl
  scan_storage_id id s (e ∷ es) =
      scan_storage_id id (scan_entry x a id s e) es ∙ scan_entry_id id s e

  scan_instance_id :
      (id : Str) (p : AmmPoolState) (assets : List AmmAssetMetadata) (i : ScInstance ScVal)
      → (scan_instance x a id p assets i).pool.contract_id ≡ p.contract_id
  unfolding scan_instance
  scan_instance_id id p assets i = elim (Option-cases i.storage) [
    | inl e ↦ rw e
    | inr (es, e) ↦
        rw e (scan_storage_id id (record { pool = p; amm_assets = assets; touched = false }) es)
  ]

  with_hash_id :
      (i : ScInstance ScVal) (p : AmmPoolState) → (with_hash x a i p).contract_id ≡ p.contract_id
  unfolding with_hash
  with_hash_id i p = ground arith

  base_pool_id : (w : Work) (id : Str) → (base_pool a w.pools id).contract_id ≡ id
  unfolding base_pool
  base_pool_id w id = refl

  balance_write-IsIndexed :
      (id : Str) (key val : ScVal) {w : Work}
      → IsIndexed w
      → IsIndexed (balance_write x a id key val w)
  unfolding balance_write
  balance_write-IsIndexed id key val {w} h =
      ground (arith, upsert_position-IsIndexed id (balance_holder x key) (i128_string x val) h)

  store_scan-IsIndexed :
      (id : Str) (key val : ScVal) (s : Scan) {w : Work}
      → s.pool.contract_id ≡ id
      → IsIndexed w
      → IsIndexed (store_scan x a id key val s w)
  unfolding store_scan
  store_scan-IsIndexed id key val s {w} e h =
      let w' = (record w { amm_assets = s.amm_assets }) in
      let k : IsIndexed (balance_write x a id key val w') =
        balance_write-IsIndexed id key val {w = w'}
          (record { pools = h.pools; positions = h.positions }) in
      elim (Bool-cases s.touched) [
        | inl t ↦ rw t (record {
          pools =
              insert-IsKeyed pool_key id s.pool (balance_write x a id key val w').pools e k.pools;
          positions = k.positions;
        })
        | inr t ↦ rw t k
      ]

  live_write-IsIndexed :
      (id : Str) (key val : ScVal) {w : Work}
      → IsIndexed w
      → IsIndexed (live_write x a id key val w)
  unfolding live_write
  live_write-IsIndexed id key val {w} h = elim (Option-cases (x.get_instance val)) [
    | inl e ↦ rw (e, live_write) (balance_write-IsIndexed id key val h)
    | inr (i, e) ↦
        let p = with_hash x a i (base_pool a w.pools id) in
        rw (e, live_write)
          (elim (Bool-cases (is_foreign a p.wasm_hash)) [
            | inl f ↦ rw f h
            | inr f ↦ rw f (
                store_scan-IsIndexed id key val (scan_instance x a id p w.amm_assets i)
                  (scan_instance_id id p w.amm_assets i
                    ∙ with_hash_id i (base_pool a w.pools id)
                    ∙ base_pool_id w id)
                  h)
          ])
  ]

  removed_write-IsIndexed :
      (id : Str) (key : ScVal) (change_type : Str) {w : Work}
      → IsIndexed w
      → IsIndexed (removed_write x a id key change_type w)
  unfolding removed_write
  removed_write-IsIndexed id key change_type h =
      ground (arith, tombstone_position-IsIndexed id (balance_holder x key) h)

  asset_write-IsIndexed :
      (c : ContractDataChange) {w : Work} → IsIndexed w → IsIndexed (asset_write x a c w)
  unfolding asset_write
  asset_write-IsIndexed c {w} h = ground arith

  pair_write-IsIndexed :
      (c : ContractDataChange) {w : Work} → IsIndexed w → IsIndexed (pair_write x a c w)
  unfolding pair_write
  pair_write-IsIndexed c {w} h = grind (arith, removed_write-IsIndexed, live_write-IsIndexed)

  pub reduce-IsIndexed :
      (c : ContractDataChange) {w : Work} → IsIndexed w → IsIndexed (reduce x a w c)
  unfolding reduce
  reduce-IsIndexed c {w} h = ground (arith, asset_write-IsIndexed c h, pair_write-IsIndexed c h)

  pub reduce_all-IsIndexed :
      (cs : List ContractDataChange) {w : Work} → IsIndexed w → IsIndexed (reduce_all x a w cs)
  unfolding reduce_all
  reduce_all-IsIndexed [] h = h
  reduce_all-IsIndexed (c ∷ cs) h = reduce_all-IsIndexed cs (reduce-IsIndexed c h)

-- The work that `decode_state` ends with.
abbrev pub final_work : Xdr → Adapter → Option LedgerState → List ContractDataChange → Work
final_work x a prior changes =
    reduce_all x (discover_all x (record a { dirty = [] }) changes) (start_work (clone_state prior))
      changes

pub final_work-IsIndexed :
    (x : Xdr) (a : Adapter) (prior : Option LedgerState) (changes : List ContractDataChange)
    → IsIndexed (final_work x a prior changes)
final_work-IsIndexed x a prior changes =
    reduce_all-IsIndexed x (discover_all x (record a { dirty = [] }) changes) changes
      (start_work-IsIndexed (clone_state prior))

-- Whatever state and changes come in, the pools of the next state are strictly increasing by
-- contract id, and its positions by pool and address: sorted, and none twice.
pub decode_state-IsStrict :
    (x : Xdr) (a : Adapter) (prior : Option LedgerState) (changes : List ContractDataChange)
    (seq : ℤ)
    → let next = (decode_state x a prior changes seq).1 in
      IsStrict (less_by pool_key) next.amm_pools
      × IsStrict (less_by position_key) next.amm_positions
unfolding decode_state
decode_state-IsStrict x a prior changes seq =
    let h = final_work-IsIndexed x a prior changes in
    (collect-IsStrict pool_key _ h.pools, collect-IsStrict position_key _ h.positions)

-- In whatever order Go iterates over the maps of pools and of positions that it has built, the
-- sorted slices are those of the next state.
pub decode_state_deterministic :
    (x : Xdr) (a : Adapter) (prior : Option LedgerState) (changes : List ContractDataChange)
    (seq : ℤ) {pools : List AmmPoolState} {positions : List AmmPositionState}
    → Permᴰ (values (final_work x a prior changes).pools) pools
    → Permᴰ (values (final_work x a prior changes).positions) positions
    → let next = (decode_state x a prior changes seq).1 in
      (sort_slice (less_by pool_key) pools ≡ next.amm_pools)
      × (sort_slice (less_by position_key) positions ≡ next.amm_positions)
unfolding decode_state
decode_state_deterministic x a prior changes seq {pools} {positions} p q =
    let h = final_work-IsIndexed x a prior changes in
    (collect-perm pool_key _ pools h.pools p, collect-perm position_key _ positions h.positions q)
