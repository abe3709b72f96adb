-- ===== src/Soroswap/State.antt =====
-- soroswap/state.go: `DecodeState`, one function for each pass and for each branch of its loops.
pub mod Keyed
pub mod Keeps
pub mod Lifecycle
pub mod Dirty
pub mod Balances
pub mod Discovery
use lidapters.Common.{
  ℕ, Bool, true, false, not, ◌&&◌, ◌||◌, Option, none, some, List, [], ◌∷◌, ◌++◌, ◌==◌,
  if◌then◌else◌,
}
use lidapters.Common.Int.{ℤ}
use lidapters.Common.Str.{Str, lit, eq_str, lt_str, is_empty}
use lidapters.Common.Text.{to_lower}
use lidapters.Common.Dict.{Dict, lookup, insert, mem, add, index_by, collect}
use lidapters.Common.Sort.{sort_slice}
use lidapters.Xdr.{Xdr, ScInstance}
use lidapters.Bindings.State.{
  AmmPoolState, AmmPositionState, AmmAssetMetadata, LedgerState, ContractDataChange, DirtyPosition,
  upsert, removal, zero_pool, zero_position,
}
use lidapters.Soroswap.Config.{Adapter, owns_contract}
use lidapters.Soroswap.Values.{
  position_key, clone_state, upsert_token, upsert_asset, decode_val, symbol_or_first, addr,
  i128_string, balance_holder, asset_metadata,
}

-- What the second pass updates: the maps of pools and positions, the assets of the next state, and
-- the dirty positions of the adapter.
pub record Work : Type 0 where
  pub pools : Dict AmmPoolState
  pub positions : Dict AmmPositionState
  pub amm_assets : List AmmAssetMetadata
  pub dirty : List DirtyPosition

-- A decoded pair instance: the pool so far, the assets, and whether the pool was touched.
pub record Scan : Type 0 where
  pub pool : AmmPoolState
  pub amm_assets : List AmmAssetMetadata
  pub touched : Bool

abbrev pub new_position : Str → Str → Str → AmmPositionState
new_position pair holder shares = record zero_position {
  address = holder;
  pool_contract_id = pair;
  shares_raw = shares;
}

-- HadShares of the position that a map holds for a key, false if there is none.
abbrev pub had : Option AmmPositionState → Bool
had none = false
had (some p) = p.had_shares

abbrev pub current_had_shares : Dict AmmPositionState → Str → Bool
current_had_shares positions k = had (lookup k positions)

-- The positions that a balance write and a removal put into the map.
unfoldable pub renewed : Str → Str → Str → Dict AmmPositionState → AmmPositionState
renewed pair holder shares positions =
    let fresh = new_position pair holder shares in
    let had = current_had_shares positions (position_key fresh) in
    record fresh { had_shares = if eq_str shares (lit "0") then had else true }

unfoldable pub closed_out : Str → Str → Dict AmmPositionState → AmmPositionState
closed_out pair holder positions =
    let fresh = new_position pair holder (lit "0") in
    record fresh { had_shares = current_had_shares positions (position_key fresh) }

unfoldable pub upsert_position : Str → Str → Str → Work → Work
upsert_position pair holder shares w = record w {
  positions =
      insert (position_key (new_position pair holder shares))
        (renewed pair holder shares w.positions) w.positions;
  dirty = w.dirty ++ (record { address = holder; pool_contract_id = pair; kind = upsert }) ∷ [];
}

unfoldable pub tombstone_position : Str → Str → Work → Work
tombstone_position pair holder w = record w {
  positions =
      insert (position_key (new_position pair holder (lit "0")))
        (closed_out pair holder w.positions) w.positions;
  dirty = w.dirty ++ (record { address = holder; pool_contract_id = pair; kind = removal }) ∷ [];
}

unfoldable pub less_dirty : DirtyPosition → DirtyPosition → Bool
less_dirty d e =
    if not (eq_str d.pool_contract_id e.pool_contract_id)
    then lt_str d.pool_contract_id e.pool_contract_id
    else lt_str d.address e.address

-- `p := pools[c.ContractID]` with its identity fields set
unfoldable pub base_pool : Adapter → Dict AmmPoolState → Str → AmmPoolState
base_pool a pools id =
    let p : AmmPoolState = elim (lookup id pools) [ none ↦ zero_pool | some p ↦ p ] in
    record p { protocol = a.cfg.protocol; contract_id = id; pool_type = lit "constant_product" }

-- The allow-list: whether a pair with this wasm hash is left alone.
unfoldable pub is_foreign : Adapter → Str → Bool
is_foreign a hash = elim a.cfg.pair_wasm_hashes [
  | [] ↦ false
  | h ∷ hs ↦ not (is_empty hash) && not (mem (to_lower hash) a.cfg.pair_wasm_hashes)
]

module _ (x : Xdr) where
  -- The discovery pass: one change of a factory may register a pair.
  unfoldable pub discover : Adapter → ContractDataChange → Adapter
  discover a c = if not (mem c.contract_id a.factories) then a else elim c.value_xdr [
    | none ↦ a
    | some value ↦ elim (decode_val x c.key_xdr) [
      | none ↦ a
      | some key ↦
          if eq_str (symbol_or_first x key) (lit "PairAddressesNIndexed")
          then elim (decode_val x value) [
            | none ↦ a
            | some val ↦
                if is_empty (addr x val) then a else record a { pairs = add (addr x val) a.pairs }
          ]
          else a
    ]
  ]

module _ (x : Xdr) (a : Adapter) where
  open x use {ScVal, get_u32, get_instance, hex_string}

  -- One raw u32 key of the instance storage. Every such key touches the pool.
  unfoldable pub pair_field : ℕ → ScVal → AmmPoolState → AmmPoolState
  pair_field u val p =
      if u == 0
      then record p { tokens = upsert_token p.tokens 0 (addr x val) [] }
      else if u == 1
      then record p { tokens = upsert_token p.tokens 1 (addr x val) [] }
      else if u == 2
      then record p { tokens = upsert_token p.tokens 0 [] (i128_string x val) }
      else if u == 3
      then record p { tokens = upsert_token p.tokens 1 [] (i128_string x val) }
      else if u == 4
      then record p { router_contract = addr x val }
      else p

  unfoldable pub scan_entry : Str → Scan → ScVal × ScVal → Scan
  scan_entry id s (key, val) = elim (get_u32 key) [
    | some u ↦ record s { pool = pair_field u val s.pool; touched = true }
    | none ↦
        if eq_str (symbol_or_first x key) (lit "TotalSupply")
        then record s {
          pool = record s.pool { total_shares_raw = i128_string x val };
          touched = true;
        }
        else if eq_str (symbol_or_first x key) (lit "METADATA")
        then elim (asset_metadata x id key val) [
          | none ↦ s
          | some m ↦ record s { amm_assets = upsert_asset s.amm_assets m }
        ]
        else s
  ]

  scan_storage : Str → Scan → List (ScVal × ScVal) → Scan
  scan_storage id s [] = s
  scan_storage id s (e ∷ es) = scan_storage id (scan_entry id s e) es

  -- The pool with the instance's wasm hash, if it has one.
  unfoldable pub with_hash : ScInstance ScVal → AmmPoolState → AmmPoolState
  with_hash i p = elim i.wasm_hash [ none ↦ p | some h ↦ record p { wasm_hash = hex_string h } ]

  -- A write to an LP balance; the key of an instance names no holder.
  unfoldable pub balance_write : Str → ScVal → ScVal → Work → Work
  balance_write id key val w =
      let holder = balance_holder x key in
      let shares = i128_string x val in
      if is_empty holder || is_empty shares then w else upsert_position id holder shares w

  scan_instance : Str → AmmPoolState → List AmmAssetMetadata → ScInstance ScVal → Scan
  unfolding scan_storage
  scan_instance id p assets i =
      let start : Scan = record { pool = p; amm_assets = assets; touched = false } in
      elim i.storage [ none ↦ start | some es ↦ scan_storage id start es ]

  -- What follows the scan of an instance: the assets, a balance, and the pool if it was touched.
  store_scan : Str → ScVal → ScVal → Scan → Work → Work
  store_scan id key val s w =
      let w' = balance_write id key val (record w { amm_assets = s.amm_assets }) in
      if s.touched then record w' { pools = insert id s.pool w'.pools } else w'

  -- The live write of a pair's entry.
  unfoldable pub live_write : Str → ScVal → ScVal → Work → Work
  unfolding scan_instance store_scan
  live_write id key val w = elim (get_instance val) [
    | none ↦ balance_write id key val w
    | some i ↦
        let p = with_hash i (base_pool a w.pools id) in
        if is_foreign a p.wasm_hash
        then w
        else store_scan id key val (scan_instance id p w.amm_assets i) w
  ]

  -- A change with no value or of type Removed; only the latter closes a position.
  unfoldable pub removed_write : Str → ScVal → Str → Work → Work
  removed_write id key change_type w =
      if eq_str change_type (lit "Removed")
      then (let holder = balance_holder x key in
          if is_empty holder then w else tombstone_position id holder w)
      else w

  unfoldable pub asset_write : ContractDataChange → Work → Work
  asset_write c w = elim c.value_xdr [
    | none ↦ w
    | some value ↦ elim (decode_val x c.key_xdr) [
      | none ↦ w
      | some key ↦ elim (decode_val x value) [
        | none ↦ w
        | some val ↦ elim (asset_metadata x c.contract_id key val) [
          | none ↦ w
          | some m ↦ record w { amm_assets = upsert_asset w.amm_assets m }
        ]
      ]
    ]
  ]

  unfoldable pub pair_write : ContractDataChange → Work → Work
  pair_write c w = elim (decode_val x c.key_xdr) [
    | none ↦ w
    | some key ↦ elim c.value_xdr [
      | none ↦ removed_write c.contract_id key c.change_type w
      | some value ↦
          if eq_str c.change_type (lit "Removed")
          then removed_write c.contract_id key c.change_type w
          else elim (decode_val x value) [
            | none ↦ w
            | some val ↦ live_write c.contract_id key val w
          ]
    ]
  ]

  -- The state pass on one change.
  unfoldable pub reduce : Work → ContractDataChange → Work
  reduce w c =
      if not (owns_contract a c.contract_id)
      then w
      else if mem c.contract_id a.assets
      then asset_write c w
      else if not (mem c.contract_id a.pairs)
      then w
      else pair_write c w

  unfoldable pub reduce_all : Work → List ContractDataChange → Work
  reduce_all w [] = w
  reduce_all w (c ∷ cs) = reduce_all (reduce w c) cs

unfoldable pub discover_all : Xdr → Adapter → List ContractDataChange → Adapter
discover_all x a [] = a
discover_all x a (c ∷ cs) = discover_all x (discover x a c) cs

-- The maps at the start of the state pass.
abbrev pub start_work : LedgerState → Work
start_work s = record {
  pools = index_by (λ p. p.contract_id) s.amm_pools;
  positions = index_by position_key s.amm_positions;
  amm_assets = s.amm_assets;
  dirty = [];
}

-- The sorted slices of the next state.
abbrev pub finish : Work → LedgerState → LedgerState
finish w s = record s {
  amm_pools = collect (λ p. p.contract_id) w.pools;
  amm_positions = collect position_key w.positions;
  amm_assets = w.amm_assets;
}

-- The adapter that the call leaves, and the next state. The source's error is always nil.
unfoldable pub decode_state :
    Xdr → Adapter → Option LedgerState → List ContractDataChange → ℤ → Adapter × LedgerState
decode_state x a prior changes ledger_seq =
    let s = clone_state prior in
    let a' = discover_all x (record a { dirty = [] }) changes in
    let w = reduce_all x a' (start_work s) changes in
    (record a' { dirty = sort_slice less_dirty w.dirty }, finish w s)
