-- ===== src/Aquarius/Instance.antt =====
-- aquarius/state.go: the storage of a pool's contract instance.
use lidapters.Common.{
  ℕ, Bool, true, false, not, ◌&&◌, none, some, List, [], ◌∷◌, length, ltb, if◌then◌else◌,
}
use lidapters.Common.Str.{Str, lit, eq_str, is_empty}
use lidapters.Common.Text.{to_lower, scan_int32}
use lidapters.Common.Dict.{Dict, lookup, insert, mem}
use lidapters.Xdr.{Xdr, ScInstance}
use lidapters.Bindings.State.{AmmPoolState, AmmTokenReserve}
use lidapters.Aquarius.Values.{
  upsert_token, symbol_or_first, addr, first_uint, fields, field_of, decode_reserves, decode_slot0,
}

-- `p := pools[id]` shares its tokens with the pool in the map: a write to a token that is there
-- reaches that pool, until an append or a decoded vector gives `p` tokens of its own.
pub record SharedTokens : Type 0 where
  pub tokens : List AmmTokenReserve
  pub is_shared : Bool

-- `upsertToken`, as the pool in the map sees it
unfoldable pub upsert_shared : ℕ → Str → Str → SharedTokens → SharedTokens
upsert_shared idx asset_id reserve s =
    if ltb idx (length s.tokens)
    then record s { tokens = upsert_token s.tokens idx asset_id reserve }
    else record s { is_shared = false }

module _ (x : Xdr) where
  open x use {ScVal, get_vec, get_instance, hex_string}

  -- A key of the instance storage that writes a field of the pool.
  unfoldable pub pool_field : Str → ScVal → AmmPoolState → AmmPoolState
  pool_field name val p =
      if mem name (lit "pool_type" ∷ lit "type" ∷ [])
      then record p { pool_type = to_lower (symbol_or_first x val) }
      else if eq_str name (lit "router")
      then record p { router_contract = addr x val }
      else if mem name (lit "tokena" ∷ lit "token0" ∷ [])
      then record p { tokens = upsert_token p.tokens 0 (addr x val) [] }
      else if mem name (lit "tokenb" ∷ lit "token1" ∷ [])
      then record p { tokens = upsert_token p.tokens 1 (addr x val) [] }
      else if mem name (lit "reservea" ∷ lit "reserve0" ∷ [])
      then record p { tokens = upsert_token p.tokens 0 [] (first_uint x val) }
      else if mem name (lit "reserveb" ∷ lit "reserve1" ∷ [])
      then record p { tokens = upsert_token p.tokens 1 [] (first_uint x val) }
      else if eq_str name (lit "tickspacing")
      then record p { tick_spacing = scan_int32 (first_uint x val) p.tick_spacing }
      else if eq_str name (lit "liquidity")
      then record p { active_liquidity_raw = first_uint x val }
      else if mem name (lit "tokens" ∷ lit "reserves" ∷ [])
      then record p { tokens = decode_reserves x p.tokens val }
      else if mem name (lit "totalshares" ∷ lit "total_shares" ∷ [])
      then record p { total_shares_raw = first_uint x val }
      else if mem name (lit "feefraction" ∷ lit "fee" ∷ [])
      then record p { fee_fraction_raw = first_uint x val }
      else if eq_str name (lit "protocolfeefraction")
      then record p { protocol_fee_fraction_raw = first_uint x val }
      else if eq_str name (lit "poolrewardconfig")
      then record p {
        reward_tps_raw = first_uint x (field_of x (fields x val) (lit "tps"));
        reward_expired_at_raw = first_uint x (field_of x (fields x val) (lit "expired_at"));
      }
      else if eq_str name (lit "poolrewarddata")
      then record p {
        reward_accumulated_raw = first_uint x (field_of x (fields x val) (lit "accumulated"));
        reward_last_time_raw = first_uint x (field_of x (fields x val) (lit "last_time"));
      }
      else if eq_str name (lit "workingsupply")
      then record p { working_supply_raw = first_uint x val }
      else if eq_str name (lit "rewardtoken")
      then record p { reward_token_id = addr x val }
      else if eq_str name (lit "a")
      then record p { amplification_raw = first_uint x val }
      else if eq_str name (lit "feegrowthglobal0x128")
      then record p { fee_growth_global0_x128 = first_uint x val }
      else if eq_str name (lit "feegrowthglobal1x128")
      then record p { fee_growth_global1_x128 = first_uint x val }
      else if eq_str name (lit "slot0")
      then decode_slot0 x p val
      else p

  -- A scan of the instance storage: the pool so far, the ends of the amplification ramp, and the
  -- share tokens of the adapter.
  pub record Scan : Type 0 where
    pub pool : AmmPoolState
    pub initial_a : Str
    pub future_a : Str
    pub share_tokens : Dict Str

  unfoldable pub scan_entry : Str → Scan → ScVal × ScVal → Scan
  scan_entry id s (key, val) =
      let name = to_lower (symbol_or_first x key) in
      if eq_str name (lit "tokenshare")
      then if is_empty (addr x val)
        then s
        else record s { share_tokens = insert (addr x val) id s.share_tokens }
      else if eq_str name (lit "initiala")
      then record s { initial_a = first_uint x val }
      else if eq_str name (lit "futurea")
      then record s { future_a = first_uint x val }
      else record s { pool = pool_field name val s.pool }

  unfoldable pub scan_storage : Str → Scan → List (ScVal × ScVal) → Scan
  scan_storage id s [] = s
  scan_storage id s (e ∷ es) = scan_storage id (scan_entry id s e) es

  -- The amplification that the ends of the ramp settle, if both are given.
  unfoldable pub settle : Scan → AmmPoolState
  settle s =
      if not (is_empty s.initial_a) && not (is_empty s.future_a)
      then record s.pool {
        amplification_raw = if eq_str s.initial_a s.future_a then s.initial_a else [];
      }
      else s.pool

  -- The pool with the instance's wasm hash, if it has one.
  unfoldable pub with_hash : ScInstance ScVal → AmmPoolState → AmmPoolState
  with_hash i p = elim i.wasm_hash [ none ↦ p | some h ↦ record p { wasm_hash = hex_string h } ]

  -- What a live entry of a pool does to the pool and the share tokens if its value is an instance.
  unfoldable pub scan_instance : Str → AmmPoolState → Dict Str → ScVal → AmmPoolState × Dict Str
  unfolding scan_storage
  scan_instance id p share_tokens val = elim (get_instance val) [
    | none ↦ (p, share_tokens)
    | some i ↦
        let start : Scan = record {
          pool = with_hash i p;
          initial_a = [];
          future_a = [];
          share_tokens = share_tokens;
        } in
        let s : Scan = elim i.storage [ none ↦ start | some es ↦ scan_storage id start es ] in
        (settle s, s.share_tokens)
  ]

  -- What a key of the instance storage does to the tokens of the pool in the map.
  unfoldable pub share_entry : SharedTokens → ScVal × ScVal → SharedTokens
  share_entry s (key, val) =
      let name = to_lower (symbol_or_first x key) in
      if not s.is_shared
      then s
      else if mem name (lit "tokena" ∷ lit "token0" ∷ [])
      then upsert_shared 0 (addr x val) [] s
      else if mem name (lit "tokenb" ∷ lit "token1" ∷ [])
      then upsert_shared 1 (addr x val) [] s
      else if mem name (lit "reservea" ∷ lit "reserve0" ∷ [])
      then upsert_shared 0 [] (first_uint x val) s
      else if mem name (lit "reserveb" ∷ lit "reserve1" ∷ [])
      then upsert_shared 1 [] (first_uint x val) s
      else if mem name (lit "tokens" ∷ lit "reserves" ∷ [])
      then elim (get_vec val) [ some (some ws) ↦ record s { is_shared = false } | _ ↦ s ]
      else s

  unfoldable pub share_storage : SharedTokens → List (ScVal × ScVal) → SharedTokens
  share_storage s [] = s
  share_storage s (e ∷ es) = share_storage (share_entry s e) es

  -- The tokens of the pool in the map after the scan of an instance.
  unfoldable pub scanned_tokens : ScVal → List AmmTokenReserve → List AmmTokenReserve
  scanned_tokens val tokens = elim (get_instance val) [
    | none ↦ tokens
    | some i ↦ elim i.storage [
      | none ↦ tokens
      | some es ↦ (share_storage (record { tokens = tokens; is_shared = true }) es).tokens
    ]
  ]

  unfoldable pub write_through : Str → ScVal → Dict AmmPoolState → Dict AmmPoolState
  write_through id val pools = elim (lookup id pools) [
    | none ↦ pools
    | some p ↦ insert id (record p { tokens = scanned_tokens val p.tokens }) pools
  ]
