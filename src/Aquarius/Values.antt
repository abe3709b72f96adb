-- ===== src/Aquarius/Values.antt =====
-- aquarius/state.go: reading XDR values, and the updates of token and asset lists.
use lidapters.Common.{
  ℕ, zero, suc, ◌+◌, ◌*◌, ◌^◌, Bool, true, false, Option, none, some, List, [], ◌∷◌, ◌++◌, ltb,
  ◌==◌, if◌then◌else◌, ◌>>=◌,
}
use lidapters.Common.Int.{ℤ, pos, sub_ℕ}
use lidapters.Common.Str.{Str, lit, eq_str, is_empty}
use lidapters.Common.Text.{to_lower, to_hex, has_prefix, scan_int32}
use lidapters.Common.Dict.{Dict, lookup, insert}
use lidapters.Common.Decimal.{dec, dec_ℤ}
use lidapters.Xdr.{Xdr, ScAddress, Parts128, Parts256}
use lidapters.Bindings.State.{
  AmmAssetMetadata, AmmTokenReserve, AmmPoolState, AmmPositionState, LedgerState, zero_token,
  zero_position, empty_state,
}
use lidapters.Aquarius.Math.Tick.{tick_sqrt_price_x96}

-- The two halves joined; `lo` fills the 64 bits that the shift leaves zero, so `Or` adds it.
unfoldable pub new_big : ℕ → ℕ → Bool → ℤ
new_big hi lo neg = if neg then sub_ℕ (hi * 2 ^ 64 + lo) (2 ^ 128) else pos (hi * 2 ^ 64 + lo)

unfoldable pub u128_string : Parts128 → Str
unfolding new_big
u128_string v = dec_ℤ (new_big v.hi v.lo false)

-- `int64(v.Hi) < 0`
abbrev pub is_negative : Parts128 → Bool
is_negative v = if ltb v.hi (2 ^ 63) then false else true

unfoldable pub i128_string : Parts128 → Str
unfolding new_big
i128_string v = dec_ℤ (new_big v.hi v.lo (is_negative v))

unfoldable pub u256_string : Parts256 → Str
u256_string v = dec (((v.hi_hi * 2 ^ 64 + v.hi_lo) * 2 ^ 64 + v.lo_hi) * 2 ^ 64 + v.lo_lo)

unfoldable pub position_key : AmmPositionState → Str
position_key p =
    p.pool_contract_id
    ++ (lit "|"
        ++ (p.address ++ (lit "|" ++ (dec_ℤ p.tick_lower ++ (lit "|" ++ dec_ℤ p.tick_upper)))))

-- A JSON round trip of the state; no state is the empty one.
unfoldable pub clone_state : Option LedgerState → LedgerState
clone_state none = empty_state
clone_state (some s) = s

-- `for len(*tokens) <= idx { append a zero token }`, for n = idx + 1
pad : ℕ → List AmmTokenReserve → List AmmTokenReserve
pad zero ts = ts
pad (suc n) [] = zero_token ∷ pad n []
pad (suc n) (t ∷ ts) = t ∷ pad n ts

modify_at : ℕ → (AmmTokenReserve → AmmTokenReserve) → List AmmTokenReserve → List AmmTokenReserve
modify_at n f [] = []
modify_at zero f (t ∷ ts) = f t ∷ ts
modify_at (suc n) f (t ∷ ts) = t ∷ modify_at n f ts

write_token : Str → Str → AmmTokenReserve → AmmTokenReserve
write_token asset_id reserve t =
    let u = (if is_empty asset_id then t else record t { asset_id = asset_id }) in
    if is_empty reserve then u else record u { reserve_raw = reserve }

unfoldable pub upsert_token : List AmmTokenReserve → ℕ → Str → Str → List AmmTokenReserve
unfolding pad modify_at write_token
upsert_token tokens idx asset_id reserve =
    modify_at idx (write_token asset_id reserve) (pad (suc idx) tokens)

unfoldable pub upsert_asset : List AmmAssetMetadata → AmmAssetMetadata → List AmmAssetMetadata
upsert_asset [] m = m ∷ []
upsert_asset (a ∷ as') m =
    if eq_str a.contract_id m.contract_id then m ∷ as' else a ∷ upsert_asset as' m

module _ (x : Xdr) where
  open x use {
    ScVal, nil_val, get_sym, get_vec, get_map, get_address, get_i128, get_u128, get_u256, get_u64,
    get_u32, get_i64, get_i32, get_bytes, has_type, depth, base64_decode, unmarshal_val,
    encode_contract, encode_account,
  }

  unfoldable pub decode_val : Str → Option ScVal
  decode_val s = do b ← base64_decode s; unmarshal_val b

  -- `key, _ := decodeVal(s)`: the zero value where the text does not decode
  unfoldable pub decode_or_zero : Str → ScVal
  decode_or_zero s = elim (decode_val s) [ none ↦ nil_val | some v ↦ v ]

  -- The recursion of `symbolOrFirst` on the fuel that the nesting of the value needs.
  symbol_within : ℕ → ScVal → Str
  symbol_within zero v = []
  symbol_within (suc f) v = elim (get_sym v) [
    | some s ↦ s
    | none ↦ elim (get_vec v) [ some (some (w ∷ ws)) ↦ symbol_within f w | _ ↦ [] ]
  ]

  unfoldable pub symbol_or_first : ScVal → Str
  unfolding symbol_within
  symbol_or_first v = symbol_within (suc (depth v)) v

  addr_text : ScAddress → Str
  addr_text (ScAddress.contract id) = encode_contract id
  addr_text (ScAddress.account id) = encode_account id
  addr_text ScAddress.other = []

  unfoldable pub addr : ScVal → Str
  unfolding addr_text
  addr v = elim (get_address v) [ none ↦ [] | some a ↦ addr_text a ]

  -- The first text of a list that is not empty, where `f` reads an element.
  abbrev pub first_given : (ScVal → Str) → List ScVal → Str
  first_given f [] = []
  first_given f (w ∷ ws) = let rest = first_given f ws in if is_empty (f w) then rest else f w

  -- What `firstUint` does with a value that is no number, given what it does with elements.
  abbrev pub vec_uint : (ScVal → Str) → Option (Option (List ScVal)) → Str
  vec_uint f (some (some ws)) = first_given f ws
  vec_uint f _ = []

  -- The number of a value, with what is done where there is none.
  abbrev pub number_or : ScVal → Str → Str
  number_or v other = elim (get_u128 v) [
    | some u ↦ u128_string u
    | none ↦ elim (get_i128 v) [
      | some i ↦ i128_string i
      | none ↦ elim (get_u256 v) [
        | some u ↦ u256_string u
        | none ↦ elim (get_u64 v) [
          | some n ↦ dec n
          | none ↦ elim (get_u32 v) [
            | some n ↦ dec n
            | none ↦ elim (get_i64 v) [
              | some z ↦ dec_ℤ z
              | none ↦ elim (get_i32 v) [ some z ↦ dec_ℤ z | none ↦ other ]
            ]
          ]
        ]
      ]
    ]
  ]

  -- The recursion of `firstUint` on the fuel that the nesting of the value needs.
  uint_within : ℕ → ScVal → Str
  uint_within zero v = []
  uint_within (suc f) v = number_or v (vec_uint (uint_within f) (get_vec v))

  unfoldable pub first_uint : ScVal → Str
  unfolding uint_within
  first_uint v = uint_within (suc (depth v)) v

  fields_onto : Dict ScVal → List (ScVal × ScVal) → Dict ScVal
  fields_onto out [] = out
  fields_onto out ((k, v) ∷ es) = fields_onto (insert (to_lower (symbol_or_first k)) v out) es

  unfoldable pub fields : ScVal → Dict ScVal
  unfolding fields_onto
  fields v = elim (get_map v) [ some (some es) ↦ fields_onto [] es | _ ↦ [] ]

  -- `f[k]` of a map of values: the zero value where the key is missing
  unfoldable pub field_of : Dict ScVal → Str → ScVal
  field_of f k = elim (lookup k f) [ none ↦ nil_val | some v ↦ v ]

  unfoldable pub addr_in_key : ScVal → Str
  addr_in_key key =
      if is_empty (addr key)
      then elim (get_vec key) [ some (some ws) ↦ first_given addr ws | _ ↦ [] ]
      else addr key

  ticks_of : List ScVal → List ℤ
  ticks_of [] = []
  ticks_of (w ∷ ws) = elim (get_i32 w) [ some i ↦ i ∷ ticks_of ws | none ↦ ticks_of ws ]

  two_ticks : List ℤ → Option (ℤ × ℤ)
  two_ticks (lo ∷ hi ∷ []) = some (lo, hi)
  two_ticks _ = none

  unfoldable pub ticks_in_key : ScVal → Option (ℤ × ℤ)
  unfolding ticks_of two_ticks
  ticks_in_key key = elim (get_vec key) [ some (some ws) ↦ two_ticks (ticks_of ws) | _ ↦ none ]

  -- One column of the token list; the columns of the old list stay.
  reserves_onto : List AmmTokenReserve → List ScVal → List AmmTokenReserve
  reserves_onto old [] = []
  reserves_onto [] (w ∷ ws) =
      (if is_empty (addr w)
        then record zero_token { reserve_raw = first_uint w }
        else record zero_token { asset_id = addr w })
      ∷ reserves_onto [] ws
  reserves_onto (r ∷ old) (w ∷ ws) =
      (if is_empty (addr w)
        then record r { reserve_raw = first_uint w }
        else record r { asset_id = addr w })
      ∷ reserves_onto old ws

  unfoldable pub decode_reserves : List AmmTokenReserve → ScVal → List AmmTokenReserve
  unfolding reserves_onto
  decode_reserves old v = elim (get_vec v) [ some (some ws) ↦ reserves_onto old ws | _ ↦ old ]

  -- `if x := f[k]; x.Type != 0 { p = write(x) }`
  abbrev when_typed : Dict ScVal → Str → (ScVal → AmmPoolState) → AmmPoolState → AmmPoolState
  when_typed f k write p = if has_type (field_of f k) then write (field_of f k) else p

  unfoldable pub decode_pool_instance : AmmPoolState → ScVal → AmmPoolState
  decode_pool_instance p v =
      let f = fields v in
      let p1 =
        when_typed f (lit "pool_type") (λ w. record p { pool_type = to_lower (symbol_or_first w) })
          p in
      let p2 = when_typed f (lit "fee") (λ w. record p1 { fee_fraction_raw = first_uint w }) p1 in
      let p3 = when_typed f (lit "a") (λ w. record p2 { amplification_raw = first_uint w }) p2 in
      let p4 =
        when_typed f (lit "tick_spacing")
          (λ w. record p3 { tick_spacing = scan_int32 (first_uint w) p3.tick_spacing }) p3 in
      let p5 =
        when_typed f (lit "pool_hash")
          (λ w. elim (get_bytes w) [ none ↦ p4 | some b ↦ record p4 { pool_hash = to_hex b } ])
          p4 in
      when_typed f (lit "tokens") (λ w. record p5 { tokens = decode_reserves p5.tokens w }) p5

  unfoldable pub decode_slot0 : AmmPoolState → ScVal → AmmPoolState
  decode_slot0 p v =
      let f = fields v in
      let active = first_uint (field_of f (lit "active_liquidity")) in
      let q = record p {
        sqrt_price_x96 = first_uint (field_of f (lit "sqrt_price_x96"));
        current_tick = scan_int32 (first_uint (field_of f (lit "tick"))) p.current_tick;
      } in
      if is_empty active then q else record q { active_liquidity_raw = active }

  -- The price of a tick where none is given and the tick is in range.
  price_or : Str → ℤ → Str
  price_or given tick =
      if is_empty given
      then elim (tick_sqrt_price_x96 tick) [ none ↦ given | some price ↦ price ]
      else given

  -- The fields of a position's value.
  position_fields : Str → ScVal → ScVal → AmmPositionState
  position_fields pool key val =
      let f = fields val in
      let at = λ (k : Str). first_uint (field_of f k) in
      record zero_position {
        pool_contract_id = pool;
        address = addr_in_key key;
        shares_raw = if is_empty (at (lit "shares")) then first_uint val else at (lit "shares");
        liquidity_raw = at (lit "liquidity");
        sqrt_price_lower_x96 = at (lit "sqrt_price_lower_x96");
        sqrt_price_upper_x96 = at (lit "sqrt_price_upper_x96");
        tick_lower = scan_int32 (at (lit "tick_lower")) (pos 0);
        tick_upper = scan_int32 (at (lit "tick_upper")) (pos 0);
        pending_fee0_raw = at (lit "tokens_owed_0");
        pending_fee1_raw = at (lit "tokens_owed_1");
      }

  -- The position, and whether it may be stored.
  unfoldable pub decode_position : Str → ScVal → ScVal → AmmPositionState × Bool
  unfolding price_or position_fields
  decode_position pool key val =
      let p = position_fields pool key val in
      let named = (if is_empty p.address then false else true) in
      if eq_str (symbol_or_first key) (lit "Position")
      then elim (ticks_in_key key) [
        | none ↦ (p, false)
        | some (lo, hi) ↦ (
          record p {
            tick_lower = lo;
            tick_upper = hi;
            sqrt_price_lower_x96 = price_or p.sqrt_price_lower_x96 lo;
            sqrt_price_upper_x96 = price_or p.sqrt_price_upper_x96 hi;
          },
          named,
        )
      ]
      else (p, named)

  -- The last address of an account in a list, "" if there is none.
  account_in : Str → List ScVal → Str
  account_in who [] = who
  account_in who (w ∷ ws) = account_in (if has_prefix (addr w) (lit "G") then addr w else who) ws

  unfoldable pub decode_reward_position : Str → ScVal → ScVal → AmmPositionState × Bool
  unfolding account_in
  decode_reward_position pool key val =
      let f = fields val in
      let who : Str = elim (get_vec key) [ some (some ws) ↦ account_in [] ws | _ ↦ [] ] in
      (
        record zero_position {
          pool_contract_id = pool;
          address = who;
          pending_reward_raw = first_uint (field_of f (lit "to_claim"));
          reward_pool_accumulated_raw = first_uint (field_of f (lit "pool_accumulated"));
        },
        if is_empty who then false else true,
      )

  is_zero : ℤ → Bool
  is_zero (pos n) = n == 0
  is_zero _ = false

  unfoldable pub asset_metadata : Str → ScVal → ScVal → Option AmmAssetMetadata
  unfolding is_zero
  asset_metadata id key val =
      if eq_str (to_lower (symbol_or_first key)) (lit "metadata")
      then (let f = fields val in
          let symbol = symbol_or_first (field_of f (lit "symbol")) in
          let d = scan_int32 (first_uint (field_of f (lit "decimal"))) (pos 0) in
          if is_empty symbol
          then none
          else some (record {
            contract_id = id;
            symbol = symbol;
            name = symbol_or_first (field_of f (lit "name"));
            decimals =
                if is_zero d then scan_int32 (first_uint (field_of f (lit "decimals"))) d else d;
          }))
      else none
