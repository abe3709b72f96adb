-- ===== src/Soroswap/Values.antt =====
-- soroswap/state.go: reading XDR values, and the updates of token and asset lists.
pub mod Scalars
use lidapters.Common.{
  ℕ, zero, suc, ◌+◌, ◌*◌, ◌^◌, Option, none, some, List, [], ◌∷◌, ◌++◌, ltb, if◌then◌else◌, ◌>>=◌,
}
use lidapters.Common.Int.{ℤ, pos, sub_ℕ}
use lidapters.Common.Str.{Str, lit, eq_str, is_empty}
use lidapters.Common.Dict.{Dict, lookup, insert}
use lidapters.Common.Decimal.{dec, dec_ℤ}
use lidapters.Xdr.{Xdr, ScAddress, contract, account, other, Parts128}
use lidapters.Bindings.State.{
  AmmAssetMetadata, AmmTokenReserve, AmmPositionState, LedgerState, zero_token, empty_state,
}

-- The two halves joined; `lo` fills the 64 bits that the shift leaves zero, so `Or` adds it.
unfoldable pub join128 : Parts128 → ℕ
join128 p = p.hi * 2 ^ 64 + p.lo

unfoldable pub int128_string : Parts128 → Str
unfolding join128
int128_string v = dec_ℤ (if ltb v.hi (2 ^ 63) then pos (join128 v) else sub_ℕ (join128 v) (2 ^ 128))

unfoldable pub position_key : AmmPositionState → Str
position_key p = p.pool_contract_id ++ (lit "|" ++ p.address)

-- A JSON round trip of the state; no state is the empty one.
unfoldable pub clone_state : Option LedgerState → LedgerState
clone_state none = empty_state
clone_state (some s) = s

-- `for len(*tokens) <= idx { append a zero token }`, for n = idx + 1
pad : ℕ → List AmmTokenReserve → List AmmTokenReserve
pad zero ts = ts
pad (suc n) [] = zero_token ∷ pad n []
pad (suc n) (t ∷ ts) = t ∷ pad n ts

modify_at : ℕ → (AmmTokenReserve → AmmTokenReserve) → List AmmTokenReserve → List AmmTokenReserve
modify_at n f [] = []
modify_at zero f (t ∷ ts) = f t ∷ ts
modify_at (suc n) f (t ∷ ts) = t ∷ modify_at n f ts

write_token : Str → Str → AmmTokenReserve → AmmTokenReserve
write_token asset_id reserve t =
    let u = (if is_empty asset_id then t else record t { asset_id = asset_id }) in
    if is_empty reserve then u else record u { reserve_raw = reserve }

unfoldable pub upsert_token : List AmmTokenReserve → ℕ → Str → Str → List AmmTokenReserve
unfolding pad modify_at write_token
upsert_token tokens idx asset_id reserve =
    modify_at idx (write_token asset_id reserve) (pad (suc idx) tokens)

unfoldable pub upsert_asset : List AmmAssetMetadata → AmmAssetMetadata → List AmmAssetMetadata
upsert_asset [] m = m ∷ []
upsert_asset (a ∷ as') m =
    if eq_str a.contract_id m.contract_id then m ∷ as' else a ∷ upsert_asset as' m

module _ (x : Xdr) where
  open x use {
    ScVal, nil_val, get_sym, get_str, get_vec, get_map, get_address, get_i128, get_u128, get_u64,
    get_u32, depth, base64_decode, unmarshal_val, encode_contract, encode_account,
  }

  unfoldable pub decode_val : Str → Option ScVal
  decode_val s = do b ← base64_decode s; unmarshal_val b

  -- The recursion of `symbolOrFirst` on the fuel that the nesting of the value needs.
  symbol_within : ℕ → ScVal → Str
  symbol_within zero v = []
  symbol_within (suc f) v = elim (get_sym v) [
    | some s ↦ s
    | none ↦ elim (get_vec v) [ some (some (w ∷ ws)) ↦ symbol_within f w | _ ↦ [] ]
  ]

  unfoldable pub symbol_or_first : ScVal → Str
  unfolding symbol_within
  symbol_or_first v = symbol_within (suc (depth v)) v

  addr_text : ScAddress → Str
  addr_text (contract id) = encode_contract id
  addr_text (account id) = encode_account id
  addr_text other = []

  unfoldable pub addr : ScVal → Str
  unfolding addr_text
  addr v = elim (get_address v) [ none ↦ [] | some a ↦ addr_text a ]

  unfoldable pub i128_string : ScVal → Str
  i128_string v = elim (get_i128 v) [
    | some i ↦ int128_string i
    | none ↦ elim (get_u128 v) [
      | some u ↦ dec (join128 u)
      | none ↦ elim (get_u64 v) [
        | some n ↦ dec n
        | none ↦ elim (get_u32 v) [ some n ↦ dec n | none ↦ [] ]
      ]
    ]
  ]

  fields_onto : Dict ScVal → List (ScVal × ScVal) → Dict ScVal
  fields_onto out [] = out
  fields_onto out ((k, v) ∷ es) = fields_onto (insert (symbol_or_first k) v out) es

  unfoldable pub fields : ScVal → Dict ScVal
  unfolding fields_onto
  fields v = elim (get_map v) [ some (some es) ↦ fields_onto [] es | _ ↦ [] ]

  -- `f[k]` of a map of values: the zero value where the key is missing
  unfoldable pub field_of : Dict ScVal → Str → ScVal
  field_of f k = elim (lookup k f) [ none ↦ nil_val | some v ↦ v ]

  unfoldable pub string_or_symbol : ScVal → Str
  string_or_symbol v = elim (get_str v) [
    | some s ↦ s
    | none ↦ elim (get_sym v) [ some s ↦ s | none ↦ [] ]
  ]

  -- `Vec[Symbol("Balance"), Address]`
  holder_of : List ScVal → Str
  holder_of (tag ∷ who ∷ []) = elim (get_sym tag) [
    | none ↦ []
    | some s ↦ if eq_str s (lit "Balance") then addr who else []
  ]
  holder_of _ = []

  unfoldable pub balance_holder : ScVal → Str
  unfolding holder_of
  balance_holder key = elim (get_vec key) [ some (some vec) ↦ holder_of vec | _ ↦ [] ]

  -- int32(d) of a uint32
  abbrev to_int32 : ℕ → ℤ
  to_int32 d = if ltb d (2 ^ 31) then pos d else sub_ℕ d (2 ^ 32)

  unfoldable pub asset_metadata : Str → ScVal → ScVal → Option AmmAssetMetadata
  asset_metadata id key val =
      if eq_str (symbol_or_first key) (lit "METADATA")
      then (let f = fields val in
          let symbol = string_or_symbol (field_of f (lit "symbol")) in
          if is_empty symbol
          then none
          else some (record {
            contract_id = id;
            symbol = symbol;
            name = string_or_symbol (field_of f (lit "name"));
            decimals = elim (get_u32 (field_of f (lit "decimal"))) [
              | none ↦ pos 0
              | some d ↦ to_int32 d
            ];
          }))
      else none
