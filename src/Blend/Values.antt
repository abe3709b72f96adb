-- ===== src/Blend/Values.antt =====
-- blend/state.go and blend/decode.go: reading XDR values. `v.Type` selects the one accessor that
-- answers.
use lidapters.Common.{
  ℕ, ◌+◌, ◌*◌, ◌^◌, Bool, ◌||◌, Option, none, some, List, [], ◌∷◌, ltb, if◌then◌else◌, ◌>>=◌,
}
use lidapters.Common.Int.{ℤ, pos, negsuc, sub_ℕ, ltb_ℤ}
use lidapters.Common.Str.{Str, is_empty}
use lidapters.Common.Decimal.{dec, dec_ℤ, set_string}
use lidapters.Common.Dict.{Dict, lookup, insert}
use lidapters.Xdr.{Xdr, ScAddress, Parts128}

unfoldable pub uint128_to_string : Parts128 → Str
uint128_to_string v = dec (v.hi * 2 ^ 64 + v.lo)

-- A high half with its top bit set stands for itself less 2^64.
unfoldable pub int128_to_string : Parts128 → Str
int128_to_string v =
    if ltb v.hi (2 ^ 63)
    then dec (v.hi * 2 ^ 64 + v.lo)
    else dec_ℤ (sub_ℕ (v.hi * 2 ^ 64 + v.lo) (2 ^ 128))

-- `strconv.ParseInt(s, 10, 64)`
unfoldable pub parse_int64 : Str → Option ℤ
parse_int64 s = elim (set_string s) [
  | none ↦ none
  | some (pos n) ↦ if ltb n (2 ^ 63) then some (pos n) else none
  | some (negsuc n) ↦ if ltb n (2 ^ 63) then some (negsuc n) else none
]

module _ (x : Xdr) where
  open x use {
    ScVal, nil_val, get_sym, get_str, get_vec, get_map, get_address, get_i128, get_u128, get_u64,
    get_u32, get_i64, get_i32, get_timepoint, get_duration, get_bool, base64_decode, unmarshal_val,
    encode_contract, encode_account,
  }

  unfoldable pub decode_sc_val_base64 : Str → Option ScVal
  decode_sc_val_base64 raw =
      if is_empty raw then none else (do b ← base64_decode raw; unmarshal_val b)

  unfoldable pub sc_val_symbol : ScVal → Str
  sc_val_symbol v = elim (get_sym v) [
    | some s ↦ s
    | none ↦ elim (get_str v) [ some s ↦ s | none ↦ [] ]
  ]

  unfoldable pub sc_symbol : ScVal → Option Str
  unfolding sc_val_symbol
  sc_symbol v = if is_empty (sc_val_symbol v) then none else some (sc_val_symbol v)

  address_text : ScAddress → Str
  address_text (ScAddress.account id) = encode_account id
  address_text (ScAddress.contract id) = encode_contract id
  address_text ScAddress.other = []

  unfoldable pub sc_val_address : ScVal → Str
  unfolding address_text
  sc_val_address v = elim (get_address v) [ none ↦ [] | some a ↦ address_text a ]

  unfoldable pub sc_address : ScVal → Option Str
  unfolding sc_val_address
  sc_address v = if is_empty (sc_val_address v) then none else some (sc_val_address v)

  -- The text of a number of 64 bits or less.
  abbrev pub small_text : ScVal → Option Str
  small_text v = elim (get_u32 v) [
    | some n ↦ some (dec n)
    | none ↦ elim (get_i32 v) [
      | some z ↦ some (dec_ℤ z)
      | none ↦ elim (get_u64 v) [
        | some n ↦ some (dec n)
        | none ↦ elim (get_i64 v) [ some z ↦ some (dec_ℤ z) | none ↦ none ]
      ]
    ]
  ]

  -- The text of a number of 128 bits, or of a time.
  abbrev pub other_text : ScVal → Option Str
  other_text v = elim (get_u128 v) [
    | some u ↦ some (uint128_to_string u)
    | none ↦ elim (get_i128 v) [
      | some i ↦ some (int128_to_string i)
      | none ↦ elim (get_timepoint v) [
        | some n ↦ some (dec n)
        | none ↦ elim (get_duration v) [ some n ↦ some (dec n) | none ↦ none ]
      ]
    ]
  ]

  unfoldable pub sc_int_string : ScVal → Option Str
  sc_int_string v = elim (small_text v) [ some s ↦ some s | none ↦ other_text v ]

  -- A number of 128 bits goes through its text.
  abbrev pub wide_int : ScVal → Option ℤ
  wide_int v = elim (get_u128 v) [
    | some u ↦ parse_int64 (uint128_to_string u)
    | none ↦ elim (get_i128 v) [ some i ↦ parse_int64 (int128_to_string i) | none ↦ none ]
  ]

  unfoldable pub sc_int64 : ScVal → Option ℤ
  sc_int64 v = elim (get_u32 v) [
    | some n ↦ some (pos n)
    | none ↦ elim (get_i32 v) [
      | some z ↦ some z
      | none ↦ elim (get_u64 v) [
        | some n ↦ if ltb n (2 ^ 63) then some (pos n) else none
        | none ↦ elim (get_i64 v) [ some z ↦ some z | none ↦ wide_int v ]
      ]
    ]
  ]

  -- `value < -2147483648 || value > 2147483647`
  abbrev pub is_beyond_int32 : ℤ → Bool
  is_beyond_int32 z = ltb_ℤ z (negsuc 2147483647) || ltb_ℤ (pos 2147483647) z

  unfoldable pub sc_int32 : ScVal → Option ℤ
  sc_int32 v = elim (sc_int64 v) [
    | none ↦ none
    | some z ↦ if is_beyond_int32 z then none else some z
  ]

  -- One entry of a map: what is no symbol is skipped.
  abbrev pub add_field : ScVal × ScVal → Dict ScVal → Dict ScVal
  add_field (k, v) out = elim (sc_symbol k) [ none ↦ out | some name ↦ insert name v out ]

  fields_onto : Dict ScVal → List (ScVal × ScVal) → Dict ScVal
  fields_onto out [] = out
  fields_onto out (e ∷ es) = fields_onto (add_field e out) es

  -- A nil map is read like an empty one.
  unfoldable pub sc_map_fields : ScVal → Dict ScVal
  unfolding fields_onto
  sc_map_fields v = elim (get_map v) [ some (some es) ↦ fields_onto [] es | _ ↦ [] ]

  -- `fields[name]`: the zero value where the name is missing
  unfoldable pub field_of : Dict ScVal → Str → ScVal
  field_of fields name = elim (lookup name fields) [ none ↦ nil_val | some v ↦ v ]

  variant_of : List ScVal → Option (Str × List ScVal)
  variant_of [] = none
  variant_of (v ∷ vs) = elim (sc_symbol v) [ none ↦ none | some name ↦ some (name, vs) ]

  unfoldable pub sc_variant : ScVal → Option (Str × List ScVal)
  unfolding variant_of
  sc_variant v = elim (get_vec v) [ some (some vs) ↦ variant_of vs | _ ↦ none ]

  unfoldable pub variant_address : List ScVal → Option Str
  variant_address [] = none
  variant_address (v ∷ vs) = sc_address v

  unfoldable pub variant_u32 : List ScVal → Option ℕ
  variant_u32 [] = none
  variant_u32 (v ∷ vs) = elim (sc_int32 v) [ some (pos n) ↦ some n | _ ↦ none ]
