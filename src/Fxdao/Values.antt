-- ===== src/Fxdao/Values.antt =====
-- fxdao/state.go: reading XDR values and matching the keys of the vaults contract.
use lidapters.Common.{
  ℕ, ◌+◌, ◌*◌, ◌^◌, Option, none, some, List, [], ◌∷◌, ◌++◌, if◌then◌else◌, ◌>>=◌,
}
use lidapters.Common.Str.{Str, lit, eq_str, is_empty}
use lidapters.Common.Dict.{Dict, lookup, insert}
use lidapters.Common.Decimal.{dec}
use lidapters.Xdr.{Xdr, ScAddress, Parts128}
use lidapters.Bindings.State.{LedgerState, empty_state}

unfoldable pub vault_key : Str → Str → Str → Str
vault_key contract_id account denom = contract_id ++ (lit "|" ++ (account ++ (lit "|" ++ denom)))

-- A JSON round trip of the state; no state is the empty one.
unfoldable pub clone_state : Option LedgerState → LedgerState
clone_state none = empty_state
clone_state (some s) = s

-- The two halves joined; `lo` fills the 64 bits that the shift leaves zero, so `Or` adds it.
unfoldable pub join128 : Parts128 → ℕ
join128 p = p.hi * 2 ^ 64 + p.lo

module _ (x : Xdr) where
  open x use {
    ScVal, nil_val, get_sym, get_vec, get_map, get_address, get_u128, get_u64, get_u32,
    base64_decode, unmarshal_val, encode_contract, encode_account,
  }

  unfoldable pub decode_val : Str → Option ScVal
  decode_val s = do b ← base64_decode s; unmarshal_val b

  addr_text : ScAddress → Str
  addr_text (ScAddress.contract id) = encode_contract id
  addr_text (ScAddress.account id) = encode_account id
  addr_text ScAddress.other = []

  unfoldable pub addr : ScVal → Str
  unfolding addr_text
  addr v = elim (get_address v) [ none ↦ [] | some a ↦ addr_text a ]

  unfoldable pub uint_string : ScVal → Str
  uint_string v = elim (get_u128 v) [
    | some u ↦ dec (join128 u)
    | none ↦ elim (get_u64 v) [
      | some n ↦ dec n
      | none ↦ elim (get_u32 v) [ some n ↦ dec n | none ↦ [] ]
    ]
  ]

  -- Only the entries whose key is a symbol.
  fields_onto : Dict ScVal → List (ScVal × ScVal) → Dict ScVal
  fields_onto out [] = out
  fields_onto out ((k, v) ∷ es) =
      fields_onto (elim (get_sym k) [ none ↦ out | some s ↦ insert s v out ]) es

  unfoldable pub fields : ScVal → Dict ScVal
  unfolding fields_onto
  fields v = elim (get_map v) [ some (some es) ↦ fields_onto [] es | _ ↦ [] ]

  -- `f[k]` of a map of values: the zero value where the key is missing
  unfoldable pub field_of : Dict ScVal → Str → ScVal
  field_of f k = elim (lookup k f) [ none ↦ nil_val | some v ↦ v ]

  -- The payload of a two-element vector whose first element is the symbol `tag`.
  tagged_list : Str → List ScVal → Option ScVal
  tagged_list tag (t ∷ v ∷ []) = elim (get_sym t) [
    | none ↦ none
    | some s ↦ if eq_str s tag then some v else none
  ]
  tagged_list tag _ = none

  tagged : Str → ScVal → Option ScVal
  unfolding tagged_list
  tagged tag key = elim (get_vec key) [ some (some vec) ↦ tagged_list tag vec | _ ↦ none ]

  -- The account, if there is one, and the denomination of a key.
  owner_of : ScVal → ScVal → Option (Str × Str)
  owner_of who denom = elim (get_sym denom) [
    | none ↦ none
    | some d ↦ if is_empty (addr who) then none else some (addr who, d)
  ]

  owner_of_list : List ScVal → Option (Str × Str)
  owner_of_list (who ∷ denom ∷ []) = owner_of who denom
  owner_of_list _ = none

  -- `Vec[Symbol("Vault"), Vec[Address, Symbol]]`
  unfoldable pub vault_entry_key : ScVal → Option (Str × Str)
  unfolding tagged owner_of owner_of_list
  vault_entry_key key = elim (tagged (lit "Vault") key) [
    | none ↦ none
    | some v ↦ elim (get_vec v) [ some (some tuple) ↦ owner_of_list tuple | _ ↦ none ]
  ]

  -- `Vec[Symbol("VaultIndex"), Map{denomination, user}]`
  unfoldable pub vault_index_entry_key : ScVal → Option (Str × Str)
  unfolding tagged owner_of
  vault_index_entry_key key = elim (tagged (lit "VaultIndex") key) [
    | none ↦ none
    | some v ↦
        let f = fields v in owner_of (field_of f (lit "user")) (field_of f (lit "denomination"))
  ]

  -- `Vec[Symbol("VaultsInfo"), Symbol]`
  unfoldable pub vaults_info_entry_key : ScVal → Option Str
  unfolding tagged
  vaults_info_entry_key key = do v ← tagged (lit "VaultsInfo") key; get_sym v
