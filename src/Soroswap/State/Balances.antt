-- ===== src/Soroswap/State/Balances.antt =====
-- soroswap/state.go, `DecodeState`: one change of an LP balance entry.
use lidapters.Common.{◌≡◌, refl, ◌∙◌, true, false, none, some, [], ◌∷◌, ◌++◌, arith, if◌then◌else◌}
use lidapters.Common.Str.{Str, lit, eq_str, is_empty}
use lidapters.Common.Dict.{lookup, lookup-insert, mem}
use lidapters.Xdr.{Xdr}
use lidapters.Bindings.State.{ContractDataChange, upsert, removal}
use lidapters.Soroswap.Config.{Adapter, owns_contract}
use lidapters.Soroswap.Values.{position_key, balance_holder, i128_string, decode_val}
use lidapters.Soroswap.State.{
  Work, had, new_position, renewed, closed_out, upsert_position, tombstone_position, balance_write,
  live_write, removed_write, pair_write, reduce,
}

-- The key under which a pair's position of a holder is kept.
abbrev pub key_of : Str → Str → Str
key_of pair holder = pair ++ (lit "|" ++ holder)

module _ (x : Xdr) (a : Adapter) (w : Work) (c : ContractDataChange) (key : x.ScVal)
    (pair : mem c.contract_id a.pairs ≡ true) (plain : mem c.contract_id a.assets ≡ false)
    (named : decode_val x c.key_xdr ≡ some key)
    (held : is_empty (balance_holder x key) ≡ false) where
  reduce_pair : reduce x a w c ≡ pair_write x a c w
  unfolding reduce owns_contract
  reduce_pair = ground arith

  -- A removal, on a registered pair that is no asset contract, of an entry whose key decodes and
  -- names a holder leaves the holder's position with zero shares and with what was known of
  -- whether it held any; it touches no other position and no pool, and is reported.
  pub reduce_removed :
      eq_str c.change_type (lit "Removed") ≡ true
      → let holder = balance_holder x key in
        let k = key_of c.contract_id holder in
        let w' = reduce x a w c in
        ((j : Str)
          → lookup j w'.positions ≡ (
              if eq_str k j
              then some (record (new_position c.contract_id holder (lit "0")) {
                had_shares = had (lookup k w.positions);
              })
              else lookup j w.positions))
        × (w'.pools ≡ w.pools)
        × (w'.dirty
            ≡ w.dirty
              ++ (record { address = holder; pool_contract_id = c.contract_id; kind = removal })
                ∷ [])
  reduce_removed gone =
      let holder = balance_holder x key in
      let e : reduce x a w c ≡ tombstone_position c.contract_id holder w =
        reduce_pair ∙ (unfold pair_write removed_write in ground arith) in
      rw e (
        unfold tombstone_position closed_out position_key in
        (λ j. lookup-insert (key_of c.contract_id holder) j _ w.positions, refl, refl))

  -- A change that is no removal, on a registered pair that is no asset contract, of an entry whose
  -- key decodes and names a holder and whose value decodes to an amount and is no contract
  -- instance, leaves the holder's position with that amount of shares; it has held shares if it
  -- had before or the amount is not zero. The change touches no other position and no pool, and is
  -- reported.
  pub reduce_balance :
      {value : Str} {val : x.ScVal}
      → eq_str c.change_type (lit "Removed") ≡ false
      → c.value_xdr ≡ some value
      → decode_val x value ≡ some val
      → x.get_instance val ≡ none
      → is_empty (i128_string x val) ≡ false
      → let holder = balance_holder x key in
        let shares = i128_string x val in
        let k = key_of c.contract_id holder in
        let w' = reduce x a w c in
        ((j : Str)
          → lookup j w'.positions ≡ (
              if eq_str k j
              then some (record (new_position c.contract_id holder shares) {
                had_shares = if eq_str shares (lit "0") then had (lookup k w.positions) else true;
              })
              else lookup j w.positions))
        × (w'.pools ≡ w.pools)
        × (w'.dirty
            ≡ w.dirty
              ++ (record { address = holder; pool_contract_id = c.contract_id; kind = upsert })
                ∷ [])
  reduce_balance {value} {val} here v d i n =
      let holder = balance_holder x key in
      let e : reduce x a w c ≡ upsert_position c.contract_id holder (i128_string x val) w =
        reduce_pair ∙ (unfold pair_write live_write balance_write in ground arith) in
      rw e (
        unfold upsert_position renewed position_key in
        (λ j. lookup-insert (key_of c.contract_id holder) j _ w.positions, refl, refl))
