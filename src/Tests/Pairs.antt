-- ===== src/Tests/Pairs.antt =====
-- The theorems on Soroswap's state, applied to a ledger that trades with and closes ann's position.
use lidapters.Common.{◌≡◌, refl, true, none, some, List, [], ◌∷◌, ◌++◌, if◌then◌else◌}
use lidapters.Common.Int.{pos}
use lidapters.Common.Str.{Str, lit, eq_str, lt_str}
use lidapters.Common.Sort.{IsStrict, sort_slice, insert_by}
use lidapters.Common.Decimal.{dec, dec_ℤ}
use lidapters.Common.Dict.{mem, lookup, insert, index_onto, less_by}
use lidapters.Bindings.State.{ContractDataChange, upsert, removal}
use lidapters.Soroswap.Config.{Adapter, default_config, owns_contract}
use lidapters.Soroswap.Values.{
  position_key, clone_state, balance_holder, decode_val, i128_string, int128_string, addr, join128,
}
use lidapters.Soroswap.State.{
  Work, had, new_position, reduce, decode_state, start_work, discover_all, discover, reduce_all,
  pair_write, removed_write, live_write, balance_write, upsert_position, tombstone_position,
  renewed, closed_out, less_dirty,
}
use lidapters.Soroswap.State.Keyed.{pool_key, decode_state-IsStrict}
use lidapters.Soroswap.State.Lifecycle.{
  position_at, pool_at, held_at, next_state, decode_state_keeps_had_shares, decode_state_archival,
}
use lidapters.Soroswap.State.Dirty.{dirty_key, decode_state_clean, decode_state_reported}
use lidapters.Soroswap.State.Balances.{key_of, reduce_removed, reduce_balance}
use lidapters.Soroswap.State.Discovery.{Registers, decode_state_discovers}
use lidapters.Common.{◌↔◌, ◌⊎◌, All, Any, is_some}
use lidapters.Tests.{codec, change, before, decode_text, tagged, account_val, i128_val}

abbrev pub adapter : Adapter
adapter = record {
  cfg = default_config;
  factories = lit "F" ∷ [];
  routers = [];
  pairs = lit "P" ∷ [];
  assets = [];
  dirty = [];
}

abbrev removed : ContractDataChange
removed = change (lit "P") (lit "balance of ann") none (lit "Removed")

abbrev evicted : ContractDataChange
evicted = change (lit "P") (lit "balance of ann") none (lit "Evicted")

abbrev written : ContractDataChange
written = change (lit "P") (lit "balance of ann") (some (lit "ten")) (lit "Updated")

abbrev ledger : List ContractDataChange
ledger = written ∷ removed ∷ evicted ∷ []

decode_state_keeps_had_shares_example :
    held_at (next_state codec adapter (some before) ledger (pos 7)) (lit "P|ann") ≡ true
unfolding eq_str clone_state position_key
decode_state_keeps_had_shares_example =
    decode_state_keeps_had_shares codec adapter (some before) ledger (pos 7) (lit "P|ann") refl

decode_state_archival_example :
    let (a', next) = decode_state codec adapter (some before) (evicted ∷ []) (pos 7) in
    ((k : Str) → position_at next k ≡ position_at before k)
    × ((id : Str) → pool_at next id ≡ pool_at before id)
    × (next.amm_assets ≡ before.amm_assets)
    × (a'.dirty ≡ [])
unfolding eq_str position_key clone_state
decode_state_archival_example =
    decode_state_archival codec adapter (some before) (evicted ∷ []) (pos 7) ((refl, refl), tt)

decode_state_clean_example :
    position_at (next_state codec adapter (some before) ledger (pos 7)) (lit "P|bob")
    ≡ position_at before (lit "P|bob")
unfolding decode_state clone_state discover_all discover reduce_all reduce owns_contract pair_write
    removed_write live_write balance_write balance_holder decode_val decode_text i128_string
    int128_string join128 addr upsert_position tombstone_position renewed closed_out position_key
    mem lookup insert index_onto sort_slice insert_by less_dirty eq_str lt_str dec dec_ℤ
decode_state_clean_example =
    decode_state_clean codec adapter (some before) ledger (pos 7) (lit "P|bob") (refl, (refl, tt))

decode_state-IsStrict_example :
    let next = next_state codec adapter (some before) ledger (pos 7) in
    IsStrict (less_by pool_key) next.amm_pools × IsStrict (less_by position_key) next.amm_positions
decode_state-IsStrict_example = decode_state-IsStrict codec adapter (some before) ledger (pos 7)

abbrev start : Work
start = start_work before

reduce_removed_example :
    let k = key_of (lit "P") (lit "ann") in
    let w' = reduce codec adapter start removed in
    ((j : Str)
      → lookup j w'.positions ≡ (
          if eq_str k j
          then some (record (new_position (lit "P") (lit "ann") (lit "0")) {
            had_shares = had (lookup k start.positions);
          })
          else lookup j start.positions))
    × (w'.pools ≡ start.pools)
    × (w'.dirty
        ≡ start.dirty
          ++ (record { address = lit "ann"; pool_contract_id = lit "P"; kind = removal }) ∷ [])
unfolding mem eq_str decode_val lookup balance_holder addr decode_text
reduce_removed_example =
    reduce_removed codec adapter start removed (tagged (lit "Balance") (account_val (lit "ann")))
      refl refl refl refl refl

reduce_balance_example :
    let k = key_of (lit "P") (lit "ann") in
    let w' = reduce codec adapter start written in
    ((j : Str)
      → lookup j w'.positions ≡ (
          if eq_str k j
          then some (record (new_position (lit "P") (lit "ann") (lit "10")) {
            had_shares =
                if eq_str (lit "10") (lit "0") then had (lookup k start.positions) else true;
          })
          else lookup j start.positions))
    × (w'.pools ≡ start.pools)
    × (w'.dirty
        ≡ start.dirty
          ++ (record { address = lit "ann"; pool_contract_id = lit "P"; kind = upsert }) ∷ [])
unfolding mem eq_str decode_val lookup balance_holder addr decode_text i128_string int128_string
    dec_ℤ dec join128
reduce_balance_example =
    reduce_balance codec adapter start written (tagged (lit "Balance") (account_val (lit "ann")))
      refl refl refl refl {value = lit "ten"} {val = i128_val 10} refl refl refl refl refl

abbrev registered : ContractDataChange
registered = change (lit "F") (lit "registry") (some (lit "pair Q")) (lit "Created")

decode_state_discovers_example :
    (mem (lit "Q") (decode_state codec adapter (some before) (registered ∷ ledger) (pos 7)).0.pairs
      ≡ true)
    ↔ ((mem (lit "Q") adapter.pairs ≡ true)
        ⊎ Any (Registers codec adapter.factories (lit "Q")) (registered ∷ ledger))
decode_state_discovers_example =
    decode_state_discovers codec adapter (some before) (registered ∷ ledger) (pos 7) (lit "Q")

decode_state_reported_example :
    All
      (λ d.
        is_some (position_at (next_state codec adapter (some before) ledger (pos 7)) (dirty_key d))
        ≡ true)
      (decode_state codec adapter (some before) ledger (pos 7)).0.dirty
decode_state_reported_example = decode_state_reported codec adapter (some before) ledger (pos 7)
