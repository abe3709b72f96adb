-- ===== src/Tests/Positions.antt =====
-- The theorems on the positions of users, applied to a pool of two reserves and an entry of one user.
use lidapters.Common.{Bool, ◌&&◌}
use lidapters.Common.{◌≡◌, refl, true, false, none, some, [], ◌∷◌, ◌+◌, if◌then◌else◌, All}
use lidapters.Common.Int.{pos}
use lidapters.Common.Str.{Str, lit, eq_str, lt_str}
use lidapters.Common.Dict.{lookup, insert, values, IsKeyed}
use lidapters.Common.Decimal.{dec}
use lidapters.Common.IntDict.{find_int, put_int}
use lidapters.Common.Entries.{each}
use lidapters.Common.Sort.{sort_slice}
use lidapters.Common.Text.{has_suffix}
use lidapters.Bindings.State.{ContractDataChange}
use lidapters.Blend.Types.{ReserveState, zero_reserve}
use lidapters.Blend.Values.{
  sc_int32, sc_int64, sc_int_string, int128_to_string, sc_map_fields, sc_symbol, field_of,
  variant_address, sc_address, sc_val_address, sc_val_symbol,
}
use lidapters.Blend.Reserves.{
  PoolBuilder, new_pool, finalize_pool_reserves, mapping, publish, sorted_reserves, name_reserves,
  less_reserve, name_reserve, publish_reserve, count_of, known_count, published_reserve_indexes,
}
use lidapters.Blend.Reserves.Published.{
  claimants, sole, rivals, finalize_pool_reserves-claimants,
  finalize_pool_reserves-published_reserve_indexes,
}
use lidapters.Blend.Reserves.Once.{asset_of, finalize_pool_reserves-once}
use lidapters.Blend.Positions.{
  Pending, Writes, typed_user_entity_key, leg_of, entries_of, part, apply_positions,
  build_user_positions_for_pending, is_explicit_on_chain_delete, lapse_positions, mark, live_entry,
  store,
}
use lidapters.Blend.Types.{position_type_supply, position_type_collateral, position_type_liability}
use lidapters.Blend.Positions.Apart.{IsPositions}
use lidapters.Blend.Positions.Reports.{told, legs_in, build_user_positions-told}
use lidapters.Blend.Positions.Lapses.{IsArchived, lapse_positions-IsArchived}
use lidapters.Blend.Incremental.{
  Strategy, writes_of, with_writes, reseed, refresh, cached_pending, cached_users, rebuilt_pending,
  rebuilt_users,
}
use lidapters.Blend.Incremental.Applied.{NamesPlain}
use lidapters.Blend.Incremental.Reach.{Reach, Step, Reach-refresh, loaded}
use lidapters.Tests.{
  Val, num, i128_val, sym_val, account_val, map_val, entry, no_entry, codec, change,
}

-- Two assets, the first known at the index 0 and the second at no index.
abbrev known : ReserveState
known = record zero_reserve { asset_id = lit "T0"; reserve_index_known = true }

abbrev unknown : ReserveState
unknown = record zero_reserve { asset_id = lit "T1" }

abbrev pool : PoolBuilder
pool = record (new_pool (lit "P")) { reserves = (lit "T0", known) ∷ (lit "T1", unknown) ∷ [] }

-- Five of the first reserve supplied, and seven owed at an index that no reserve has.
abbrev value : Val
value = map_val (
    entry (sym_val (lit "supply")) (map_val (entry (num 0) (i128_val 5) no_entry)) (
      entry (sym_val (lit "liabilities")) (map_val (entry (num 3) (i128_val 7) no_entry)) no_entry))

abbrev held : Pending codec
held = live_entry codec (lit "ann") (lit "P") value (lit "text")

finalize_pool_reserves-claimants_example :
    let q = finalize_pool_reserves pool in
    (find_int (pos 0) q.reserve_by_index ≡ sole (claimants (pos 0) q.state.reserves))
    × (find_int (pos 0) q.ambiguous_by_index ≡ rivals (claimants (pos 0) q.state.reserves))
finalize_pool_reserves-claimants_example = finalize_pool_reserves-claimants (pos 0) pool

finalize_pool_reserves-published_reserve_indexes_example :
    let q = finalize_pool_reserves pool in
    q.reserve_by_index ≡ published_reserve_indexes q.state.reserves
finalize_pool_reserves-published_reserve_indexes_example =
    finalize_pool_reserves-published_reserve_indexes pool

published_at_zero :
    find_int (pos 0) (finalize_pool_reserves pool).reserve_by_index ≡ some (lit "T0")
unfolding finalize_pool_reserves find_int mapping publish sorted_reserves sort_slice name_reserves
    less_reserve name_reserve lt_str publish_reserve count_of known_count put_int
published_at_zero = refl

keyed_reserves : IsKeyed asset_of pool.reserves
unfolding lookup eq_str
keyed_reserves = (refl, refl, (refl, refl, tt))

finalize_pool_reserves-once_example : pos 0 ≡ pos 0
finalize_pool_reserves-once_example =
    finalize_pool_reserves-once pool (pos 0) (pos 0) (lit "T0") keyed_reserves published_at_zero
      published_at_zero

-- The debts of seven.
abbrev is_debt_of_seven : Str → Str → Bool
is_debt_of_seven kind amount = eq_str kind position_type_liability && eq_str amount (lit "7")

build_user_positions-told_example :
    told codec is_debt_of_seven
      (build_user_positions_for_pending codec (finalize_pool_reserves pool) held (some (pos 7)))
    ≡ legs_in codec is_debt_of_seven held (lit "supply") position_type_supply
      + legs_in codec is_debt_of_seven held (lit "collateral") position_type_collateral
      + legs_in codec is_debt_of_seven held (lit "liabilities") position_type_liability
build_user_positions-told_example =
    build_user_positions-told codec is_debt_of_seven (finalize_pool_reserves pool) held (pos 7)

-- The entry as it is before it lapses.
abbrev writes : Writes codec
writes = record { pending_pos = (lit "ann|P", held) ∷ []; dirty_users = [] }

abbrev evicted : ContractDataChange
evicted = change (lit "P") (lit "key") none (lit "evicted")

known_entry : lookup (typed_user_entity_key (lit "ann") (lit "P")) writes.pending_pos ≡ some held
unfolding lookup typed_user_entity_key eq_str
known_entry = refl

not_removed : is_explicit_on_chain_delete codec evicted.change_type ≡ false
unfolding is_explicit_on_chain_delete has_suffix eq_str
not_removed = refl

lapse_positions-IsArchived_example :
    let k = typed_user_entity_key (lit "ann") (lit "P") in
    let t = lapse_positions codec evicted (lit "ann") (pos 9) writes in
    (p : Pending codec) × IsArchived codec evicted (lit "ann") (pos 9) held p
    × ((j : Str)
        → lookup j t.pending_pos ≡ (if eq_str k j then some p else lookup j writes.pending_pos))
    × (t.dirty_users ≡ (mark codec (lit "ann") (lit "P") writes).dirty_users)
lapse_positions-IsArchived_example =
    lapse_positions-IsArchived codec evicted (lit "ann") (pos 9) writes held known_entry not_removed

-- A strategy before its first ledger; ann's entry is written, and then the pool appears.
abbrev empty_strategy : Strategy codec
empty_strategy = record {
  pools = [];
  pending_pos = [];
  ledger_seq = pos 0;
  diagnostics = [];
  keys = [];
  index = [];
  users_len = 0;
  pool_indexes = [];
  dirty = [];
}

abbrev seeded : Strategy codec
seeded = reseed codec (loaded codec empty_strategy)

abbrev written : Strategy codec
written = with_writes codec seeded (
    apply_positions codec (lit "P") (account_val (lit "ann") ∷ []) value (lit "text")
      (writes_of codec seeded))

abbrev with_pool : Strategy codec
with_pool = record written { pools = (lit "P", pool) ∷ []; ledger_seq = pos 7; diagnostics = [] }

plain_ann : NamesPlain codec (account_val (lit "ann") ∷ [])
unfolding variant_address sc_address sc_val_address
plain_ann user e = let same : lit "ann" ≡ user = cc in rw (← same) (refl, (refl, (refl, tt)))

with_pool-Reach : Reach codec with_pool
unfolding lookup
with_pool-Reach =
    Reach.next
      (Reach.next
        (Reach.seeded empty_strategy (record { held = tt; once = tt; pools_once = tt; filed = tt }))
        (Step.live seeded (lit "P") (account_val (lit "ann") ∷ []) value (lit "text") plain_ann))
      (Step.other written ((lit "P", pool) ∷ []) (pos 7) [] (refl, tt) (keyed_reserves, tt))

held-IsPositions : IsPositions codec held
unfolding part entries_of field_of sc_map_fields sc_symbol sc_val_symbol insert lookup eq_str leg_of
    sc_int32 sc_int64 sc_int_string int128_to_string dec
held-IsPositions = record { supply = (tt, tt); collateral = tt; liabilities = (tt, tt) }

with_pool_entries : All (IsPositions codec) (values with_pool.pending_pos)
unfolding reseed apply_positions store variant_address sc_address sc_val_address insert each
with_pool_entries = (held-IsPositions, tt)

Reach-refresh_example :
    (cached_pending codec (refresh codec with_pool) ≡ rebuilt_pending codec with_pool)
    × (cached_users codec (refresh codec with_pool) ≡ rebuilt_users codec with_pool)
Reach-refresh_example = Reach-refresh codec with_pool-Reach with_pool_entries
