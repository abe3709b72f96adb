-- ===== src/Tests/Amm.antt =====
-- The theorems on Aquarius, applied to ledgers that write and remove ann's position in the pool P.
use lidapters.Common.{
  ◌-◌, ◌*◌, ◌/◌, ◌^◌, ◌≡◌, refl, ap, ◌∙◌, true, false, none, some, [], ◌∷◌, ◌++◌, All, inl, inr,
  map, arith, if◌then◌else◌,
}
use lidapters.Common.Int.{pos}
use lidapters.Common.Str.{Str, lit, eq_str}
use lidapters.Common.Text.{to_lower}
use lidapters.Common.Sort.{IsStrict}
use lidapters.Common.Decimal.{dec, dec_ℤ}
use lidapters.Common.Dict.{mem, lookup, insert, index_onto, less_by}
use lidapters.Bindings.State.{
  ContractDataChange, AmmPoolState, AmmPositionState, AmmTokenReserve, LedgerState, empty_state,
}
use lidapters.Bindings.Rows.{RawEventEnvelope}
use lidapters.Aquarius.Config.{Adapter, default_config, owns_contract}
use lidapters.Aquarius.Values.{
  position_key, clone_state, decode_val, symbol_or_first, addr_in_key, addr,
}
use lidapters.Aquarius.Work.{Work}
use lidapters.Aquarius.Removal.{
  is_gone, pool_of, probe, position_names, entry_name, closed_position,
}
use lidapters.Aquarius.State.{reduce, start_work}
use lidapters.Aquarius.State.Identity.{held}
use lidapters.Aquarius.State.Keeps.{TearsDown, pool_key, IsIndexed}
use lidapters.Aquarius.State.Lifecycle.{
  position_at, next_state, decode_pools-IsStrict, decode_pools_keep_had_shares,
}
use lidapters.Aquarius.State.Removals.{IsClosing, reduce-closed_position, reduce-remove_pool}
use lidapters.Aquarius.State.Refusals.{IsRefused, reduce-refuses}
use lidapters.Aquarius.Values.{ticks_in_key}
use lidapters.Aquarius.Seeds.{apply_pool_seeds}
use lidapters.Aquarius.Events.{event_eras_by_class, decode_activities}
use lidapters.Aquarius.Events.Classify.{Respects, era_in, decode_activities-era_of}
use lidapters.Aquarius.Transform.{append_range_components, principal_rows}
use lidapters.Aquarius.Transform.Ranges.{said, amount_of, append_range_components-eq}
use lidapters.Aquarius.Transform.Closes.{IsCovered, closed_position-IsCovered}
use lidapters.Aquarius.Records.{PoolJson, touched_onto, config_records, hydrate_config}
use lidapters.Aquarius.Records.RoundTrip.{
  restrict, is_recorded, IsRegistered, hydrate_config-config_records,
}
use lidapters.Tests.{
  decode_event, sym_val, contract_val, vec, more, no_more, i128_val, Val, codec, change, before,
  pool, position, event, input, decode_text, tagged, account_val,
}

abbrev adapter : Adapter
adapter = record {
  cfg = default_config;
  contracts = lit "P" ∷ [];
  assets = [];
  share_tokens = [];
  diagnostics = [];
}

abbrev removed : ContractDataChange
removed = change (lit "P") (lit "balance of ann") none (lit "Removed")

abbrev written : ContractDataChange
written = change (lit "P") (lit "balance of ann") (some (lit "ten")) (lit "Updated")

-- No text of the ledgers decodes to a key for this one.
abbrev torn_down : ContractDataChange
torn_down = change (lit "P") (lit "instance") none (lit "Removed")

abbrev balance_key : Val
balance_key = tagged (lit "Balance") (account_val (lit "ann"))

removed_calm : ¬ TearsDown codec (pos 7) removed
unfolding decode_val decode_text symbol_or_first eq_str to_lower mem
removed_calm (gone, why) = elim why [
  | inl e ↦ cc
  | inr (key, e, f, g, h) ↦
      let k : balance_key ≡ key = cc in
      let bad : true ≡ false = ap (λ v. mem (entry_name codec v) position_names) k ∙ f in cc
]

written_calm : ¬ TearsDown codec (pos 7) written
unfolding is_gone
written_calm (gone, why) = cc

decode_pools_keep_had_shares_example :
    held (
      position_at
        (next_state codec adapter (some before) (written ∷ removed ∷ []) (pos 7))
        (lit "P|ann|0|0"))
    ≡ true
unfolding eq_str clone_state position_key dec_ℤ dec
decode_pools_keep_had_shares_example =
    decode_pools_keep_had_shares codec adapter (some before) (written ∷ removed ∷ []) (pos 7)
      (lit "P|ann|0|0") (written_calm, (removed_calm, tt)) refl

decode_pools-IsStrict_example :
    let next = next_state codec adapter (some before) (written ∷ torn_down ∷ []) (pos 7) in
    IsStrict (less_by pool_key) next.amm_pools × IsStrict (less_by position_key) next.amm_positions
decode_pools-IsStrict_example =
    decode_pools-IsStrict codec adapter (some before) (written ∷ torn_down ∷ []) (pos 7)

-- The work that a ledger starts from.
abbrev started : Work
started = start_work adapter before

started-IsIndexed : IsIndexed started
unfolding position_key apply_pool_seeds index_onto insert eq_str dec_ℤ dec lookup
started-IsIndexed = record { pools = (refl, refl, tt); positions = (refl, refl, tt) }

reduce-closed_position_example :
    let next = reduce codec (pos 7) started removed in
    let k = position_key (probe codec (pool_of adapter (lit "P")) balance_key) in
    (next.pools ≡ started.pools)
    × ((j : Str) → eq_str k j ≡ false → lookup j next.positions ≡ lookup j started.positions)
    × IsClosing (lookup k started.positions) (lookup k next.positions)
unfolding owns_contract decode_val decode_text symbol_or_first eq_str to_lower mem is_gone
    addr_in_key addr apply_pool_seeds
reduce-closed_position_example =
    reduce-closed_position codec (pos 7) removed started balance_key refl refl refl refl refl

-- The removal of an entry that is not the instance.
abbrev total_removed : ContractDataChange
total_removed = change (lit "P") (lit "total") none (lit "Removed")

reduce-remove_pool_example :
    let next = reduce codec (pos 7) started total_removed in
    ((id : Str)
      → lookup id next.pools ≡ (if eq_str (lit "P") id then none else lookup id started.pools))
    × ((k : Str)
        → lookup k next.positions ≡ elim (lookup k started.positions) [
          | none ↦ none
          | some p ↦ if eq_str p.pool_contract_id (lit "P") then none else some p
        ])
unfolding to_lower symbol_or_first owns_contract decode_val decode_text eq_str mem is_gone
    apply_pool_seeds
reduce-remove_pool_example =
    reduce-remove_pool codec (pos 7) total_removed started started-IsIndexed refl
      (refl, inr (sym_val (lit "TotalShares"), refl, refl, refl, refl))

abbrev sale : RawEventEnvelope
sale = record (event (lit "P") (lit "trade")) { ledger_seq = pos 60000000 }

-- A trade of a constant-product pool, after the floor of its name.
decode_activities-era_of_example :
    Respects
      (era_in
        (lookup (lit "pool_cp") event_eras_by_class)
        (symbol_or_first codec (sym_val (lit "trade"))))
      (pos 60000000)
      (decode_activities codec adapter sale (lit "pool_cp"))
unfolding decode_event eq_str
decode_activities-era_of_example =
    decode_activities-era_of codec adapter sale (lit "pool_cp") (sym_val (lit "trade"))
      (contract_val (lit "T0") ∷ contract_val (lit "T1") ∷ account_val (lit "ann") ∷ [])
      (vec (more (i128_val 5) no_more)) refl

-- A range around the price one, and a position in it.
abbrev range_pool : AmmPoolState
range_pool = record pool { pool_type = lit "concentrated"; sqrt_price_x96 = dec (2 ^ 96) }

abbrev range_position : AmmPositionState
range_position = record position {
  liquidity_raw = dec 1000;
  sqrt_price_lower_x96 = dec (2 ^ 95);
  sqrt_price_upper_x96 = dec (2 ^ 97);
  pending_fee0_raw = dec 3;
  pending_fee1_raw = dec 0;
}

abbrev t0 : AmmTokenReserve
t0 = record { asset_id = lit "T0"; decimals = pos 7; reserve_raw = lit "100" }

abbrev t1 : AmmTokenReserve
t1 = record { asset_id = lit "T1"; decimals = pos 7; reserve_raw = lit "55" }

append_range_components-eq_example :
    map said
      (append_range_components codec (lit "group") range_position range_pool input (t0 ∷ t1 ∷ []))
    ≡ amount_of t0 (lit "range_principal") (1000 * 2 ^ 96 * (2 ^ 97 - 2 ^ 96) / (2 ^ 97 * 2 ^ 96))
      ++ (amount_of t1 (lit "range_principal") (1000 * (2 ^ 96 - 2 ^ 95) / 2 ^ 96)
          ++ (amount_of t0 (lit "unclaimed_fee") 3 ++ amount_of t1 (lit "unclaimed_fee") 0))
append_range_components-eq_example =
    append_range_components-eq codec (lit "group") range_position range_pool input 1000 (2 ^ 96)
      (2 ^ 95) (2 ^ 97) 3 0 t0 t1 []
      (record {
        liquidity = refl;
        lower = refl;
        upper = refl;
        at = refl;
        principal0 = refl;
        principal1 = refl;
        pending0 = refl;
        pending1 = refl;
      })
      (omega arith) (omega arith) (omega arith)

closed_position-IsCovered_example :
    All
      (IsCovered (principal_rows codec adapter input (closed_position position) pool).components)
      (principal_rows codec adapter input position pool).components
closed_position-IsCovered_example =
    closed_position-IsCovered codec adapter input input position pool refl

abbrev own_pool : AmmPoolState
own_pool = record pool { protocol = lit "aquarius" }

-- A codec that knows one pool.
abbrev one_pool : PoolJson
one_pool = record {
  marshal = λ p. p.contract_id;
  unmarshal = λ s. if eq_str s (lit "P") then some own_pool else none;
}

abbrev own_state : LedgerState
own_state = record before { amm_pools = own_pool ∷ [] }

hydrate_config-config_records_example :
    let kept = restrict (is_recorded adapter (touched_onto [] (written ∷ []))) (own_pool ∷ []) in
    let (a', t) =
      hydrate_config one_pool adapter
        (config_records one_pool adapter (some own_state) (written ∷ []) (pos 7)) in
    (t ≡ some (record empty_state { amm_pools = kept })) × All (IsRegistered a') kept
unfolding eq_str
hydrate_config-config_records_example =
    hydrate_config-config_records one_pool adapter adapter own_state (written ∷ []) (pos 7)
      (refl, tt)

-- The key of a range that names its owner and not its bounds.
abbrev unbounded : Val
unbounded = tagged (lit "Position") (account_val (lit "ann"))

abbrev guessed : ContractDataChange
guessed = change (lit "P") (lit "range of ann") (some (lit "ten")) (lit "Updated")

reduce-refuses_example :
    IsRefused
      (pos 7)
      (lit "P")
      (addr_in_key codec unbounded)
      started
      (reduce codec (pos 7) started guessed)
unfolding owns_contract mem eq_str is_gone decode_val decode_text lookup symbol_or_first addr_in_key
    addr ticks_in_key apply_pool_seeds
reduce-refuses_example =
    reduce-refuses codec (pos 7) guessed started unbounded (i128_val 10) {text = lit "ten"} refl
      refl refl refl refl refl refl refl refl refl
