-- ===== src/Blend/Feeds.antt =====
-- blend/state_reflector.go: the carried rounds of a price feed, and the price that an aggregator
-- serves from them.
pub mod Guard
pub mod Rescale
pub mod Serves
pub mod Fuel
use lidapters.Common.{
  ℕ, zero, suc, ◌+◌, ◌-◌, ◌*◌, ◌/◌, ◌%◌, ◌^◌, Bool, true, false, not, ◌&&◌, ◌||◌, Option, none,
  some, List, [], ◌∷◌, ltb, leb, ◌==◌, if◌then◌else◌,
}
use lidapters.Common.Int.{ℤ, pos, negsuc, ◌-ℤ◌, ltb_ℤ, pos_part, neg_part}
use lidapters.Common.Str.{Str, lit, eq_str}
use lidapters.Common.Decimal.{dec, set_string}
use lidapters.Common.Dict.{Dict, lookup}
use lidapters.Common.IntDict.{IntDict, find_int, put_int}

-- A number as a signed one of 2w bits, for m = 2^(2w - 1): two's complement.
abbrev pub wrap : ℕ → ℤ → ℤ
wrap m z =
    let bits : ℕ = (elim z [ pos n ↦ n % (2 * m) | negsuc n ↦ 2 * m - 1 - n % (2 * m) ]) in
    if ltb bits m then pos bits else negsuc (2 * m - 1 - bits)

abbrev pub wrap64 : ℤ → ℤ
wrap64 = wrap (2 ^ 63)

abbrev pub wrap32 : ℤ → ℤ
wrap32 = wrap (2 ^ 31)

-- The price of an asset index in a round, by the round's time in milliseconds.
pub record Feed : Type 0 where
  pub decimals : ℤ
  pub last_round_ms : ℤ
  pub asset_to_index : Dict ℤ
  pub rounds : IntDict (IntDict Str)

pub record AggregatorFeedRef : Type 0 where
  pub index : ℤ
  pub contract_id : Str
  pub decimals : ℤ
  pub resolution_s : ℤ

pub record AggregatorAssetConfig : Type 0 where
  pub asset_id : Str
  pub feed_asset_key : Str
  pub oracle_index : ℤ
  pub max_dev : ℤ

pub record Aggregator : Type 0 where
  pub decimals : ℤ
  pub max_age_s : ℤ
  pub base_key : Str
  pub base_assets : List Str
  pub feeds : IntDict AggregatorFeedRef
  pub assets : Dict AggregatorAssetConfig

-- The prices merged over what a round has.
unfoldable pub merge_round : IntDict Str → IntDict Str → IntDict Str
merge_round round [] = round
merge_round round ((i, raw) ∷ prices) = merge_round (put_int i raw round) prices

unfoldable pub set_round : ℤ → IntDict Str → Feed → Feed
set_round ts prices f =
    let round : IntDict Str = elim (find_int ts f.rounds) [ none ↦ [] | some r ↦ r ] in
    record f {
      rounds = put_int ts (merge_round round prices) f.rounds;
      last_round_ms = if ltb_ℤ f.last_round_ms ts then ts else f.last_round_ms;
    }

pub is_positive : ℤ → Bool
is_positive (pos zero) = false
is_positive (pos (suc n)) = true
is_positive (negsuc n) = false

unfoldable pub is_positive_int_string : Str → Bool
unfolding is_positive
is_positive_int_string s = elim (set_string s) [ none ↦ false | some n ↦ is_positive n ]

unfoldable pub positive_price : Feed → ℤ → ℤ → Option Str
positive_price f ts index = elim (find_int ts f.rounds) [
  | none ↦ none
  | some round ↦ elim (find_int index round) [
    | none ↦ none
    | some raw ↦ if is_positive_int_string raw then some raw else none
  ]
]

-- One step of the walk: the price of a round and its time, or what the rest of the walk finds.
abbrev pub visit : Feed → ℤ → ℤ → ℤ → Option (Str × ℤ) → Option (Str × ℤ)
visit f index oldest t rest =
    if not (ltb_ℤ (pos 0) t) || ltb_ℤ (pos (pos_part t / 1000)) oldest
    then none
    else elim (positive_price f t index) [ some raw ↦ some (raw, t) | none ↦ rest ]

-- The walk from a round down, one resolution at a step, to the newest round that is not older than
-- `oldest` seconds and has a price: the price and the time of the round.
unfoldable pub newest_price : Feed → ℤ → ℤ → ℤ → ℕ → ℤ → Option (Str × ℤ)
newest_price f index oldest step zero t = none
newest_price f index oldest step (suc fuel) t =
    visit f index oldest t (newest_price f index oldest step fuel (wrap64 (t -ℤ step)))

-- The next older price within a number of steps.
unfoldable pub older_price : Feed → ℤ → ℤ → ℕ → ℤ → Option Str
older_price f index step zero t = none
older_price f index step (suc n) t =
    let rest = older_price f index step n (wrap64 (t -ℤ step)) in
    if not (ltb_ℤ (pos 0) t)
    then none
    else elim (positive_price f t index) [ some raw ↦ some raw | none ↦ rest ]

-- |a - b|
abbrev pub distance : ℕ → ℕ → ℕ
distance a b = if leb b a then a - b else b - a

-- Whether the price is within the deviation of the older one. Both are positive.
unfoldable pub within_dev : ℕ → ℤ → ℤ → Bool
within_dev max_dev price old =
    not (ltb (pos_part old * max_dev / 100) (distance (pos_part price) (pos_part old)))

-- Ten to a power that a 32-bit difference gives; one where it is not positive.
abbrev pub scale : ℤ → ℕ
scale d = 10 ^ pos_part (wrap32 d)

unfoldable pub rescale_price : Str → ℤ → ℤ → Option Str
rescale_price raw from to = elim (set_string raw) [
  | none ↦ none
  | some (negsuc n) ↦ none
  | some (pos n) ↦
      if n == 0
      then none
      else if ltb_ℤ to from
      then some (dec (n / scale (from -ℤ to)))
      else if ltb_ℤ from to
      then some (dec (n * scale (to -ℤ from)))
      else some (dec n)
]

-- The guard: the older price is there and the price is within the deviation of it.
unfoldable pub guarded : Feed → ℤ → ℤ → ℕ → ℕ → Str → ℤ → Bool
guarded f index step steps max_dev raw t =
    elim (older_price f index step steps (wrap64 (t -ℤ step))) [
      | none ↦ false
      | some old_raw ↦ elim (set_string raw) [
        | none ↦ false
        | some price ↦ elim (set_string old_raw) [
          | none ↦ false
          | some old ↦ within_dev max_dev price old
        ]
      ]
    ]

-- The seconds that the age of a round is measured from; no close time is Go's zero time.
abbrev pub now_s : Feed → Option ℤ → ℤ
now_s f none = pos (pos_part f.last_round_ms / 1000)
now_s f (some t) = t

abbrev pub oldest_s : Feed → Aggregator → Option ℤ → ℤ
oldest_s f agg close = wrap64 (now_s f close -ℤ agg.max_age_s)

abbrev pub step_ms : AggregatorFeedRef → ℤ
step_ms ref = wrap64 (pos (pos_part ref.resolution_s * 1000))

-- Whether the aggregator checks the deviation of the asset's price.
abbrev pub is_guarded : AggregatorAssetConfig → Bool
is_guarded cfg = ltb_ℤ (pos 0) cfg.max_dev && ltb_ℤ cfg.max_dev (pos 100)

abbrev pub max_steps : Aggregator → AggregatorFeedRef → ℕ
max_steps agg ref = pos_part agg.max_age_s / pos_part ref.resolution_s

-- A price that was found is served if the guard lets it pass.
unfoldable pub serve_found :
    Feed → ℤ → AggregatorFeedRef → Aggregator → AggregatorAssetConfig → Str → ℤ → Option Str
serve_found f index ref agg cfg raw t =
    let pass = guarded f index (step_ms ref) (max_steps agg ref) (pos_part cfg.max_dev) raw t in
    if is_guarded cfg && not pass then none else rescale_price raw ref.decimals agg.decimals

-- The price that is found from the newest round of the feed on.
unfoldable pub serve :
    Feed → ℤ → AggregatorFeedRef → Aggregator → AggregatorAssetConfig → Option ℤ → Option Str
serve f index ref agg cfg close =
    elim (newest_price f index (oldest_s f agg close) (step_ms ref) (suc (pos_part f.last_round_ms))
      f.last_round_ms) [ none ↦ none | some (raw, t) ↦ serve_found f index ref agg cfg raw t ]

unfoldable pub resolve_feed_price :
    Dict Feed → Aggregator → AggregatorAssetConfig → Option ℤ → Option Str
resolve_feed_price feeds agg cfg close = elim (find_int cfg.oracle_index agg.feeds) [
  | none ↦ none
  | some ref ↦
      if not (ltb_ℤ (pos 0) ref.resolution_s) then none else elim (lookup ref.contract_id feeds) [
        | none ↦ none
        | some f ↦
            if not (ltb_ℤ (pos 0) f.last_round_ms)
            then none
            else elim (lookup cfg.feed_asset_key f.asset_to_index) [
              | none ↦ none
              | some index ↦ serve f index ref agg cfg close
            ]
      ]
]
