-- ===== src/Tests/Feeds.antt =====
-- The theorems on the price feeds, applied to a feed of two rounds.
use lidapters.Common.{◌≡◌, refl, some, [], ◌∷◌, arith}
use lidapters.Common.Int.{pos}
use lidapters.Common.Str.{lit, eq_str}
use lidapters.Common.Decimal.{dec, set_string}
use lidapters.Common.Dict.{lookup}
use lidapters.Common.IntDict.{find_int}
use lidapters.Blend.Feeds.{
  Feed, AggregatorFeedRef, AggregatorAssetConfig, Aggregator, positive_price, newest_price,
  older_price, within_dev, guarded, serve_found, serve, resolve_feed_price, rescale_price,
  is_positive_int_string,
}
use lidapters.Blend.Feeds.Serves.{IsServed, resolve_feed_price-IsServed}
use lidapters.Blend.Feeds.Fuel.{newest_price_enough}

abbrev feed : Feed
feed = record {
  decimals = pos 2;
  last_round_ms = pos 900000;
  asset_to_index = (lit "other:XLM", pos 0) ∷ [];
  rounds = (pos 900000, (pos 0, lit "200") ∷ []) ∷ (pos 300000, (pos 0, lit "199") ∷ []) ∷ [];
}

abbrev ref_of_feed : AggregatorFeedRef
ref_of_feed = record {
  index = pos 0;
  contract_id = lit "F";
  decimals = pos 2;
  resolution_s = pos 300;
}

abbrev asset : AggregatorAssetConfig
asset = record {
  asset_id = lit "T0";
  feed_asset_key = lit "other:XLM";
  oracle_index = pos 0;
  max_dev = pos 10;
}

abbrev aggregator : Aggregator
aggregator = record {
  decimals = pos 1;
  max_age_s = pos 900;
  base_key = lit "other:USD";
  base_assets = [];
  feeds = (pos 0, ref_of_feed) ∷ [];
  assets = (lit "T0", asset) ∷ [];
}

resolve_feed_price-IsServed_example :
    IsServed ((lit "F", feed) ∷ []) aggregator asset (some (pos 1000)) (lit "20")
unfolding resolve_feed_price serve serve_found guarded within_dev older_price newest_price
    positive_price is_positive_int_string rescale_price find_int lookup eq_str set_string dec
resolve_feed_price-IsServed_example =
    resolve_feed_price-IsServed ((lit "F", feed) ∷ []) aggregator asset (some (pos 1000)) (lit "20")
      refl

newest_price_enough_example :
    newest_price feed (pos 0) (pos 100) (pos 300000) 1000000 (pos 900000)
    ≡ newest_price feed (pos 0) (pos 100) (pos 300000) 900001 (pos 900000)
newest_price_enough_example =
    newest_price_enough feed (pos 0) (pos 100) 299999 900001 1000000 900000 (omega arith)
      (omega arith) (omega arith) (omega arith)
