-- ===== src/Tests/Rows.antt =====
-- The theorems on the shares, rows and events of Soroswap, applied to ann's position.
use lidapters.Common.{◌*◌, ◌/◌, ◌≤◌, ◌≡◌, refl, ◌↔◌, none, some, [], ◌∷◌, All, Pairwise, arith}
use lidapters.Common.Str.{Str, lit, eq_str}
use lidapters.Common.Decimal.{dec}
use lidapters.Common.Dict.{Dict, lookup, mem}
use lidapters.Xdr.{EventBody}
use lidapters.Bindings.State.{AmmPoolState, AmmPositionState}
use lidapters.Bindings.Rows.{Activity, RawEventEnvelope}
use lidapters.Soroswap.Math.{pro_rata}
use lidapters.Soroswap.Math.Shares.{amounts, sum, pro_rata_conserves}
use lidapters.Soroswap.Config.{owns_contract}
use lidapters.Soroswap.Transform.{classify_event, pair_activity, position_rows}
use lidapters.Soroswap.Transform.Classify.{
  IsPlumbing, IsPairEvent, classify_event_silent_iff, classify_event_activity_iff,
}
use lidapters.Soroswap.Transform.Components.{IsPart, position_rows_amounts}
use lidapters.Tests.{
  map_val, entry, no_entry, sym_val, account_val, codec, pool, position, event, input,
}
use lidapters.Tests.Pairs.{adapter}

abbrev swap : RawEventEnvelope
swap = event (lit "P") (lit "swap")

abbrev pools : Dict AmmPoolState
pools = (lit "P", pool) ∷ []

abbrev closed : AmmPositionState
closed = record position { shares_raw = lit "0" }

pro_rata_conserves_example :
    All (λ s. pro_rata (dec s) (dec 100) (dec 30) ≡ some (dec (s * 100 / 30))) (20 ∷ 7 ∷ 3 ∷ [])
    × (sum (amounts (20 ∷ 7 ∷ 3 ∷ []) 100 30) ≤ 100)
pro_rata_conserves_example = pro_rata_conserves (20 ∷ 7 ∷ 3 ∷ []) 100 30 (omega arith) (omega arith)

classify_event_silent_iff_example : (classify_event codec adapter swap ≡ (none, none)) ↔ (
    (body : EventBody codec.ScVal) × (codec.unmarshal_event swap.raw_event ≡ some (some body))
    × IsPlumbing codec adapter body.topics)
unfolding owns_contract mem eq_str
classify_event_silent_iff_example = classify_event_silent_iff codec adapter swap refl

-- The activity of that event.
abbrev swapped : Activity
swapped =
    pair_activity codec adapter swap (lit "swap")
      (map_val (entry (sym_val (lit "to")) (account_val (lit "ann")) no_entry))

classify_event_activity_iff_example : ((classify_event codec adapter swap).0 ≡ some swapped) ↔ (
    (body : EventBody codec.ScVal) × (name : Str) × (codec.unmarshal_event swap.raw_event
      ≡ some (some body))
    × IsPairEvent codec adapter name body.topics
    × (pair_activity codec adapter swap name body.payload ≡ swapped))
unfolding owns_contract mem eq_str
classify_event_activity_iff_example = classify_event_activity_iff codec adapter swap refl swapped

position_rows_amounts_example :
    let r = position_rows codec adapter input pools position in
    Pairwise (IsPart codec adapter input position 20 30) pool.tokens r.0 × (r.1 ≡ [])
unfolding lookup eq_str dec
position_rows_amounts_example =
    position_rows_amounts codec adapter input pools position {pool = pool} (100 ∷ 55 ∷ []) 20 30
      refl (omega arith) (omega arith) refl refl (refl, (refl, tt))
