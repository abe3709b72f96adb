-- ===== src/Blend/Feeds/Serves.antt =====
-- blend/state_reflector.go, `resolveFeedPrice`: what a served price rests on.
use lidapters.Common.{
  ℕ, zero, suc, ◌*◌, ◌/◌, ◌<◌, ◌≡◌, ◌⊎◌, refl, ◌∙◌, true, false, Option, none, some, Bool-cases,
  Option-cases, inl, inr,
}
use lidapters.Common.Int.{ℤ, pos, ◌-ℤ◌, ltb_ℤ, pos_part}
use lidapters.Common.Str.{Str}
use lidapters.Common.Decimal.{set_string}
use lidapters.Common.Dict.{Dict, lookup}
use lidapters.Common.IntDict.{find_int}
use lidapters.Blend.Feeds.Guard.{IsBacked, positive_price-number, guarded-IsBacked}
use lidapters.Blend.Feeds.Rescale.{IsRescaled, rescale_price-IsRescaled}
use lidapters.Blend.Feeds.{
  Feed, Aggregator, AggregatorFeedRef, AggregatorAssetConfig, wrap64, positive_price, visit,
  newest_price, guarded, oldest_s, step_ms, is_guarded, max_steps, serve_found, rescale_price,
  serve, resolve_feed_price,
}

-- The price `raw` of the round at `t` is there, is positive, and the round is no older, in whole
-- seconds, than `oldest`.
pub record IsFresh (f : Feed) (index oldest : ℤ) (raw : Str) (t : ℤ) : Type 0 where
  pub priced : positive_price f t index ≡ some raw
  pub after : ltb_ℤ (pos 0) t ≡ true
  pub young : ltb_ℤ (pos (pos_part t / 1000)) oldest ≡ false

visit-IsFresh :
    (f : Feed) (index oldest t : ℤ) (rest : Option (Str × ℤ)) (raw : Str) (at : ℤ)
    → visit f index oldest t rest ≡ some (raw, at)
    → IsFresh f index oldest raw at ⊎ (rest ≡ some (raw, at))
visit-IsFresh f index oldest t rest raw at h = elim (Bool-cases (ltb_ℤ (pos 0) t)) [
  | inr e ↦ let bad : ◌≡◌ {A = Option (Str × ℤ)} none (some (raw, at)) = (simp e refl) ∙ h in cc
  | inl e ↦ elim (Bool-cases (ltb_ℤ (pos (pos_part t / 1000)) oldest)) [
    | inl g ↦
        let bad : ◌≡◌ {A = Option (Str × ℤ)} none (some (raw, at)) = (simp (e, g) refl) ∙ h in cc
    | inr g ↦ elim (Option-cases (positive_price f t index)) [
      | inl p ↦
          let same : rest ≡ visit f index oldest t rest = simp (e, g, p) refl in inr (same ∙ h)
      | inr (found, p) ↦
          let same : ◌≡◌ {A = Option (Str × ℤ)} (some (found, t)) (some (raw, at)) =
            (let here : some (found, t) ≡ visit f index oldest t rest = simp (e, g, p) refl in
              here ∙ h) in
          let r : found ≡ raw = cc in
          let u : t ≡ at = cc in
          inl (record { priced = rw (← u, ← r) p; after = rw (← u) e; young = rw (← u) g })
    ]
  ]
]

newest_price-IsFresh :
    (f : Feed) (index oldest step : ℤ) (fuel : ℕ) (t : ℤ) (raw : Str) (at : ℤ)
    → newest_price f index oldest step fuel t ≡ some (raw, at)
    → IsFresh f index oldest raw at
unfolding newest_price
newest_price-IsFresh f index oldest step zero t raw at h = cc
newest_price-IsFresh f index oldest step (suc fuel) t raw at h =
    elim (visit-IsFresh f index oldest t
      (newest_price f index oldest step fuel (wrap64 (t -ℤ step))) raw at h) [
        | inl fresh ↦ fresh
        | inr e ↦ newest_price-IsFresh f index oldest step fuel (wrap64 (t -ℤ step)) raw at e
      ]

-- No deviation between 0 and 100 percent is set.
abbrev pub IsUnguarded : AggregatorAssetConfig → Type 0
IsUnguarded cfg = (ltb_ℤ (pos 0) cfg.max_dev ≡ false) ⊎ (ltb_ℤ cfg.max_dev (pos 100) ≡ false)

-- What a served price `q` rests on: a feed of the aggregator that carries the asset, and a fresh
-- price of it that an older one backs, if a deviation is set, and that `q` is in the other decimals.
pub record IsServed (feeds : Dict Feed) (agg : Aggregator) (cfg : AggregatorAssetConfig)
    (close : Option ℤ) (q : Str) : Type 0 where
  pub ref : AggregatorFeedRef
  pub feed : Feed
  pub index : ℤ
  pub raw : Str
  pub price : ℕ
  pub time : ℤ
  pub referred : find_int cfg.oracle_index agg.feeds ≡ some ref
  pub fed : lookup ref.contract_id feeds ≡ some feed
  pub listed : lookup cfg.feed_asset_key feed.asset_to_index ≡ some index
  pub fresh : IsFresh feed index (oldest_s feed agg close) raw time
  pub read : set_string raw ≡ some (pos price)
  pub positive : 0 < price
  pub checked :
      IsUnguarded cfg
      ⊎ IsBacked feed index
          (wrap64 (pos (pos_part ref.resolution_s * 1000)))
          (pos_part agg.max_age_s / pos_part ref.resolution_s)
          (pos_part cfg.max_dev)
          price
          time
  pub scaled : IsRescaled price ref.decimals agg.decimals q

serve_found-cases :
    (f : Feed) (index : ℤ) (ref : AggregatorFeedRef) (agg : Aggregator)
    (cfg : AggregatorAssetConfig) (raw : Str) (t : ℤ) (q : Str)
    → serve_found f index ref agg cfg raw t ≡ some q
    → (IsUnguarded cfg
        ⊎ (guarded f index (step_ms ref) (max_steps agg ref) (pos_part cfg.max_dev) raw t ≡ true))
      × (rescale_price raw ref.decimals agg.decimals ≡ some q)
unfolding serve_found
serve_found-cases f index ref agg cfg raw t q h =
    let pass = guarded f index (step_ms ref) (max_steps agg ref) (pos_part cfg.max_dev) raw t in
    let open_way = λ (g : is_guarded cfg ≡ false).
      (let same : rescale_price raw ref.decimals agg.decimals
            ≡ serve_found f index ref agg cfg raw t =
          simp g refl in
        same ∙ h) in
    elim (Bool-cases (ltb_ℤ (pos 0) cfg.max_dev)) [
      | inr a ↦ (inl (inl a), open_way (rw a refl))
      | inl a ↦ elim (Bool-cases (ltb_ℤ cfg.max_dev (pos 100))) [
        | inr b ↦ (inl (inr b), open_way (rw (a, b) refl))
        | inl b ↦ elim (Bool-cases pass) [
          | inl p ↦ (
            inr p,
            (let same : rescale_price raw ref.decimals agg.decimals
                    ≡ serve_found f index ref agg cfg raw t =
                  simp (a, b, p) refl in
                same ∙ h),
          )
          | inr p ↦ let bad : none ≡ some q = simp (a, b, p) refl ∙ h in cc
        ]
      ]
    ]

serve-IsServed :
    (feeds : Dict Feed) (f : Feed) (index : ℤ) (ref : AggregatorFeedRef) (agg : Aggregator)
    (cfg : AggregatorAssetConfig) (close : Option ℤ) (q : Str)
    → find_int cfg.oracle_index agg.feeds ≡ some ref
    → lookup ref.contract_id feeds ≡ some f
    → lookup cfg.feed_asset_key f.asset_to_index ≡ some index
    → serve f index ref agg cfg close ≡ some q
    → IsServed feeds agg cfg close q
unfolding serve
serve-IsServed feeds f index ref agg cfg close q r l i h =
    elim (Option-cases (
      newest_price f index (oldest_s f agg close) (step_ms ref) (suc (pos_part f.last_round_ms))
        f.last_round_ms)) [
          | inl e ↦ let bad : none ≡ some q = simp (e, serve) refl ∙ h in cc
          | inr ((raw, t), e) ↦
              let same : serve_found f index ref agg cfg raw t ≡ serve f index ref agg cfg close =
                simp (e, serve) refl in
              let (c, d) = serve_found-cases f index ref agg cfg raw t q (same ∙ h) in
              let fresh =
                newest_price-IsFresh f index (oldest_s f agg close) (step_ms ref) _ _ raw t e in
              let (n, g, large) = positive_price-number f t index raw fresh.priced in
              record {
                ref = ref;
                feed = f;
                index = index;
                raw = raw;
                price = n;
                time = t;
                referred = r;
                fed = l;
                listed = i;
                fresh = fresh;
                read = g;
                positive = large;
                checked = elim c [
                  | inl free ↦ inl free
                  | inr p ↦ inr (guarded-IsBacked f index _ _ _ n raw t g p)
                ];
                scaled = rescale_price-IsRescaled raw n ref.decimals agg.decimals q g large d;
              }
        ]

-- A price that is served rests on a fresh positive price of the feed that the aggregator names, and
-- is that price in the aggregator's decimals, rounded down where they are fewer. Where a deviation
-- between 0 and 100 percent is set, an older round, no more steps before than the age allows, has a
-- positive price from which it differs by that part of the older price at most. The power of ten
-- has the 32-bit difference of the decimals, or 0 where that is negative, as its exponent.
pub resolve_feed_price-IsServed :
    (feeds : Dict Feed) (agg : Aggregator) (cfg : AggregatorAssetConfig) (close : Option ℤ)
    (q : Str)
    → resolve_feed_price feeds agg cfg close ≡ some q
    → IsServed feeds agg cfg close q
unfolding resolve_feed_price
resolve_feed_price-IsServed feeds agg cfg close q h =
    elim (Option-cases (find_int cfg.oracle_index agg.feeds)) [
      | inl e ↦ let bad : none ≡ some q = simp (e, resolve_feed_price) refl ∙ h in cc
      | inr (ref, e) ↦ elim (Bool-cases (ltb_ℤ (pos 0) ref.resolution_s)) [
        | inr a ↦ let bad : none ≡ some q = simp (e, resolve_feed_price, a) refl ∙ h in cc
        | inl a ↦ elim (Option-cases (lookup ref.contract_id feeds)) [
          | inl l ↦ let bad : none ≡ some q = simp (e, resolve_feed_price, a, l) refl ∙ h in cc
          | inr (f, l) ↦ elim (Bool-cases (ltb_ℤ (pos 0) f.last_round_ms)) [
            | inr b ↦ let bad : none ≡ some q = simp (e, resolve_feed_price, a, l, b) refl ∙ h in cc
            | inl b ↦ elim (Option-cases (lookup cfg.feed_asset_key f.asset_to_index)) [
              | inl i ↦
                  let bad : none ≡ some q = simp (e, resolve_feed_price, a, l, b, i) refl ∙ h in cc
              | inr (index, i) ↦
                  let same : serve f index ref agg cfg close
                      ≡ resolve_feed_price feeds agg cfg close =
                    simp (e, resolve_feed_price, a, l, b, i) refl in
                  serve-IsServed feeds f index ref agg cfg close q e l i (same ∙ h)
            ]
          ]
        ]
      ]
    ]
