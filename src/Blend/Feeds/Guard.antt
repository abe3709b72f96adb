-- ===== src/Blend/Feeds/Guard.antt =====
-- blend/state_reflector.go, `resolveFeedPrice`: the deviation guard.
use lidapters.Common.{
  ℕ, zero, suc, ◌-◌, ◌*◌, ◌<◌, ◌≤◌, ◌≡◌, refl, ◌∙◌, true, false, Option, none, some, Bool-cases,
  arith, Option-cases, inl, inr,
}
use lidapters.Common.Int.{ℤ, pos, negsuc, ◌-ℤ◌, ltb_ℤ}
use lidapters.Common.Str.{Str}
use lidapters.Common.Decimal.{set_string}
use lidapters.Common.IntDict.{find_int}
use lidapters.Blend.Feeds.{
  Feed, wrap64, is_positive, is_positive_int_string, older_price, within_dev, positive_price,
  guarded,
}

-- The time of the round that is `k` steps before `t`.
abbrev pub walk : ℤ → ℤ → ℕ → ℤ
walk step t zero = t
walk step t (suc k) = walk step (wrap64 (t -ℤ step)) k

-- The price `n` of the round at `t` is backed by the price of an older round, at most `steps` steps
-- before, from which it differs by `percent` percent of that older price at most.
pub record IsBacked (f : Feed) (index step : ℤ) (steps percent n : ℕ) (t : ℤ) : Type 0 where
  pub back : ℕ
  pub old_raw : Str
  pub old : ℕ
  pub within : suc back ≤ steps
  pub priced : positive_price f (walk step t (suc back)) index ≡ some old_raw
  pub after : ltb_ℤ (pos 0) (walk step t (suc back)) ≡ true
  pub read : set_string old_raw ≡ some (pos old)
  pub positive : 0 < old
  pub not_above : 100 * (n - old) ≤ percent * old
  pub not_below : 100 * (old - n) ≤ percent * old

pub positive_price-number :
    (f : Feed) (t index : ℤ) (raw : Str)
    → positive_price f t index ≡ some raw
    → (n : ℕ) × (set_string raw ≡ some (pos n)) × (0 < n)
unfolding positive_price is_positive_int_string is_positive
positive_price-number f t index raw h = elim (Option-cases (find_int t f.rounds)) [
  | inl e ↦ let bad : none ≡ some raw = simp (e, positive_price) refl ∙ h in cc
  | inr (round, e) ↦ elim (Option-cases (find_int index round)) [
    | inl g ↦ let bad : none ≡ some raw = simp (e, g, positive_price) refl ∙ h in cc
    | inr (found, g) ↦ elim (Bool-cases (is_positive_int_string found)) [
      | inr p ↦ let bad : none ≡ some raw = simp (e, g, p, positive_price) refl ∙ h in cc
      | inl p ↦
          let here : some found ≡ some raw = simp (e, g, p, positive_price) refl ∙ h in
          let same : found ≡ raw = cc in number raw (rw (← same) p)
    ]
  ]
]
  where
    of_value :
        (raw : Str) (v : Option ℤ)
        → set_string raw ≡ v
        → (elim v [ none ↦ false | some n ↦ is_positive n ]) ≡ true
        → (n : ℕ) × (set_string raw ≡ some (pos n)) × (0 < n)
    of_value raw none e p = cc
    of_value raw (some (pos zero)) e p = cc
    of_value raw (some (pos (suc n))) e p = (suc n, e, omega arith)
    of_value raw (some (negsuc n)) e p = cc

    number :
        (raw : Str)
        → is_positive_int_string raw ≡ true
        → (n : ℕ) × (set_string raw ≡ some (pos n)) × (0 < n)
    number raw p = of_value raw (set_string raw) refl p

-- Where the walk to an older price ends.
record IsOlder (f : Feed) (index step : ℤ) (steps : ℕ) (t : ℤ) (old_raw : Str) : Type 0 where
  pub back : ℕ
  pub within : suc back ≤ steps
  pub priced : positive_price f (walk step t back) index ≡ some old_raw
  pub after : ltb_ℤ (pos 0) (walk step t back) ≡ true

older_price-IsOlder :
    (f : Feed) (index step : ℤ) (steps : ℕ) (t : ℤ) (old_raw : Str)
    → older_price f index step steps t ≡ some old_raw
    → IsOlder f index step steps t old_raw
unfolding older_price
older_price-IsOlder f index step zero t old_raw h = cc
older_price-IsOlder f index step (suc n) t old_raw h = elim (Bool-cases (ltb_ℤ (pos 0) t)) [
  | inr e ↦ let bad : none ≡ some old_raw = simp (e, older_price) refl ∙ h in cc
  | inl e ↦ elim (Option-cases (positive_price f t index)) [
    | inl p ↦
        let same : older_price f index step n (wrap64 (t -ℤ step))
            ≡ older_price f index step (suc n) t =
          simp (e, p, older_price) refl in
        let r = older_price-IsOlder f index step n (wrap64 (t -ℤ step)) old_raw (same ∙ h) in
        record {
          back = suc r.back;
          within = omega (arith, r.within);
          priced = r.priced;
          after = r.after;
        }
    | inr (found, p) ↦
        let here : some found ≡ some old_raw = simp (e, p, older_price) refl ∙ h in
        let same : found ≡ old_raw = cc in
        record { back = 0; within = omega arith; priced = rw (← same) p; after = e }
  ]
]

within_dev-near :
    (percent n old : ℕ)
    → within_dev percent (pos n) (pos old) ≡ true
    → (100 * (n - old) ≤ percent * old) × (100 * (old - n) ≤ percent * old)
unfolding within_dev
within_dev-near percent n old h = (ground arith, ground arith)

pub guarded-IsBacked :
    (f : Feed) (index step : ℤ) (steps percent n : ℕ) (raw : Str) (t : ℤ)
    → set_string raw ≡ some (pos n)
    → guarded f index step steps percent raw t ≡ true
    → IsBacked f index step steps percent n t
unfolding guarded
guarded-IsBacked f index step steps percent n raw t e h =
    elim (Option-cases (older_price f index step steps (wrap64 (t -ℤ step)))) [
      | inl o ↦ let bad : false ≡ true = simp (o, guarded) refl ∙ h in cc
      | inr (old_raw, o) ↦
          let r = older_price-IsOlder f index step steps (wrap64 (t -ℤ step)) old_raw o in
          let (old, g, large) =
            positive_price-number f (walk step (wrap64 (t -ℤ step)) r.back) index old_raw
              r.priced in
          let same : within_dev percent (pos n) (pos old)
              ≡ guarded f index step steps percent raw t =
            simp (o, e, g, guarded) refl in
          let (above, below) = within_dev-near percent n old (same ∙ h) in
          record {
            back = r.back;
            old_raw = old_raw;
            old = old;
            within = r.within;
            priced = r.priced;
            after = r.after;
            read = g;
            positive = large;
            not_above = above;
            not_below = below;
          }
    ]
