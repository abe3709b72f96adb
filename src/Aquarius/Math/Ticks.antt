-- ===== src/Aquarius/Math/Ticks.antt =====
-- aquarius/math.go: the domain and the bounds of `tickSqrtPriceX96`.
use native.Mathlib.Nat.{le_trans, le-div_iff_mul-le, div-lt_iff_lt-mul}
use lidapters.Common.{
  ℕ, zero, suc, ◌+◌, ◌*◌, ◌/◌, ◌%◌, ◌^◌, ◌≤◌, ◌<◌, ◌≡◌, ◌≢◌, ◌↔◌, refl, false, none, some, List, [],
  ◌∷◌, arith, ltb, ◌==◌, Bool-cases, inl, inr, All,
}
use lidapters.Common.Decimal.{dec}
use lidapters.Common.Int.{ℤ, pos, negsuc, ◌≤ℤ◌}
use lidapters.Aquarius.Math.Tick.{
  tick_magic_ladder, tick_odd_magic, q128, q256, max_tick, ladder, start_ratio, inverse_ratio,
  to_x96, abs_tick, tick_ratio, tick_sqrt_price_x96,
}

-- A price is computed exactly for the ticks from -887272 to 887272.
pub tick_in_range_iff : (tick : ℤ) → (tick_sqrt_price_x96 tick ≢ none) ↔ (abs_tick tick ≤ max_tick)
unfolding tick_sqrt_price_x96
tick_in_range_iff tick = elim (Bool-cases (ltb max_tick (abs_tick tick))) [
  | inl e ↦ (λ h. absurd (h (rw (e, tick_sqrt_price_x96) refl)), λ h. ground arith)
  | inr e ↦ (λ h. ground arith, λ h k. ground arith)
]

abbrev step : ℕ → ℕ → ℕ
step ratio magic = ratio * magic / 2 ^ 128

step-le : (ratio m : ℕ) → m ≤ 2 ^ 128 → step ratio m ≤ ratio
step-le ratio m h = let k : ratio * m ≤ ratio * 2 ^ 128 = grind arith in omega arith

step_mono : (r s m : ℕ) → r ≤ s → step r m ≤ step s m
step_mono r s m h = let k : r * m ≤ s * m = grind arith in omega arith

-- Every entry applied: the least that the loop can leave.
lower : ℕ → List ℕ → ℕ
lower ratio [] = ratio
lower ratio (m ∷ l) = lower (step ratio m) l

lower_mono : (r s : ℕ) (l : List ℕ) → r ≤ s → lower r l ≤ lower s l
unfolding lower
lower_mono r s [] h = h
lower_mono r s (m ∷ l) h = lower_mono (step r m) (step s m) l (step_mono r s m h)

ladder_bounds :
    (abs bit ratio : ℕ) (l : List ℕ)
    → All (λ m. m ≤ 2 ^ 128) l
    → (lower ratio l ≤ ladder abs bit ratio l) × (ladder abs bit ratio l ≤ ratio)
unfolding ladder lower
ladder_bounds abs bit ratio [] h = (omega arith, omega arith)
ladder_bounds abs bit ratio (m ∷ l) h = elim (Bool-cases (abs / bit % 2 == 0)) [
  | inl e ↦
      let (lo, hi) = ladder_bounds abs (bit * 2) ratio l h.1 in
      rw (e, ladder) (le_trans (lower_mono (step ratio m) ratio l (step-le ratio m h.0)) lo, hi)
  | inr e ↦
      let (lo, hi) = ladder_bounds abs (bit * 2) (step ratio m) l h.1 in
      rw (e, ladder) (lo, le_trans hi (step-le ratio m h.0))
]

ladder_small : All (λ m. m ≤ 2 ^ 128) tick_magic_ladder
ladder_small = omega arith

abbrev floor_ratio : ℕ
floor_ratio = 2 ^ 52

floor_ratio-le : floor_ratio ≤ lower tick_odd_magic tick_magic_ladder
unfolding lower
floor_ratio-le = omega arith

-- Whatever the tick, the inverse ratio is at least 2^52 and at most 2^128.
pub inverse_ratio_bounds :
    (abs : ℕ) → (floor_ratio ≤ inverse_ratio abs) × (inverse_ratio abs ≤ q128)
unfolding inverse_ratio
inverse_ratio_bounds abs =
    let (lo, hi) = ladder_bounds abs 2 (start_ratio abs) tick_magic_ladder ladder_small in
    (
      le_trans floor_ratio-le (
          le_trans (lower_mono tick_odd_magic (start_ratio abs) tick_magic_ladder (ground arith))
            lo),
      le_trans hi (ground arith),
    )

tick_ratio_pos : (n : ℕ) → tick_ratio (pos (suc n)) ≡ q256 / inverse_ratio (suc n)
unfolding tick_ratio
tick_ratio_pos n = let e : (suc n == 0) ≡ false = ground arith in rw (e, tick_ratio) refl

tick_ratio_bounds :
    (tick : ℤ)
    → (2 ^ 52 ≤ tick_ratio tick)
      × (tick_ratio tick ≤ 2 ^ 204)
      × (tick ≤ℤ pos 0 → tick_ratio tick ≤ q128)
      × (pos 0 ≤ℤ tick → q128 ≤ tick_ratio tick)
unfolding tick_ratio
tick_ratio_bounds (negsuc n) = omega (arith, inverse_ratio_bounds (n + 1))
tick_ratio_bounds (pos zero) = unfold inverse_ratio ladder in omega arith
tick_ratio_bounds (pos (suc n)) =
    let r = inverse_ratio (suc n) in
    let (lo, hi) = inverse_ratio_bounds (suc n) in
    let above : q128 ≤ q256 / r =
      (le-div_iff_mul-le {k = r} {x = q128} {y = q256} (omega arith)).1 (omega arith) in
    let below : q256 / r < 2 ^ 204 + 1 =
      (div-lt_iff_lt-mul {k = r} {x = q256} {y = 2 ^ 204 + 1} (omega arith)).1 (omega arith) in
    rw (tick_ratio_pos n) (omega (arith, above, below))

-- For a tick in range a price is computed, and it is the ratio of the tick in Q64.96, rounded up;
-- it is positive and below 2^173, at most 2^96 (the price 1) for ticks up to 0, and at least 2^96
-- from 0 on. The inverse ratio, by which the code divides for a positive tick, is not zero.
pub tick_sqrt_price_bounds :
    (tick : ℤ)
    → abs_tick tick ≤ max_tick
    → (0 < inverse_ratio (abs_tick tick))
      × ((price : ℕ) × (tick_sqrt_price_x96 tick ≡ some (dec price))
          × (0 < price)
          × (price < 2 ^ 173)
          × (tick_ratio tick ≤ price * 2 ^ 32)
          × (price * 2 ^ 32 < tick_ratio tick + 2 ^ 32)
          × (tick ≤ℤ pos 0 → price ≤ 2 ^ 96)
          × (pos 0 ≤ℤ tick → 2 ^ 96 ≤ price))
unfolding tick_sqrt_price_x96 to_x96
tick_sqrt_price_bounds tick h =
    let (lo, hi) = inverse_ratio_bounds (abs_tick tick) in
    let (r_lo, r_hi, r_neg, r_pos) = tick_ratio_bounds tick in
    let e : ltb max_tick (abs_tick tick) ≡ false = ground arith in
    (
      omega arith,
      (
        to_x96 (tick_ratio tick),
        rw (e, tick_sqrt_price_x96) refl,
        ground arith,
        ground arith,
        ground arith,
        ground arith,
        ground arith,
        ground arith,
      ),
    )
