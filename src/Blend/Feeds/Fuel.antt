-- ===== src/Blend/Feeds/Fuel.antt =====
-- blend/state_reflector.go, `resolveFeedPrice`: the walk over the rounds ends.
use lidapters.Common.{
  ℕ, zero, suc, ◌-◌, ◌*◌, ◌%◌, ◌≡◌, ◌<◌, ◌≤◌, ◌^◌, refl, false, none, arith, Bool-cases, inl, inr,
  ◌⊎◌, ap, sym, ◌∙◌, leb,
}
use lidapters.Common.Int.{ℤ, pos, negsuc, ◌-ℤ◌, ltb_ℤ}
use lidapters.Blend.Feeds.{Feed, wrap64, visit, newest_price}

wrap64-pos : (n : ℕ) → n < 2 ^ 63 → wrap64 (pos n) ≡ pos n
wrap64-pos n h = let e : n % (2 * 2 ^ 63) ≡ n = omega (arith, h) in ground (arith, e)

wrap64-negsuc : (n : ℕ) → n < 2 ^ 63 → wrap64 (negsuc n) ≡ negsuc n
wrap64-negsuc n h = let e : n % (2 * 2 ^ 63) ≡ n = omega (arith, h) in ground (arith, e)

ended :
    (f : Feed) (index oldest step : ℤ) (fuel m : ℕ)
    → newest_price f index oldest step fuel (negsuc m) ≡ none
unfolding newest_price
ended f index oldest step zero m = refl
ended f index oldest step (suc fuel) m =
    let e : ltb_ℤ (pos 0) (negsuc m) ≡ false = ground arith in simp e refl

-- One step down from a round: a later number of milliseconds, or one below zero.
step_cases :
    (t r : ℕ)
    → t < 2 ^ 63
    → r < 2 ^ 63
    → ((suc r ≤ t) × (wrap64 (pos t -ℤ pos (suc r)) ≡ pos (t - suc r)))
      ⊎ ((m : ℕ) × (wrap64 (pos t -ℤ pos (suc r)) ≡ negsuc m))
step_cases t r ht hr = elim (Bool-cases (leb (suc r) t)) [
  | inl e ↦
      let le : suc r ≤ t = ground (arith, e) in
      let same : (pos t -ℤ pos (suc r)) ≡ pos (t - suc r) = ground arith in
      inl (le, ap wrap64 same ∙ wrap64-pos (t - suc r) (omega (arith, ht)))
  | inr e ↦
      let lt : t < suc r = ground (arith, e) in
      let same : (pos t -ℤ pos (suc r)) ≡ negsuc (suc r - t - 1) = ground arith in
      inr (suc r - t - 1, ap wrap64 same ∙ wrap64-negsuc (suc r - t - 1) (omega (arith, hr)))
]

-- With a positive step, where step and time are 64-bit numbers, the walk down from a round finds the
-- same price on any two amounts of fuel above the time of the round.
pub newest_price_enough :
    (f : Feed) (index oldest : ℤ) (r fuel more t : ℕ)
    → r < 2 ^ 63
    → t < 2 ^ 63
    → t < fuel
    → t < more
    → newest_price f index oldest (pos (suc r)) more (pos t)
      ≡ newest_price f index oldest (pos (suc r)) fuel (pos t)
unfolding newest_price
newest_price_enough f index oldest r zero more t hr ht h k = absurd (omega (arith, h))
newest_price_enough f index oldest r (suc fuel) zero t hr ht h k = absurd (omega (arith, k))
newest_price_enough f index oldest r (suc fuel) (suc more) t hr ht h k =
    let step = pos (suc r) in
    let walk = newest_price f index oldest step in
    let same : walk more (wrap64 (pos t -ℤ step)) ≡ walk fuel (wrap64 (pos t -ℤ step)) =
      elim (step_cases t r ht hr) [
        | inl (le, e) ↦ rw e (
            newest_price_enough f index oldest r fuel more (t - suc r) hr (omega (arith, ht))
              (omega (arith, h, le)) (omega (arith, k, le)))
        | inr (m, e) ↦
            rw e (ended f index oldest step more m ∙ sym (ended f index oldest step fuel m))
      ] in
    ap (visit f index oldest (pos t)) same
