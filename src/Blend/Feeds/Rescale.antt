-- ===== src/Blend/Feeds/Rescale.antt =====
-- blend/state_reflector.go, `rescalePrice`: the size of the price.
use native.Mathlib.Nat.{div-mul-le_self, lt-div-mul-add, one-le-pow}
use lidapters.Common.{
  ℕ, suc, ◌*◌, ◌/◌, ◌^◌, ◌<◌, ◌≤◌, ◌≡◌, ◌⊎◌, refl, sym, ◌∙◌, true, false, some, Bool-cases, arith,
  ◌==◌, inl, inr,
}
use lidapters.Common.Int.{ℤ, pos, ◌-ℤ◌, ltb_ℤ, pos_part}
use lidapters.Common.Str.{Str}
use lidapters.Common.Decimal.{dec, set_string}
use lidapters.Blend.Feeds.{wrap32, rescale_price}

-- The text `q` is that of `n` with the decimals `to` in place of `from`, rounded down.
pub record IsRescaled (n : ℕ) (from to : ℤ) (q : Str) : Type 0 where
  pub value : ℕ
  pub text : q ≡ dec value
  pub size :
      (ltb_ℤ to from ≡ true)
        × (value * 10 ^ pos_part (wrap32 (from -ℤ to)) ≤ n)
        × (n < suc value * 10 ^ pos_part (wrap32 (from -ℤ to)))
      ⊎ (ltb_ℤ from to ≡ true) × (value ≡ n * 10 ^ pos_part (wrap32 (to -ℤ from)))
      ⊎ (ltb_ℤ to from ≡ false) × (ltb_ℤ from to ≡ false) × (value ≡ n)

pub rescale_price-IsRescaled :
    (raw : Str) (n : ℕ) (from to : ℤ) (q : Str)
    → set_string raw ≡ some (pos n)
    → 0 < n
    → rescale_price raw from to ≡ some q
    → IsRescaled n from to q
unfolding rescale_price
rescale_price-IsRescaled raw n from to q e large h =
    let z : (n == 0) ≡ false = ground arith in
    elim (Bool-cases (ltb_ℤ to from)) [
      | inl a ↦
          let d = 10 ^ pos_part (wrap32 (from -ℤ to)) in
          let here : some (dec (n / d)) ≡ some q = simp (e, z, a, rescale_price) refl ∙ h in
          let same : dec (n / d) ≡ q = cc in
          let high : n < suc (n / d) * d =
            omega (arith, lt-div-mul-add {a = n} {b = d} (one-le-pow _ 10 (omega arith))) in
          record { value = n / d; text = sym same; size = inl (a, div-mul-le_self n d, high) }
      | inr a ↦ elim (Bool-cases (ltb_ℤ from to)) [
        | inl b ↦
            let d = 10 ^ pos_part (wrap32 (to -ℤ from)) in
            let here : some (dec (n * d)) ≡ some q = simp (e, z, a, b, rescale_price) refl ∙ h in
            let same : dec (n * d) ≡ q = cc in
            record { value = n * d; text = sym same; size = inr (inl (b, refl)) }
        | inr b ↦
            let here : some (dec n) ≡ some q = simp (e, z, a, b, rescale_price) refl ∙ h in
            let same : dec n ≡ q = cc in
            record { value = n; text = sym same; size = inr (inr (a, b, refl)) }
      ]
    ]
