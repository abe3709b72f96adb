-- ===== src/Aquarius/Math/Principal.antt =====
-- aquarius/math.go: `rangePrincipal` on the texts of numbers.
use native.Mathlib.Nat.{
  le_trans, le-div_iff_mul-le, div-mul-le_self, div-div-eq-div-mul, zero-div, mul-pos,
}
use lidapters.Common.{
  ℕ, ◌-◌, ◌*◌, ◌/◌, ◌^◌, ◌≤◌, ◌<◌, ◌≡◌, ◌↔◌, ◌⊎◌, refl, none, some, arith, ltb, leb, if◌then◌else◌,
}
use lidapters.Common.Decimal.{dec, set_string-dec}
use lidapters.Aquarius.Math.{
  parse_uint, mul_div_floor, q96, amount0, amount1, principal_amounts, range_principal,
}

pub parse_uint-dec : (n : ℕ) → parse_uint (dec n) ≡ some n
unfolding parse_uint
parse_uint-dec n = rw (set_string-dec n)

-- The price held to the range.
abbrev pub clamp : ℕ → ℕ → ℕ → ℕ
clamp a b p = if leb p a then a else if ltb p b then p else b

amount0_self : (l b : ℕ) → amount0 l b b ≡ 0
unfolding amount0
amount0_self l b =
    let e : l * 2 ^ 96 * (b - b) ≡ 0 = let d : b - b ≡ 0 = omega arith in rw d (omega arith) in
    rw e (rw (zero-div b) (zero-div b))

amount1_self : (l a : ℕ) → amount1 l a a ≡ 0
unfolding amount1 mul_div_floor
amount1_self l a =
    let e : l * (a - a) ≡ 0 = let d : a - a ≡ 0 = omega arith in rw d (omega arith) in
    rw e (omega arith)

-- The two divisions of the code round down once.
pub amount0-eq_div : (l x y : ℕ) → amount0 l x y ≡ l * 2 ^ 96 * (y - x) / (y * x)
unfolding amount0
amount0-eq_div l x y = div-div-eq-div-mul (l * 2 ^ 96 * (y - x)) y x

pub mul_mono : (c a b : ℕ) → a ≤ b → c * a ≤ c * b
mul_mono c a b h = grind arith

pub div_mono : (a b t : ℕ) → 0 < t → a ≤ b → a / t ≤ b / t
div_mono a b t h k = (le-div_iff_mul-le h).1 (omega (arith, div-mul-le_self a t))

div_anti : (a t u : ℕ) → 0 < t → t ≤ u → a / u ≤ a / t
div_anti a t u h k = (le-div_iff_mul-le h).1 (le_trans (grind arith) (div-mul-le_self a u))

-- A higher price within the range leaves no more of token 0 and no less of token 1.
amount0_anti : (l x x' y : ℕ) → 0 < x → x ≤ x' → x' ≤ y → amount0 l x' y ≤ amount0 l x y
amount0_anti l x x' y pos h k =
    rw (amount0-eq_div l x' y, amount0-eq_div l x y)
      (le_trans
        (div_mono (l * 2 ^ 96 * (y - x')) (l * 2 ^ 96 * (y - x)) (y * x')
          (mul-pos (omega arith) (omega arith))
          (mul_mono (l * 2 ^ 96) (y - x') (y - x) (omega arith)))
        (div_anti (l * 2 ^ 96 * (y - x)) (y * x) (y * x') (mul-pos (omega arith) (omega arith))
          (mul_mono y x x' h)))

amount1_mono : (l a x x' : ℕ) → x ≤ x' → amount1 l a x ≤ amount1 l a x'
unfolding amount1 mul_div_floor
amount1_mono l a x x' h =
    div_mono (l * (x - a)) (l * (x' - a)) q96 (omega arith)
      (mul_mono l (x - a) (x' - a) (omega arith))

clamp_range : (a b p : ℕ) → a < b → (a ≤ clamp a b p) × (clamp a b p ≤ b)
clamp_range a b p h = ground arith

clamp_mono : (a b p p' : ℕ) → a < b → p ≤ p' → clamp a b p ≤ clamp a b p'
clamp_mono a b p p' h k = ground arith

principal_amounts-eq :
    (l p a b : ℕ)
    → 0 < a
    → a < b
    → principal_amounts l p a b ≡ some (amount0 l (clamp a b p) b, amount1 l a (clamp a b p))
unfolding principal_amounts
principal_amounts-eq l p a b pos h = ground (arith, amount0_self l b, amount1_self l a)

-- On the texts of numbers, with a positive lower bound `a` below the upper bound `b`, the
-- principal of a liquidity `l` is its worth at the price `q`, the given one held to the range: of
-- token 0, l (b - q) / (b q), scaled by 2^96, and of token 1, l (q - a) / 2^96, each rounded down
-- once.
pub range_principal-eq :
    (l p a b : ℕ)
    → 0 < a
    → a < b
    → let q = clamp a b p in
      range_principal (dec l) (dec p) (dec a) (dec b)
      ≡ some (dec (l * 2 ^ 96 * (b - q) / (b * q)), dec (l * (q - a) / 2 ^ 96))
unfolding range_principal amount1 mul_div_floor
range_principal-eq l p a b pos h =
    rw
      (
        parse_uint-dec l,
        parse_uint-dec p,
        parse_uint-dec a,
        parse_uint-dec b,
        principal_amounts-eq l p a b pos h,
      )
      (rw (amount0-eq_div l (clamp a b p) b) refl)

principal_none_iff : (l p a b : ℕ) → (principal_amounts l p a b ≡ none) ↔ ((a ≡ 0) ⊎ (b ≤ a))
unfolding principal_amounts
principal_none_iff l p a b = (λ h. ground arith, λ h. ground arith)

-- On the texts of numbers the call fails exactly if the lower bound is zero or not below the upper
-- bound.
pub range_principal-none_iff :
    (l p a b : ℕ) → (range_principal (dec l) (dec p) (dec a) (dec b) ≡ none) ↔ ((a ≡ 0) ⊎ (b ≤ a))
unfolding range_principal
range_principal-none_iff l p a b =
    rw (parse_uint-dec l, parse_uint-dec p, parse_uint-dec a, parse_uint-dec b)
      (
        λ h. (principal_none_iff l p a b).0 (ground arith),
        λ h. ground (arith, (principal_none_iff l p a b).1 h),
      )

-- On the texts of numbers, with a positive lower bound below the upper bound: as the price rises,
-- the position holds no more of token 0 and no less of token 1, and never more of token 0 than at
-- the lower end of the range, or of token 1 than at the upper end.
pub range_principal_mono :
    (l p p' a b : ℕ)
    → 0 < a
    → a < b
    → p ≤ p'
    → (x0 x1 y0 y1 : ℕ) × (range_principal (dec l) (dec p) (dec a) (dec b) ≡ some (dec x0, dec x1))
      × (range_principal (dec l) (dec p') (dec a) (dec b) ≡ some (dec y0, dec y1))
      × (y0 ≤ x0)
      × (x1 ≤ y1)
      × (x0 ≤ amount0 l a b)
      × (y1 ≤ amount1 l a b)
unfolding range_principal
range_principal_mono l p p' a b pos h k =
    let q = clamp a b p in
    let q' = clamp a b p' in
    let (qa, qb) = clamp_range a b p h in
    let (qa', qb') = clamp_range a b p' h in
    let qq : q ≤ q' = clamp_mono a b p p' h k in
    (
      amount0 l q b,
      amount1 l a q,
      amount0 l q' b,
      amount1 l a q',
      rw
          (
            parse_uint-dec l,
            parse_uint-dec p,
            parse_uint-dec a,
            parse_uint-dec b,
            principal_amounts-eq l p a b pos h,
          )
          refl,
      rw
          (
            parse_uint-dec l,
            parse_uint-dec p',
            parse_uint-dec a,
            parse_uint-dec b,
            principal_amounts-eq l p' a b pos h,
          )
          refl,
      amount0_anti l q q' b (le_trans pos qa) qq qb',
      amount1_mono l a q q' qq,
      amount0_anti l a q b pos qa qb,
      amount1_mono l a q' b qb',
    )
