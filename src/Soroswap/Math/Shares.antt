-- ===== src/Soroswap/Math/Shares.antt =====
-- soroswap/math.go: `proRata` on the texts of numbers, for one holder and for all of a pair.
use Prim.Native.Nat.{zero-le}
use native.Mathlib.Nat.{le_trans, le_of_eq, le-div_iff_mul-le, div-mul-le_self, mul-div_cancel_left}
use lidapters.Common.{
  ℕ, ◌+◌, ◌*◌, ◌/◌, ◌≤◌, ◌<◌, ◌≡◌, none, some, List, [], ◌∷◌, arith, ◌==◌, if◌then◌else◌, map, All,
}
use lidapters.Common.Decimal.{dec, set_string-dec}
use lidapters.Soroswap.Math.{parse_uint, pro_rata}

pub parse_uint-dec : (n : ℕ) → parse_uint (dec n) ≡ some n
unfolding parse_uint
parse_uint-dec n = rw (set_string-dec n)

-- On the texts of numbers the decomposition is the rounded-down quotient, and fails exactly if
-- there are no shares in total.
pub pro_rata-dec :
    (s r t : ℕ)
    → pro_rata (dec s) (dec r) (dec t) ≡ (if t == 0 then none else some (dec (s * r / t)))
unfolding pro_rata
pro_rata-dec s r t = rw (parse_uint-dec s, parse_uint-dec r, parse_uint-dec t)

abbrev pub sum : List ℕ → ℕ
sum [] = 0
sum (n ∷ ns) = n + sum ns

div_sum : (a b t : ℕ) → 0 < t → a / t + b / t ≤ (a + b) / t
div_sum a b t h = (le-div_iff_mul-le h).1 (omega (arith, div-mul-le_self a t, div-mul-le_self b t))

div_mono : (a b t : ℕ) → 0 < t → a ≤ b → a / t ≤ b / t
div_mono a b t h k = (le-div_iff_mul-le h).1 (omega (arith, div-mul-le_self a t))

-- The amount of each holder.
abbrev pub amounts : List ℕ → ℕ → ℕ → List ℕ
amounts ns r t = map (λ s. s * r / t) ns

sum-amounts : (ns : List ℕ) (r t : ℕ) → 0 < t → sum (amounts ns r t) ≤ sum ns * r / t
sum-amounts [] r t h = zero-le
sum-amounts (n ∷ ns) r t h =
    let e : (n + sum ns) * r ≡ n * r + sum ns * r = omega arith in
    rw e (le_trans (omega (arith, sum-amounts ns r t h)) (div_sum (n * r) (sum ns * r) t h))

pro_rata_each :
    (shares : List ℕ) (r t : ℕ)
    → 0 < t
    → All (λ s. pro_rata (dec s) (dec r) (dec t) ≡ some (dec (s * r / t))) shares
pro_rata_each [] r t h = tt
pro_rata_each (s ∷ ss) r t h = (ground (arith, pro_rata-dec s r t), pro_rata_each ss r t h)

-- Where the holders' shares together are at most the total, which is not zero, each holder gets
-- the rounded-down quotient, and all of them together get at most the reserve.
pub pro_rata_conserves :
    (shares : List ℕ) (reserve total : ℕ)
    → 0 < total
    → sum shares ≤ total
    → All
        (λ s. pro_rata (dec s) (dec reserve) (dec total) ≡ some (dec (s * reserve / total)))
        shares
      × (sum (amounts shares reserve total) ≤ reserve)
pro_rata_conserves shares r t pos fits = (
  pro_rata_each shares r t pos,
  le_trans (sum-amounts shares r t pos) (
      le_trans (div_mono (sum shares * r) (t * r) t pos (grind arith))
        (le_of_eq (mul-div_cancel_left r pos))),
)
