-- ===== src/Aquarius/Transform/Ranges.antt =====
-- aquarius/transform.go, `appendRangeComponents`: the amounts of a range position.
use lidapters.Common.{
  ℕ, ◌-◌, ◌*◌, ◌/◌, ◌^◌, ◌<◌, ◌≡◌, refl, ap, ◌∙◌, true, false, ◌&&◌, List, [], ◌∷◌, ◌++◌, arith,
  ◌≢◌, Bool-cases, inl, inr, if◌then◌else◌, map, ◌==◌,
}
use lidapters.Common.Str.{Str, lit, eq_str}
use lidapters.Common.Decimal.{dec, dec_not_empty, dec_not_zero, dec_zero}
use lidapters.Xdr.{Xdr}
use lidapters.Bindings.State.{AmmPoolState, AmmPositionState, AmmTokenReserve}
use lidapters.Bindings.Rows.{TransformInput, AmmPositionComponent}
use lidapters.Aquarius.Math.Principal.{clamp, range_principal-eq}
use lidapters.Aquarius.Work.{is_nonzero}
use lidapters.Aquarius.Transform.{
  component, principals, range_leg, range_open, is_closed_range, append_range_components,
}

-- What a component says: the token, the kind, the amount.
abbrev pub said : AmmPositionComponent → Str × Str × Str
said r = (r.asset_id, r.component_kind, r.amount_raw)

-- An amount of a token, if it is not zero.
abbrev pub amount_of : AmmTokenReserve → Str → ℕ → List (Str × Str × Str)
amount_of t kind n = if n == 0 then [] else (t.asset_id, kind, dec n) ∷ []

-- A range position of liquidity `l` between the prices `a` and `b`, with fees and no principal of
-- its own, and a pool at the price `price`.
pub record HasRange (p : AmmPositionState) (pool : AmmPoolState) (l price a b fee0 fee1 : ℕ)
    : Type 0 where
  pub liquidity : p.liquidity_raw ≡ dec l
  pub lower : p.sqrt_price_lower_x96 ≡ dec a
  pub upper : p.sqrt_price_upper_x96 ≡ dec b
  pub at : pool.sqrt_price_x96 ≡ dec price
  pub principal0 : p.principal0_raw ≡ []
  pub principal1 : p.principal1_raw ≡ []
  pub pending0 : p.pending_fee0_raw ≡ dec fee0
  pub pending1 : p.pending_fee1_raw ≡ dec fee1

is_nonzero-dec : (n : ℕ) → is_nonzero (dec n) ≡ (if n == 0 then false else true)
unfolding eq_str
is_nonzero-dec n = elim (Bool-cases (n == 0)) [
  | inl e ↦ let z : n ≡ 0 = ground (arith, e) in rw (z, dec_zero) refl
  | inr e ↦ let z : n ≢ 0 = ground (arith, e) in rw (dec_not_empty n, dec_not_zero n z, e) refl
]

module _ (x : Xdr) (group : Str) (p : AmmPositionState) (pool : AmmPoolState)
    (input : TransformInput) (l price a b fee0 fee1 : ℕ) where
  said-range_leg :
      (t : AmmTokenReserve) (kind shares : Str) (n : ℕ) (rest : List AmmPositionComponent)
      → map said (range_leg x group p pool input t kind (dec n) shares ++ rest)
        ≡ amount_of t kind n ++ map said rest
  unfolding component
  said-range_leg t kind shares n rest = elim (Bool-cases (n == 0)) [
    | inl e ↦ rw (is_nonzero-dec n, e) refl
    | inr e ↦ rw (is_nonzero-dec n, e) refl
  ]

  said-range_last :
      (t : AmmTokenReserve) (kind shares : Str) (n : ℕ)
      → map said (range_leg x group p pool input t kind (dec n) shares) ≡ amount_of t kind n
  unfolding component
  said-range_last t kind shares n = elim (Bool-cases (n == 0)) [
    | inl e ↦ rw (is_nonzero-dec n, e) refl
    | inr e ↦ rw (is_nonzero-dec n, e) refl
  ]

  said-range_open :
      (t u : AmmTokenReserve) (m n : ℕ)
      → HasRange p pool l price a b fee0 fee1
      → map said (range_open x group p pool input t u (dec m) (dec n))
        ≡ amount_of t (lit "range_principal") m
          ++ (amount_of u (lit "range_principal") n
              ++ (amount_of t (lit "unclaimed_fee") fee0 ++ amount_of u (lit "unclaimed_fee") fee1))
  unfolding range_open component
  said-range_open t u m n h =
      rw (h.pending0, h.pending1)
        (said-range_leg t (lit "range_principal") p.liquidity_raw m _
          ∙ ap (λ rest. amount_of t (lit "range_principal") m ++ rest)
              (said-range_leg u (lit "range_principal") p.liquidity_raw n _
                ∙ ap (λ rest. amount_of u (lit "range_principal") n ++ rest)
                    (said-range_leg t (lit "unclaimed_fee") [] fee0 _
                      ∙ ap (λ rest. amount_of t (lit "unclaimed_fee") fee0 ++ rest)
                          (said-range_last u (lit "unclaimed_fee") [] fee1))))

  principals-eq :
      HasRange p pool l price a b fee0 fee1
      → 0 < a
      → a < b
      → let q = clamp a b price in
        principals p pool ≡ (dec (l * 2 ^ 96 * (b - q) / (b * q)), dec (l * (q - a) / 2 ^ 96))
  unfolding principals
  principals-eq h pos lt =
      rw
        (
          h.liquidity,
          h.lower,
          h.upper,
          h.at,
          h.principal0,
          h.principal1,
          dec_not_empty l,
          dec_not_empty a,
          dec_not_empty b,
          dec_not_empty price,
          range_principal-eq l price a b pos lt,
        )
        refl

  -- A range position of a liquidity `l` other than zero, with a positive lower bound `a` below the
  -- upper bound `b`, gives for each of the first two tokens of its pool the principal that the
  -- liquidity is worth at the price `q`, the pool's held to the range, rounded down once, and the
  -- pending fee, each if it is not zero, and nothing else.
  pub append_range_components-eq :
      (t u : AmmTokenReserve) (ts : List AmmTokenReserve)
      → HasRange p pool l price a b fee0 fee1
      → 0 < l
      → 0 < a
      → a < b
      → let q = clamp a b price in
        map said (append_range_components x group p pool input (t ∷ u ∷ ts))
        ≡ amount_of t (lit "range_principal") (l * 2 ^ 96 * (b - q) / (b * q))
          ++ (amount_of u (lit "range_principal") (l * (q - a) / 2 ^ 96)
              ++ (amount_of t (lit "unclaimed_fee") fee0 ++ amount_of u (lit "unclaimed_fee") fee1))
  unfolding append_range_components is_closed_range
  append_range_components-eq t u ts h some_l pos lt =
      let shut : is_closed_range x group p pool input ≡ false =
        ap (λ s. eq_str s (lit "0") && p.had_shares) h.liquidity
        ∙ ap (λ e. e && p.had_shares) (dec_not_zero l (ground arith)) in
      rw (shut, principals-eq h pos lt)
        (said-range_open t u (l * 2 ^ 96 * (b - clamp a b price) / (b * clamp a b price))
          (l * (clamp a b price - a) / 2 ^ 96) h)
