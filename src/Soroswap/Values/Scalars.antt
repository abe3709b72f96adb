-- ===== src/Soroswap/Values/Scalars.antt =====
-- soroswap/state.go: `symbolOrFirst` and `int128String`.
use lidapters.Common.{
  ℕ, zero, suc, ◌+◌, ◌*◌, ◌^◌, ◌<◌, ◌≡◌, refl, sym, ◌∙◌, Option, none, some, List, [], ◌∷◌, arith,
  ltb, inl, inr, Option-cases, if◌then◌else◌,
}
use lidapters.Common.Int.{ℤ, pos, negsuc, sub_ℕ}
use lidapters.Common.Str.{Str}
use lidapters.Common.Decimal.{dec_ℤ, set_string, set_string-dec_ℤ}
use lidapters.Xdr.{Xdr, Parts128}
use lidapters.Soroswap.Values.{join128, int128_string, symbol_within, symbol_or_first}

module _ (x : Xdr) where
  open x use {ScVal, get_sym, get_vec, depth, depth_elements}

  -- What the source does with a value that is no symbol, given what it does with the first element.
  abbrev pub first_of : (ScVal → Str) → Option (Option (List ScVal)) → Str
  first_of f (some (some (w ∷ ws))) = f w
  first_of f _ = []

  abbrev pub step : (ScVal → Str) → ScVal → Str
  step f v = elim (get_sym v) [ some s ↦ s | none ↦ first_of f (get_vec v) ]

  symbol_within-suc : (f : ℕ) (v : ScVal) → symbol_within x (suc f) v ≡ step (symbol_within x f) v
  unfolding symbol_within
  symbol_within-suc f v = elim (Option-cases (get_sym v)) [
    | inr (s, e) ↦ rw (e, symbol_within, step) refl
    | inl e ↦ elim (Option-cases (get_vec v)) [
      | inl g ↦ rw (e, g, symbol_within, step) refl
      | inr (none, g) ↦ rw (e, g, symbol_within, step) refl
      | inr (some [], g) ↦ rw (e, g, symbol_within, step) refl
      | inr (some (w ∷ ws), g) ↦ rw (e, g, symbol_within, step) refl
    ]
  ]

  first_of-eq :
      (f g : ScVal → Str) (v : ScVal) (o : Option (Option (List ScVal)))
      → get_vec v ≡ o
      → ((w : ScVal) → depth w < depth v → f w ≡ g w)
      → first_of f o ≡ first_of g o
  first_of-eq f g v none e h = refl
  first_of-eq f g v (some none) e h = refl
  first_of-eq f g v (some (some [])) e h = refl
  first_of-eq f g v (some (some (w ∷ ws))) e h = h w (depth_elements v (w ∷ ws) e).0

  step-eq :
      (f g : ScVal → Str) (v : ScVal)
      → ((w : ScVal) → depth w < depth v → f w ≡ g w)
      → step f v ≡ step g v
  step-eq f g v h = elim (Option-cases (get_sym v)) [
    | inl e ↦ rw (e, step) (first_of-eq f g v (get_vec v) refl h)
    | inr (s, e) ↦ rw (e, step) refl
  ]

  -- All fuel above the depth of a value gives the same.
  symbol_within_enough :
      (f g : ℕ) (v : ScVal) → depth v < f → depth v < g → symbol_within x f v ≡ symbol_within x g v
  symbol_within_enough zero g v h k = absurd (omega (arith, h))
  symbol_within_enough (suc f) zero v h k = absurd (omega (arith, k))
  symbol_within_enough (suc f) (suc g) v h k =
      symbol_within-suc f v
      ∙ step-eq (symbol_within x f) (symbol_within x g) v
          (λ w l. symbol_within_enough f g w (omega (arith, l, h)) (omega (arith, l, k)))
      ∙ sym (symbol_within-suc g v)

  -- The function satisfies the recursion of the source without a bound: a symbol gives itself, a
  -- vector that is not empty gives what its first element gives, and all else gives nothing.
  pub symbol_or_first-step : (v : ScVal) → symbol_or_first x v ≡ step (symbol_or_first x) v
  unfolding symbol_or_first
  symbol_or_first-step v =
      symbol_within-suc (depth v) v
      ∙ step-eq (symbol_within x (depth v)) (symbol_or_first x) v
          (λ w l. symbol_within_enough (depth v) (suc (depth w)) w l (omega arith))

-- The integer `z` has the 128 bits of `p` in two's complement.
abbrev pub IsSigned : Parts128 → ℤ → Type 0
IsSigned p (pos n) = (p.hi * 2 ^ 64 + p.lo ≡ n) × (n < 2 ^ 127)
IsSigned p (negsuc n) = (p.hi * 2 ^ 64 + p.lo + (n + 1) ≡ 2 ^ 128) × (n < 2 ^ 127)

signed : Parts128 → ℤ
signed p = if ltb p.hi (2 ^ 63) then pos (join128 p) else sub_ℕ (join128 p) (2 ^ 128)

signed-IsSigned : (p : Parts128) → p.hi < 2 ^ 64 → p.lo < 2 ^ 64 → IsSigned p (signed p)
unfolding signed join128
signed-IsSigned p h k = ground arith

-- For halves of 64 bits the text is that of an integer from -2^127 to 2^127 - 1, the one with these
-- 128 bits in two's complement, and it reads back as that integer.
pub int128_string_value :
    (p : Parts128)
    → p.hi < 2 ^ 64
    → p.lo < 2 ^ 64
    → (z : ℤ) × IsSigned p z × (int128_string p ≡ dec_ℤ z) × (set_string (int128_string p) ≡ some z)
unfolding int128_string signed
int128_string_value p h k = (signed p, signed-IsSigned p h k, refl, set_string-dec_ℤ (signed p))
