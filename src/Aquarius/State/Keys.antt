-- ===== src/Aquarius/State/Keys.antt =====
-- aquarius/state.go: `positionKey` determines the ticks of a position.
use mathlib.Core.List.{append_assoc}
use mathlib.Core.Path.{subst}
use lidapters.Common.{◌<◌, ◌≡◌, refl, sym, ap, ◌∙◌, Option, none, some, [], ◌∷◌, ◌++◌, arith, All}
use lidapters.Common.Str.{Str, lit}
use lidapters.Common.Decimal.{dec_ℤ, dec_ℤ_low, set_string-dec_ℤ}
use lidapters.Common.Int.{ℤ}
use lidapters.Bindings.State.{AmmPositionState}
use lidapters.Aquarius.Values.{position_key}

-- No byte of the text is above b'9', so none is a bar.
abbrev IsLow : Str → Type 0
IsLow s = All (λ c. c < 58) s

bar_absurd : (v t : Str) → IsLow (v ++ 124 ∷ t) → ⊥
bar_absurd [] t h = omega (arith, h.0)
bar_absurd (y ∷ v) t h = bar_absurd v t h.1

split_last : (u v s t : Str) → IsLow s → IsLow t → u ++ 124 ∷ s ≡ v ++ 124 ∷ t → (u ≡ v) × (s ≡ t)
split_last [] [] s t hs ht e = (refl, cc)
split_last [] (y ∷ v) s t hs ht e =
    let q : s ≡ v ++ 124 ∷ t = cc in absurd (bar_absurd v t (subst IsLow q hs))
split_last (y ∷ u) [] s t hs ht e =
    let q : t ≡ u ++ 124 ∷ s = cc in absurd (bar_absurd u s (subst IsLow q ht))
split_last (y ∷ u) (z ∷ v) s t hs ht e =
    let q : u ++ 124 ∷ s ≡ v ++ 124 ∷ t = cc in
    let (p, r) = split_last u v s t hs ht q in let h : y ≡ z = cc in (cc, r)

-- The key before the upper tick.
abbrev stem : AmmPositionState → Str
stem p = (p.pool_contract_id ++ (124 ∷ p.address)) ++ 124 ∷ dec_ℤ p.tick_lower

position_key-stem : (p : AmmPositionState) → position_key p ≡ stem p ++ 124 ∷ dec_ℤ p.tick_upper
unfolding position_key
position_key-stem p = simp append_assoc

dec_ℤ-injective : (y z : ℤ) → dec_ℤ y ≡ dec_ℤ z → y ≡ z
dec_ℤ-injective y z e = ground (arith, set_string-dec_ℤ y, set_string-dec_ℤ z)

pub position_key_ticks :
    (p q : AmmPositionState)
    → position_key p ≡ position_key q
    → (p.tick_lower ≡ q.tick_lower) × (p.tick_upper ≡ q.tick_upper)
position_key_ticks p q e =
    let (a, b) =
      split_last (stem p) (stem q) (dec_ℤ p.tick_upper) (dec_ℤ q.tick_upper)
        (dec_ℤ_low p.tick_upper) (dec_ℤ_low q.tick_upper)
        (sym (position_key-stem p) ∙ e ∙ position_key-stem q) in
    let (c, d) =
      split_last (p.pool_contract_id ++ (124 ∷ p.address)) (q.pool_contract_id ++ (124 ∷ q.address))
        (dec_ℤ p.tick_lower) (dec_ℤ q.tick_lower) (dec_ℤ_low p.tick_lower) (dec_ℤ_low q.tick_lower)
        a in
    (dec_ℤ-injective p.tick_lower q.tick_lower d, dec_ℤ-injective p.tick_upper q.tick_upper b)

-- The position found under the key of `p` has that key.
abbrev pub IsFound : AmmPositionState → Option AmmPositionState → Type 0
IsFound p none = Unit
IsFound p (some c) = position_key c ≡ position_key p

-- With the ticks of a position that has the same key the key stays.
pub retick_key :
    (c p : AmmPositionState)
    → position_key c ≡ position_key p
    → position_key (record c { tick_lower = p.tick_lower; tick_upper = p.tick_upper })
      ≡ position_key p
unfolding position_key
retick_key c p e =
    let (lo, hi) = position_key_ticks c p e in
    ap
      (λ (t : ℤ × ℤ).
        c.pool_contract_id
        ++ (lit "|" ++ (c.address ++ (lit "|" ++ (dec_ℤ t.0 ++ (lit "|" ++ dec_ℤ t.1))))))
      (λ i. (sym lo i, sym hi i))
    ∙ e
