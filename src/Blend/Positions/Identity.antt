-- ===== src/Blend/Positions/Identity.antt =====
-- blend/state.go, `typedUserEntityKey`: what a key tells of its user and pool.
use lidapters.Common.{◌≡◌, refl, false, [], ◌∷◌, arith, ◌==◌, All}
use lidapters.Common.Str.{Str}
use lidapters.Blend.Positions.{typed_user_entity_key}

-- The text has no `|`.
abbrev pub HasNoBar : Str → Type 0
HasNoBar = All (λ c. (c == b'|') ≡ false)

-- The key is that of an address and a pool, and the address has no `|`, as no encoded address has.
pub record IsKeyOf (k address pool : Str) : Type 0 where
  pub key : k ≡ typed_user_entity_key address pool
  pub plain : HasNoBar address

key_inj :
    (a b p q : Str)
    → HasNoBar a
    → HasNoBar b
    → typed_user_entity_key a p ≡ typed_user_entity_key b q
    → (a ≡ b) × (p ≡ q)
unfolding typed_user_entity_key
key_inj [] [] p q h g e = (refl, ground arith)
key_inj [] (d ∷ b) p q h g e = absurd (ground arith)
key_inj (c ∷ a) [] p q h g e = absurd (ground arith)
key_inj (c ∷ a) (d ∷ b) p q h g e =
    let (f, r) = key_inj a b p q h.1 g.1 (cc) in let same : c ≡ d = cc in (cc, r)

-- A key is that of one address and pool only.
pub IsKeyOf-once : (k a b p q : Str) → IsKeyOf k a p → IsKeyOf k b q → (a ≡ b) × (p ≡ q)
IsKeyOf-once k a b p q h g = key_inj a b p q h.plain g.plain (cc (h.key, g.key))
