-- ===== src/Common/IntDict.antt =====
-- Go maps with integer keys, as association lists.
use lidapters.Common.{
  suc, ◌≡◌, refl, ◌↔◌, Bool, true, false, Option, none, some, List, [], ◌∷◌, arith, ◌==◌,
  if◌then◌else◌, length,
}
use lidapters.Common.Int.{ℤ, pos, negsuc}

abbrev pub eq_ℤ : ℤ → ℤ → Bool
eq_ℤ (pos m) (pos n) = m == n
eq_ℤ (negsuc m) (negsuc n) = m == n
eq_ℤ _ _ = false

-- `map[int32]V` and `map[int64]V`.
abbrev pub IntDict : Type 0 → Type 0
IntDict V = List (ℤ × V)

module _ {V : Type 0} where
  unfoldable pub find_int : ℤ → IntDict V → Option V
  find_int k [] = none
  find_int k ((j, v) ∷ m) = if eq_ℤ j k then some v else find_int k m

  -- `m[k] = v`
  unfoldable pub put_int : ℤ → V → IntDict V → IntDict V
  put_int k v [] = (k, v) ∷ []
  put_int k v ((j, w) ∷ m) = if eq_ℤ j k then (k, v) ∷ m else (j, w) ∷ put_int k v m

eq_ℤ_refl : (a : ℤ) → eq_ℤ a a ≡ true
eq_ℤ_refl (pos n) = ground arith
eq_ℤ_refl (negsuc n) = ground arith

eq_ℤ_to : (a b : ℤ) → eq_ℤ a b ≡ true → a ≡ b
eq_ℤ_to (pos m) (pos n) h = ground arith
eq_ℤ_to (pos m) (negsuc n) h = cc
eq_ℤ_to (negsuc m) (pos n) h = cc
eq_ℤ_to (negsuc m) (negsuc n) h = ground arith

pub eq_ℤ_iff : (a b : ℤ) → (eq_ℤ a b ≡ true) ↔ (a ≡ b)
eq_ℤ_iff a b = (eq_ℤ_to a b, λ e. rw e (eq_ℤ_refl b))

module _ {V : Type 0} where
  -- `delete(m, k)`
  unfoldable pub drop_int : ℤ → IntDict V → IntDict V
  drop_int k [] = []
  drop_int k ((j, v) ∷ m) = if eq_ℤ j k then m else (j, v) ∷ drop_int k m

  -- No key is there twice.
  abbrev pub HasKeysOnce : IntDict V → Type 0
  HasKeysOnce [] = Unit
  HasKeysOnce ((k, v) ∷ m) = (find_int k m ≡ none) × HasKeysOnce m

  pub find_int-put_int :
      (k j : ℤ) (v : V) (m : IntDict V)
      → find_int j (put_int k v m) ≡ (if eq_ℤ k j then some v else find_int j m)
  unfolding find_int put_int
  find_int-put_int k j v [] = refl
  find_int-put_int k j v ((i, w) ∷ m) =
      ground (arith, eq_ℤ_iff k j, eq_ℤ_iff i k, eq_ℤ_iff i j, find_int-put_int k j v m)

  pub put_int-HasKeysOnce :
      (k : ℤ) (v : V) (m : IntDict V) → HasKeysOnce m → HasKeysOnce (put_int k v m)
  unfolding put_int find_int
  put_int-HasKeysOnce k v [] h = (refl, tt)
  put_int-HasKeysOnce k v ((j, w) ∷ m) h =
      ground
        (arith, eq_ℤ_iff j k, eq_ℤ_iff k j, find_int-put_int k j v m, put_int-HasKeysOnce k v m h.1)

  pub find_int-drop_int :
      (k j : ℤ) (m : IntDict V)
      → HasKeysOnce m
      → find_int j (drop_int k m) ≡ (if eq_ℤ k j then none else find_int j m)
  unfolding find_int drop_int
  find_int-drop_int k j [] h = ground arith
  find_int-drop_int k j ((i, w) ∷ m) h =
      ground (arith, eq_ℤ_iff k j, eq_ℤ_iff i k, eq_ℤ_iff i j, find_int-drop_int k j m h.1)

  pub drop_int-HasKeysOnce : (k : ℤ) (m : IntDict V) → HasKeysOnce m → HasKeysOnce (drop_int k m)
  unfolding drop_int
  drop_int-HasKeysOnce k [] h = tt
  drop_int-HasKeysOnce k ((j, w) ∷ m) h =
      ground (arith, eq_ℤ_iff k j, find_int-drop_int k j m h.1, drop_int-HasKeysOnce k m h.1)

  pub length-drop_int :
      (k : ℤ) (v : V) (m : IntDict V)
      → find_int k m ≡ some v
      → suc (length (drop_int k m)) ≡ length m
  unfolding find_int drop_int
  length-drop_int k v [] h = cc
  length-drop_int k v ((j, w) ∷ m) h = ground (arith, length-drop_int k v m)
