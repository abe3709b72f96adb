-- ===== src/Common/Str.antt =====
-- Go strings as lists of bytes: equality, the bytewise order of `<`, and literals.
use Prim.Native.Char.{code}
use lidapters.Common.{
  ℕ, ◌≡◌, refl, ◌↔◌, ◌⊎◌, inl, inr, Bool, true, false, ◌&&◌, List, [], ◌∷◌, String, arith, ltb,
  ◌==◌, if◌then◌else◌, Bool-cases,
}

abbrev pub Str : Type 0
Str = List ℕ

-- The bytes of an ASCII literal.
abbrev pub lit : String → Str
lit String.[] = []
lit (String.◌∷◌ c s) = code c ∷ lit s

unfoldable pub eq_str : Str → Str → Bool
eq_str [] [] = true
eq_str [] (y ∷ ys) = false
eq_str (x ∷ xs) [] = false
eq_str (x ∷ xs) (y ∷ ys) = (x == y) && eq_str xs ys

unfoldable pub lt_str : Str → Str → Bool
lt_str [] [] = false
lt_str [] (y ∷ ys) = true
lt_str (x ∷ xs) [] = false
lt_str (x ∷ xs) (y ∷ ys) = if ltb x y then true else if ltb y x then false else lt_str xs ys

-- `s == ""`, and `s != ""` is its negation.
abbrev pub is_empty : Str → Bool
is_empty [] = true
is_empty (x ∷ xs) = false

pub eq_str→eq : (a b : Str) → eq_str a b ≡ true → a ≡ b
unfolding eq_str
eq_str→eq [] [] h = refl
eq_str→eq [] (y ∷ ys) h = ground arith
eq_str→eq (x ∷ xs) [] h = ground arith
eq_str→eq (x ∷ xs) (y ∷ ys) h = ground (arith, eq_str→eq xs ys)

pub eq_str_refl : (a : Str) → eq_str a a ≡ true
unfolding eq_str
eq_str_refl [] = refl
eq_str_refl (x ∷ xs) = ground (arith, eq_str_refl xs)

pub eq_str_iff : (a b : Str) → (eq_str a b ≡ true) ↔ (a ≡ b)
eq_str_iff a b = (eq_str→eq a b, λ e. rw e (eq_str_refl b))

pub eq_str_comm : (a b : Str) → eq_str a b ≡ eq_str b a
unfolding eq_str
eq_str_comm [] [] = refl
eq_str_comm [] (y ∷ ys) = refl
eq_str_comm (x ∷ xs) [] = refl
eq_str_comm (x ∷ xs) (y ∷ ys) = ground (arith, eq_str_comm xs ys)

pub lt_str_irrefl : (a : Str) → lt_str a a ≡ false
unfolding lt_str
lt_str_irrefl [] = refl
lt_str_irrefl (x ∷ xs) = ground (arith, lt_str_irrefl xs)

pub lt_str_asym : (a b : Str) → lt_str a b ≡ true → lt_str b a ≡ false
unfolding lt_str
lt_str_asym [] [] h = refl
lt_str_asym [] (y ∷ ys) h = refl
lt_str_asym (x ∷ xs) [] h = ground arith
lt_str_asym (x ∷ xs) (y ∷ ys) h = ground (arith, lt_str_asym xs ys)

-- Two strings neither of which is the smaller are equal.
pub lt_str_total : (a b : Str) → lt_str a b ≡ false → lt_str b a ≡ false → a ≡ b
unfolding lt_str
lt_str_total [] [] h k = refl
lt_str_total [] (y ∷ ys) h k = ground arith
lt_str_total (x ∷ xs) [] h k = ground arith
lt_str_total (x ∷ xs) (y ∷ ys) h k = ground (arith, lt_str_total xs ys)

pub lt_str_trans : (a b c : Str) → lt_str a b ≡ true → lt_str b c ≡ true → lt_str a c ≡ true
unfolding lt_str
lt_str_trans [] [] c h k = ground arith
lt_str_trans [] (y ∷ ys) [] h k = ground arith
lt_str_trans [] (y ∷ ys) (z ∷ zs) h k = refl
lt_str_trans (x ∷ xs) [] c h k = ground arith
lt_str_trans (x ∷ xs) (y ∷ ys) [] h k = ground arith
lt_str_trans (x ∷ xs) (y ∷ ys) (z ∷ zs) h k = ground (arith, lt_str_trans xs ys zs)

pub lt_str_le_trans : (a b c : Str) → lt_str b a ≡ false → lt_str c b ≡ false → lt_str c a ≡ false
lt_str_le_trans a b c h k = elim (Bool-cases (lt_str a b)) [
  | inl e ↦ ground (arith, lt_str_trans c a b)
  | inr e ↦ rw (lt_str_total a b e h) k
]

-- Of two different strings one is the smaller.
pub lt_str_apart : (a b : Str) → eq_str a b ≡ false → (lt_str a b ≡ true) ⊎ (lt_str b a ≡ true)
lt_str_apart a b h = ground (arith, lt_str_total a b, eq_str_iff a b)

pub is_empty→nil : (s : Str) → is_empty s ≡ true → s ≡ []
is_empty→nil [] h = refl
is_empty→nil (c ∷ s) h = cc
