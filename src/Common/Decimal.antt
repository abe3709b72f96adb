-- ===== src/Common/Decimal.antt =====
-- Decimal text of `big.Int`: `String()` and `SetString(s, 10)`.
use lidapters.Common.{
  ℕ, zero, suc, ◌+◌, ◌-◌, ◌*◌, ◌/◌, ◌%◌, ◌≤◌, ◌<◌, ◌≡◌, refl, ◌∙◌, ap, ◌≢◌, inl, inr, Bool, false,
  ◌&&◌, Option, none, some, [], ◌∷◌, ◌++◌, arith, ltb, leb, ◌==◌, if◌then◌else◌, Bool-cases, ◌>>=◌,
  All, All-append,
}
use lidapters.Common.Str.{Str, lit, is_empty, eq_str, eq_str_iff, is_empty→nil}
use lidapters.Common.Int.{ℤ, pos, negsuc}

-- The digits of a number, the most significant first; the fuel bounds their count.
digits : ℕ → ℕ → Str
digits zero n = []
digits (suc f) n =
    let more = digits f (n / 10) ++ (48 + n % 10) ∷ [] in if ltb n 10 then (48 + n) ∷ [] else more

-- `n.String()` for n ≥ 0
unfoldable pub dec : ℕ → Str
unfolding digits
dec n = digits (suc n) n

-- `z.String()`
unfoldable pub dec_ℤ : ℤ → Str
dec_ℤ (pos n) = dec n
dec_ℤ (negsuc n) = b'-' ∷ dec (suc n)

abbrev pub is_digit : ℕ → Bool
is_digit c = leb 48 c && leb c 57

unfoldable pub digits_from : ℕ → Str → Option ℕ
digits_from a [] = some a
digits_from a (c ∷ s) =
    let rest = digits_from (a * 10 + (c - 48)) s in if is_digit c then rest else none

-- At least one digit, and nothing else.
unfoldable pub magnitude : Str → Option ℕ
unfolding digits_from
magnitude [] = none
magnitude (c ∷ s) = digits_from 0 (c ∷ s)

-- -n as an integer
abbrev pub neg_ℕ : ℕ → ℤ
neg_ℕ zero = pos 0
neg_ℕ (suc n) = negsuc n

-- `new(big.Int).SetString(s, 10)`: an optional sign, then decimal digits
unfoldable pub set_string : Str → Option ℤ
unfolding magnitude
set_string [] = none
set_string (c ∷ s) =
    if c == b'-'
    then (magnitude s >>= λ n. some (neg_ℕ n))
    else if c == b'+'
    then (magnitude s >>= λ n. some (pos n))
    else (magnitude (c ∷ s) >>= λ n. some (pos n))

digits_from-append :
    (a : ℕ) (s t : Str) → digits_from a (s ++ t) ≡ (digits_from a s >>= λ v. digits_from v t)
unfolding digits_from
digits_from-append a [] t = refl
digits_from-append a (c ∷ s) t = ground (arith, digits_from-append (a * 10 + (c - 48)) s t)

digits_from-digits : (f n : ℕ) → n < f → digits_from 0 (digits f n) ≡ some n
unfolding digits digits_from
digits_from-digits zero n h = elim h [ ]
digits_from-digits (suc f) n h = ground (
  arith,
  digits_from-append 0 (digits f (n / 10)) ((48 + n % 10) ∷ []),
  digits_from-digits f (n / 10),
)

-- The text of a number begins with a digit.
digits_head : (f n : ℕ) → n < f → (c : ℕ) × (s : Str) × (digits f n ≡ c ∷ s) × (48 ≤ c) × (c ≤ 57)
unfolding digits
digits_head zero n h = elim h [ ]
digits_head (suc f) n h = elim (Bool-cases (ltb n 10)) [
  | inl small ↦ (48 + n, [], rw small, ground arith, ground arith)
  | inr large ↦
      let (c, s, e, lo, hi) = digits_head f (n / 10) (ground arith) in
      (c, s ++ (48 + n % 10) ∷ [], rw (large, e), lo, hi)
]

-- The bytes of a number's text are digits or the sign: none is above b'9'.
digits_low : (f n : ℕ) → All (λ c. c < 58) (digits f n)
unfolding digits
digits_low zero n = tt
digits_low (suc f) n = elim (Bool-cases (ltb n 10)) [
  | inl e ↦ rw e (ground arith, tt)
  | inr e ↦ rw e (
      All-append (λ (c : ℕ). c < 58) (digits f (n / 10)) ((48 + n % 10) ∷ [])
        (digits_low f (n / 10)) (omega arith, tt))
]

pub dec_ℤ_low : (z : ℤ) → All (λ c. c < 58) (dec_ℤ z)
unfolding dec dec_ℤ
dec_ℤ_low (pos n) = digits_low (suc n) n
dec_ℤ_low (negsuc n) = (omega arith, digits_low (suc (suc n)) (suc n))

magnitude_cons : (s : Str) {c : ℕ} {t : Str} → s ≡ c ∷ t → magnitude s ≡ digits_from 0 s
unfolding magnitude
magnitude_cons [] e = cc
magnitude_cons (c ∷ t) e = refl

unsigned :
    (s : Str) {c : ℕ} {t : Str}
    → s ≡ c ∷ t
    → 48 ≤ c
    → set_string s ≡ (magnitude s >>= λ n. some (pos n))
unfolding set_string
unsigned [] e h = cc
unsigned (c ∷ t) e h = ground arith

magnitude-dec : (n : ℕ) → magnitude (dec n) ≡ some n
unfolding dec
magnitude-dec n =
    let (c, s, e, lo, hi) = digits_head (suc n) n (omega arith) in
    magnitude_cons (digits (suc n) n) e ∙ digits_from-digits (suc n) n (omega arith)

set_string_nil : set_string [] ≡ none
unfolding set_string
set_string_nil = refl

-- Reading the text of a number gives the number.
pub set_string-dec : (n : ℕ) → set_string (dec n) ≡ some (pos n)
unfolding dec
set_string-dec n =
    let (c, s, e, lo, hi) = digits_head (suc n) n (omega arith) in
    let m : magnitude (digits (suc n) n) ≡ some n = magnitude-dec n in
    unsigned (digits (suc n) n) e lo ∙ ap (λ o. o >>= λ n. some (pos n)) m

-- Reading the text of an integer gives the integer.
pub set_string-dec_ℤ : (z : ℤ) → set_string (dec_ℤ z) ≡ some z
unfolding dec_ℤ
set_string-dec_ℤ (pos n) = set_string-dec n
set_string-dec_ℤ (negsuc n) = unfold set_string in rw (magnitude-dec (suc n))

pub dec-injective : (m n : ℕ) → dec m ≡ dec n → m ≡ n
dec-injective m n h = ground (arith, set_string-dec m, set_string-dec n)

pub dec-ne-nil : (n : ℕ) → dec n ≢ []
dec-ne-nil n h = ground (arith, set_string-dec n, set_string_nil)

pub dec_zero : dec 0 ≡ lit "0"
unfolding dec
dec_zero = refl

pub dec_not_empty : (n : ℕ) → is_empty (dec n) ≡ false
dec_not_empty n = elim (Bool-cases (is_empty (dec n))) [
  | inl e ↦ absurd (dec-ne-nil n (is_empty→nil (dec n) e))
  | inr e ↦ e
]

-- The text of a number other than zero is not "0".
pub dec_not_zero : (n : ℕ) → n ≢ 0 → eq_str (dec n) (lit "0") ≡ false
dec_not_zero n h = ground (arith, eq_str_iff (dec n) (lit "0"), dec_zero, dec-injective n 0)
