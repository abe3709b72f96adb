-- ===== src/Common/Sort.antt =====
-- Go's `sort.Slice` by a less function. The library leaves the order of equal elements open; it is
-- an insertion sort here, and every order is the same where no two elements are equal.
use mathlib.Core.List.{Permᴰ}
use mathlib.Core.Path.{subst₂}
use lidapters.Common.{
  ◌≡◌, ◌∙◌, ◌⊎◌, inl, inr, Bool, true, false, List, [], ◌∷◌, arith, if◌then◌else◌, Bool-cases, All,
}

module _ {A : Type 0} (less : A → A → Bool) where
  unfoldable pub insert_by : A → List A → List A
  insert_by x [] = x ∷ []
  insert_by x (y ∷ ys) = if less y x then y ∷ insert_by x ys else x ∷ y ∷ ys

  unfoldable pub sort_slice : List A → List A
  unfolding insert_by
  sort_slice [] = []
  sort_slice (x ∷ xs) = insert_by x (sort_slice xs)

  -- What the code's less functions have: a strict order, up to elements that it does not tell apart.
  pub record IsOrder : Type 0 where
    pub asym : (a b : A) → less a b ≡ true → less b a ≡ false
    pub le_trans : (a b c : A) → less b a ≡ false → less c b ≡ false → less c a ≡ false

  abbrev pub Apart : A → A → Type 0
  Apart a b = (less a b ≡ true) ⊎ (less b a ≡ true)

  abbrev pub IsDistinct : List A → Type 0
  IsDistinct [] = Unit
  IsDistinct (x ∷ xs) = All (Apart x) xs × IsDistinct xs

  -- Strictly increasing: no two elements are equal in the order.
  abbrev pub IsStrict : List A → Type 0
  IsStrict [] = Unit
  IsStrict (x ∷ xs) = All (λ y. less x y ≡ true) xs × IsStrict xs

pub All-insert_by :
    {A : Type 0} (less : A → A → Bool) (P : A → Type 0) (x : A) (l : List A)
    → P x
    → All P l
    → All P (insert_by less x l)
unfolding insert_by
All-insert_by less P x [] p h = (p, tt)
All-insert_by less P x (y ∷ ys) p h = elim (Bool-cases (less y x)) [
  | inl e ↦ rw e (h.0, All-insert_by less P x ys p h.1)
  | inr e ↦ rw e (p, h)
]

pub All-sort_slice :
    {A : Type 0} (less : A → A → Bool) (P : A → Type 0) (l : List A)
    → All P l
    → All P (sort_slice less l)
unfolding sort_slice
All-sort_slice less P [] h = tt
All-sort_slice less P (x ∷ xs) h =
    All-insert_by less P x (sort_slice less xs) h.0 (All-sort_slice less P xs h.1)

pub All-map :
    {A : Type 0} (P Q : A → Type 0) (f : (a : A) → P a → Q a) (l : List A) → All P l → All Q l
All-map P Q f [] h = tt
All-map P Q f (x ∷ xs) h = (f x h.0, All-map P Q f xs h.1)

module _ {A : Type 0} (less : A → A → Bool) (o : IsOrder less) where
  lt_trans : (a b c : A) → less a b ≡ true → less b c ≡ true → less a c ≡ true
  lt_trans a b c h k =
      ground (arith, o.le_trans b c a, o.asym a b h, o.asym b c k, Bool-cases (less a c))

  pub insert_by-IsStrict :
      (x : A) (l : List A)
      → All (Apart less x) l
      → IsStrict less l
      → IsStrict less (insert_by less x l)
  unfolding insert_by
  insert_by-IsStrict x [] a h = (tt, tt)
  insert_by-IsStrict x (y ∷ ys) a h = elim (Bool-cases (less y x)) [
    | inl e ↦
        rw e (All-insert_by less (λ z. less y z ≡ true) x ys e h.0, insert_by-IsStrict x ys a.1 h.1)
    | inr e ↦
        let lt : less x y ≡ true = ground (arith, a.0) in
        rw e (
          (
            lt,
            All-map (λ z. less y z ≡ true) (λ z. less x z ≡ true) (λ z. lt_trans x y z lt) ys h.0,
          ),
          h,
        )
  ]

  pub sort_slice-IsStrict : (l : List A) → IsDistinct less l → IsStrict less (sort_slice less l)
  unfolding sort_slice
  sort_slice-IsStrict [] h = tt
  sort_slice-IsStrict (x ∷ xs) h =
      insert_by-IsStrict x (sort_slice less xs) (All-sort_slice less (Apart less x) xs h.0)
        (sort_slice-IsStrict xs h.1)

  insert_by_comm :
      (x y : A) (l : List A)
      → Apart less x y
      → insert_by less x (insert_by less y l) ≡ insert_by less y (insert_by less x l)
  unfolding insert_by
  insert_by_comm x y [] a = ground (arith, o.asym x y, o.asym y x)
  insert_by_comm x y (z ∷ zs) a =
      ground
        (arith, o.asym x y, o.asym y x, o.le_trans x y z, o.le_trans y x z, insert_by_comm x y zs a)

pub All-perm : {A : Type 0} (P : A → Type 0) {l m : List A} → Permᴰ l m → All P l → All P m
All-perm P Permᴰ.nil h = tt
All-perm P (Permᴰ.cons e p) h = (rw (← e) h.0, All-perm P p h.1)
All-perm P (Permᴰ.swap e f) h = (rw (← f) h.1.0, (rw (← e) h.0, h.1.1))
All-perm P (Permᴰ.trans p q) h = All-perm P q (All-perm P p h)

module _ {A : Type 0} (less : A → A → Bool) where
  pub IsDistinct-perm : {l m : List A} → Permᴰ l m → IsDistinct less l → IsDistinct less m
  IsDistinct-perm Permᴰ.nil h = tt
  IsDistinct-perm (Permᴰ.cons e p) h =
      (rw (← e) (All-perm (Apart less _) p h.0), IsDistinct-perm p h.1)
  IsDistinct-perm (Permᴰ.swap {l = l} e f) h =
      subst₂ (λ u v. IsDistinct less (u ∷ v ∷ l)) f e
        ((ground (arith, h.0.0), h.1.0), (h.0.1, h.1.1))
  IsDistinct-perm (Permᴰ.trans p q) h = IsDistinct-perm q (IsDistinct-perm p h)

  -- Where no two elements are equal in the order, the sorted list does not depend on the order in
  -- which the elements came.
  pub sort_slice-perm :
      (o : IsOrder less) {l m : List A}
      → Permᴰ l m
      → IsDistinct less l
      → sort_slice less l ≡ sort_slice less m
  unfolding sort_slice
  sort_slice-perm o Permᴰ.nil h = cc
  sort_slice-perm o (Permᴰ.cons e p) h = cc (e, sort_slice-perm o p h.1)
  sort_slice-perm o (Permᴰ.swap {a = a} {b = b} {l = l} e f) h =
      rw (← e, ← f) (insert_by_comm less o a b (sort_slice less l) h.0.0)
  sort_slice-perm o (Permᴰ.trans p q) h =
      sort_slice-perm o p h ∙ sort_slice-perm o q (IsDistinct-perm p h)

module _ {A : Type 0} (less : A → A → Bool) (P : A → Type 0) where
  All-insert_by_inv : (x : A) (l : List A) → All P (insert_by less x l) → P x × All P l
  unfolding insert_by
  All-insert_by_inv x [] h = h
  All-insert_by_inv x (y ∷ ys) h = elim (Bool-cases (less y x)) [
    | inl e ↦
        let k : P y × All P (insert_by less x ys) = rw e at h in
        let (p, q) = All-insert_by_inv x ys k.1 in (p, (k.0, q))
    | inr e ↦ rw e at h
  ]

  -- What holds of every element of the sorted list holds of every element of the list.
  pub All-sort_slice_inv : (l : List A) → All P (sort_slice less l) → All P l
  unfolding sort_slice
  All-sort_slice_inv [] h = tt
  All-sort_slice_inv (x ∷ xs) h =
      let (p, q) = All-insert_by_inv x (sort_slice less xs) h in (p, All-sort_slice_inv xs q)

-- Increasing: no element is less than one before it.
abbrev pub IsSorted : {A : Type 0} → (A → A → Bool) → List A → Type 0
IsSorted less [] = Unit
IsSorted less (x ∷ xs) = All (λ y. less y x ≡ false) xs × IsSorted less xs

module _ {A : Type 0} (less : A → A → Bool) (o : IsOrder less) where
  insert_by-IsSorted : (x : A) (l : List A) → IsSorted less l → IsSorted less (insert_by less x l)
  unfolding insert_by
  insert_by-IsSorted x [] h = (tt, tt)
  insert_by-IsSorted x (y ∷ ys) h = elim (Bool-cases (less y x)) [
    | inl e ↦ rw e (
      All-insert_by less (λ z. less z y ≡ false) x ys (o.asym y x e) h.0,
      insert_by-IsSorted x ys h.1,
    )
    | inr e ↦ rw e (
      (e, All-map (λ z. less z y ≡ false) (λ z. less z x ≡ false) (λ z. o.le_trans x y z e) ys h.0),
      h,
    )
  ]

  pub sort_slice-IsSorted : (l : List A) → IsSorted less (sort_slice less l)
  unfolding sort_slice
  sort_slice-IsSorted [] = tt
  sort_slice-IsSorted (x ∷ xs) = insert_by-IsSorted x (sort_slice less xs) (sort_slice-IsSorted xs)
