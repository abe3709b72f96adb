-- ===== src/Common/Strict.antt =====
-- Lists that are strictly increasing, and permutations: what makes the result of a sort the only one.
use mathlib.Core.List.{Permᴰ}
use mathlib.Core.List.Permᴰ as Perm
use mathlib.Core.List.{append_assoc}
use lidapters.Common.{
  ◌≡◌, refl, sym, ◌∙◌, inl, inr, Bool, true, false, List, [], ◌∷◌, ◌++◌, if◌then◌else◌, Bool-cases,
  All, All-append,
}
use lidapters.Common.Sort.{
  insert_by, sort_slice, IsOrder, IsStrict, IsDistinct, Apart, All-map, sort_slice-perm,
}

-- The elements that pass a test.
unfoldable pub keep : {A : Type 0} → (A → Bool) → List A → List A
keep p [] = []
keep p (x ∷ xs) = if p x then x ∷ keep p xs else keep p xs

-- The lists that `f` gives, one after the other.
unfoldable pub gather : {A B : Type 0} → (A → List B) → List A → List B
gather f [] = []
gather f (x ∷ xs) = f x ++ gather f xs

module _ {A : Type 0} (less : A → A → Bool) where
  pub insert_by-Perm : (x : A) (l : List A) → Permᴰ (insert_by less x l) (x ∷ l)
  unfolding insert_by
  insert_by-Perm x [] = Perm.refl (x ∷ [])
  insert_by-Perm x (y ∷ ys) = elim (Bool-cases (less y x)) [
    | inl e ↦ rw e (Permᴰ.trans (Permᴰ.cons refl (insert_by-Perm x ys)) (Permᴰ.swap refl refl))
    | inr e ↦ rw e (Perm.refl (x ∷ y ∷ ys))
  ]

  pub sort_slice-Perm : (l : List A) → Permᴰ (sort_slice less l) l
  unfolding sort_slice
  sort_slice-Perm [] = Permᴰ.nil
  sort_slice-Perm (x ∷ xs) =
      Permᴰ.trans (insert_by-Perm x (sort_slice less xs)) (Permᴰ.cons refl (sort_slice-Perm xs))

  pub IsStrict-IsDistinct : (l : List A) → IsStrict less l → IsDistinct less l
  IsStrict-IsDistinct [] h = tt
  IsStrict-IsDistinct (x ∷ xs) h = (
    All-map (λ y. less x y ≡ true) (Apart less x) (λ y e. inl e) xs h.0,
    IsStrict-IsDistinct xs h.1,
  )

  pub IsStrict-append :
      (xs ys : List A)
      → IsStrict less xs
      → IsStrict less ys
      → All (λ x. All (λ y. less x y ≡ true) ys) xs
      → IsStrict less (xs ++ ys)
  IsStrict-append [] ys h k a = k
  IsStrict-append (x ∷ xs) ys h k a =
      (All-append (λ y. less x y ≡ true) xs ys h.0 a.0, IsStrict-append xs ys h.1 k a.1)

  module _ (o : IsOrder less) where
    insert_by_least :
        (x : A) (l : List A) → All (λ y. less x y ≡ true) l → insert_by less x l ≡ x ∷ l
    unfolding insert_by
    insert_by_least x [] h = refl
    insert_by_least x (y ∷ ys) h = rw (o.asym x y h.0)

    pub sort_slice_strict : (l : List A) → IsStrict less l → sort_slice less l ≡ l
    unfolding sort_slice
    sort_slice_strict [] h = refl
    sort_slice_strict (x ∷ xs) h = rw (sort_slice_strict xs h.1) (insert_by_least x xs h.0)

    -- A strictly increasing list is what sorting any permutation of it gives.
    pub IsStrict-sort_slice : (l m : List A) → IsStrict less l → Permᴰ l m → l ≡ sort_slice less m
    IsStrict-sort_slice l m h p =
        sym (sort_slice_strict l h) ∙ sort_slice-perm less o p (IsStrict-IsDistinct l h)

module _ {A : Type 0} (p : A → Bool) where
  pub All-keep : (P : A → Type 0) (l : List A) → All P l → All P (keep p l)
  unfolding keep
  All-keep P [] h = tt
  All-keep P (x ∷ xs) h = elim (Bool-cases (p x)) [
    | inl e ↦ rw e (h.0, All-keep P xs h.1)
    | inr e ↦ rw e (All-keep P xs h.1)
  ]

  pub keep-IsStrict :
      (less : A → A → Bool) (l : List A) → IsStrict less l → IsStrict less (keep p l)
  unfolding keep
  keep-IsStrict less [] h = tt
  keep-IsStrict less (x ∷ xs) h = elim (Bool-cases (p x)) [
    | inl e ↦ rw e (All-keep (λ y. less x y ≡ true) xs h.0, keep-IsStrict less xs h.1)
    | inr e ↦ rw e (keep-IsStrict less xs h.1)
  ]

  pub keep_all : (l : List A) → All (λ x. p x ≡ true) l → keep p l ≡ l
  unfolding keep
  keep_all [] h = refl
  keep_all (x ∷ xs) h = rw (h.0, keep_all xs h.1)

  keep_both :
      (b c : Bool) (x y : A) (l : List A)
      → Permᴰ
          (if b then x ∷ (if c then y ∷ l else l) else (if c then y ∷ l else l))
          (if c then y ∷ (if b then x ∷ l else l) else (if b then x ∷ l else l))
  keep_both true true x y l = Permᴰ.swap refl refl
  keep_both true false x y l = Perm.refl (x ∷ l)
  keep_both false true x y l = Perm.refl (y ∷ l)
  keep_both false false x y l = Perm.refl l

  keep_head :
      (x : A) (l m : List A) → Permᴰ (keep p l) (keep p m) → Permᴰ (keep p (x ∷ l)) (keep p (x ∷ m))
  unfolding keep
  keep_head x l m h = elim (Bool-cases (p x)) [ inl e ↦ rw e (Permᴰ.cons refl h) | inr e ↦ rw e h ]

  keep_swap : (x y : A) (l : List A) → Permᴰ (keep p (x ∷ y ∷ l)) (keep p (y ∷ x ∷ l))
  unfolding keep
  keep_swap x y l = keep_both (p x) (p y) x y (keep p l)

  pub keep-Perm : {l m : List A} → Permᴰ l m → Permᴰ (keep p l) (keep p m)
  keep-Perm Permᴰ.nil = Perm.refl (keep p [])
  keep-Perm (Permᴰ.cons {a = a} {l₁ = l} {l₂ = m} e q) = rw (← e) (keep_head a l m (keep-Perm q))
  keep-Perm (Permᴰ.swap {a = a} {b = b} {l = l} e f) = rw (← e, ← f) (keep_swap a b l)
  keep-Perm (Permᴰ.trans q r) = Permᴰ.trans (keep-Perm q) (keep-Perm r)

module _ {A B : Type 0} (f : A → List B) where
  pub gather-append : (xs ys : List A) → gather f (xs ++ ys) ≡ gather f xs ++ gather f ys
  unfolding gather
  gather-append [] ys = refl
  gather-append (x ∷ xs) ys =
      rw (gather-append xs ys) (sym (append_assoc (f x) (gather f xs) (gather f ys)))

  gather_head :
      (x : A) (l m : List A)
      → Permᴰ (gather f l) (gather f m)
      → Permᴰ (gather f (x ∷ l)) (gather f (x ∷ m))
  unfolding gather
  gather_head x l m h = Perm.append_left (f x) h

  gather_swap : (x y : A) (l : List A) → Permᴰ (gather f (x ∷ y ∷ l)) (gather f (y ∷ x ∷ l))
  unfolding gather
  gather_swap x y l =
      rw (← append_assoc (f x) (f y) (gather f l), ← append_assoc (f y) (f x) (gather f l))
        (Perm.append_right (gather f l) (Perm.append_comm (f x) (f y)))

  pub gather-Perm : {l m : List A} → Permᴰ l m → Permᴰ (gather f l) (gather f m)
  gather-Perm Permᴰ.nil = Perm.refl (gather f [])
  gather-Perm (Permᴰ.cons {a = a} {l₁ = l} {l₂ = m} e q) =
      rw (← e) (gather_head a l m (gather-Perm q))
  gather-Perm (Permᴰ.swap {a = a} {b = b} {l = l} e g) = rw (← e, ← g) (gather_swap a b l)
  gather-Perm (Permᴰ.trans q r) = Permᴰ.trans (gather-Perm q) (gather-Perm r)

pub gather-each :
    {A B : Type 0} (f g : A → List B)
    → ((a : A) → Permᴰ (f a) (g a))
    → (l : List A) → Permᴰ (gather f l) (gather g l)
unfolding gather
gather-each f g h [] = Permᴰ.nil
gather-each f g h (x ∷ xs) =
    Permᴰ.trans (Perm.append_right (gather f xs) (h x))
      (Perm.append_left (g x) (gather-each f g h xs))

pub IsDistinct-append :
    {A : Type 0} (less : A → A → Bool) (xs ys : List A)
    → IsDistinct less xs
    → IsDistinct less ys
    → All (λ x. All (Apart less x) ys) xs
    → IsDistinct less (xs ++ ys)
IsDistinct-append less [] ys h k a = k
IsDistinct-append less (x ∷ xs) ys h k a =
    (All-append (Apart less x) xs ys h.0 a.0, IsDistinct-append less xs ys h.1 k a.1)

-- What holds of every element of two lists relates each of the one to each of the other.
pub All-both :
    {A : Type 0} (P Q : A → Type 0) (R : A → A → Type 0)
    → ((a b : A) → P a → Q b → R a b)
    → (xs ys : List A) → All P xs
    → All Q ys
    → All (λ a. All (R a) ys) xs
All-both P Q R f [] ys h k = tt
All-both P Q R f (x ∷ xs) ys h k =
    (All-map Q (R x) (λ b. f x b h.0) ys k, All-both P Q R f xs ys h.1 k)

pub All-map2 :
    {A : Type 0} (P Q R : A → Type 0)
    → ((a : A) → P a → Q a → R a)
    → (l : List A) → All P l
    → All Q l
    → All R l
All-map2 P Q R f [] h k = tt
All-map2 P Q R f (x ∷ xs) h k = (f x h.0 k.0, All-map2 P Q R f xs h.1 k.1)
