-- ===== src/Common/Dict.antt =====
-- Go maps with string keys, as association lists. Iterating over a map sees its entries in an
-- order that the language leaves open; the code that does so sorts what it collects by the key.
use mathlib.Core.List.{Permᴰ}
use lidapters.Common.{
  ◌≡◌, refl, sym, inl, inr, Bool, true, false, Option, none, some, List, [], ◌∷◌, arith,
  if◌then◌else◌, Bool-cases, All,
}
use lidapters.Common.Str.{
  Str, eq_str, lt_str, eq_str_iff, eq_str_comm, lt_str_asym, lt_str_le_trans, lt_str_apart,
}
use lidapters.Common.Sort.{
  sort_slice, insert_by, IsOrder, IsDistinct, IsStrict, Apart, All-map, All-sort_slice,
  sort_slice-IsStrict, sort_slice-perm,
}

abbrev pub Dict : Type 0 → Type 0
Dict V = List (Str × V)

-- `map[string]struct{}`
abbrev pub StrSet : Type 0
StrSet = List Str

-- `_, ok := set[k]`
unfoldable pub mem : Str → StrSet → Bool
mem k [] = false
mem k (j ∷ s) = if eq_str j k then true else mem k s

-- `set[k] = struct{}{}`
unfoldable pub add : Str → StrSet → StrSet
add k s = if mem k s then s else k ∷ s

pub mem-add : (k j : Str) (s : StrSet) → mem j (add k s) ≡ (if eq_str k j then true else mem j s)
unfolding mem add
mem-add k j s = elim (Bool-cases (mem k s)) [
  | inl e ↦ rw e (elim (Bool-cases (eq_str k j)) [
    | inl f ↦ rw f (rw (← (eq_str_iff k j).0 f) e)
    | inr f ↦ rw f
  ])
  | inr e ↦ rw e
]

module _ {V : Type 0} where
  unfoldable pub lookup : Str → Dict V → Option V
  lookup k [] = none
  lookup k ((j, v) ∷ m) = if eq_str j k then some v else lookup k m

  -- `m[k] = v`
  unfoldable pub insert : Str → V → Dict V → Dict V
  insert k v [] = (k, v) ∷ []
  insert k v ((j, w) ∷ m) = if eq_str j k then (k, v) ∷ m else (j, w) ∷ insert k v m

  pub lookup-insert :
      (k j : Str) (v : V) (m : Dict V)
      → lookup j (insert k v m) ≡ (if eq_str k j then some v else lookup j m)
  unfolding lookup insert
  lookup-insert k j v [] = refl
  lookup-insert k j v ((i, w) ∷ m) =
      ground (arith, eq_str_iff k j, eq_str_iff i k, eq_str_iff i j, lookup-insert k j v m)

  -- `delete(m, k)`
  unfoldable pub delete : Str → Dict V → Dict V
  delete k [] = []
  delete k ((j, w) ∷ m) = let rest = delete k m in if eq_str j k then rest else (j, w) ∷ rest

  -- `for k, v := range m { if p(v) { delete(m, k) } }`
  unfoldable pub delete_where : (V → Bool) → Dict V → Dict V
  delete_where p [] = []
  delete_where p ((j, w) ∷ m) = let rest = delete_where p m in if p w then rest else (j, w) ∷ rest

  pub lookup-delete :
      (k j : Str) (m : Dict V) → lookup j (delete k m) ≡ (if eq_str k j then none else lookup j m)
  unfolding lookup delete
  lookup-delete k j [] = ground arith
  lookup-delete k j ((i, w) ∷ m) =
      ground (arith, eq_str_iff k j, eq_str_iff i k, eq_str_iff i j, lookup-delete k j m)

  pub lookup-delete_where-none :
      (p : V → Bool) (j : Str) (m : Dict V) → lookup j m ≡ none → lookup j (delete_where p m) ≡ none
  unfolding lookup delete_where
  lookup-delete_where-none p j [] h = refl
  lookup-delete_where-none p j ((i, w) ∷ m) h = ground (arith, lookup-delete_where-none p j m)

  -- `for _, v := range m { out = append(out, v) }`
  abbrev pub values : Dict V → List V
  values [] = []
  values ((k, v) ∷ m) = v ∷ values m

module _ {V : Type 0} (key : V → Str) where
  -- `for _, v := range list { m[key(v)] = v }`
  unfoldable pub index_onto : Dict V → List V → Dict V
  index_onto m [] = m
  index_onto m (v ∷ l) = index_onto (insert (key v) v m) l

  abbrev pub index_by : List V → Dict V
  index_by = index_onto []

  abbrev pub less_by : V → V → Bool
  less_by a b = lt_str (key a) (key b)

  lookup_nil : (k : Str) → lookup {V = V} k [] ≡ none
  unfolding lookup
  lookup_nil k = refl

  -- Every key is there once, with a value that has this key.
  abbrev pub IsKeyed : Dict V → Type 0
  IsKeyed [] = Unit
  IsKeyed ((k, v) ∷ m) = (key v ≡ k) × (lookup k m ≡ none) × IsKeyed m

  -- The values, sorted by their keys.
  abbrev pub collect : Dict V → List V
  collect m = sort_slice less_by (values m)

  pub insert-IsKeyed :
      (k : Str) (v : V) (m : Dict V) → key v ≡ k → IsKeyed m → IsKeyed (insert k v m)
  unfolding insert lookup
  insert-IsKeyed k v [] e h = (e, refl, tt)
  insert-IsKeyed k v ((j, w) ∷ m) e h =
      ground
        (arith, eq_str_iff j k, eq_str_comm j k, lookup-insert k j v m, insert-IsKeyed k v m e h.2)

  -- What is found under a key has that key.
  pub lookup-IsKeyed : (k : Str) (v : V) (m : Dict V) → IsKeyed m → lookup k m ≡ some v → key v ≡ k
  unfolding lookup
  lookup-IsKeyed k v [] h e = cc
  lookup-IsKeyed k v ((j, w) ∷ m) h e = ground (arith, eq_str_iff j k, lookup-IsKeyed k v m h.2)

  pub delete-IsKeyed : (k : Str) (m : Dict V) → IsKeyed m → IsKeyed (delete k m)
  unfolding delete
  delete-IsKeyed k [] h = tt
  delete-IsKeyed k ((j, w) ∷ m) h = ground (arith, lookup-delete k j m, delete-IsKeyed k m h.2)

  pub delete_where-IsKeyed : (p : V → Bool) (m : Dict V) → IsKeyed m → IsKeyed (delete_where p m)
  unfolding delete_where
  delete_where-IsKeyed p [] h = tt
  delete_where-IsKeyed p ((j, w) ∷ m) h =
      ground (arith, lookup-delete_where-none p j m h.1, delete_where-IsKeyed p m h.2)

  pub lookup-delete_where :
      (p : V → Bool) (j : Str) (m : Dict V)
      → IsKeyed m
      → lookup j (delete_where p m)
        ≡ elim (lookup j m) [ none ↦ none | some w ↦ if p w then none else some w ]
  unfolding lookup delete_where
  lookup-delete_where p j [] h = refl
  lookup-delete_where p j ((i, w) ∷ m) h =
      ground (arith, eq_str_iff i j, lookup-delete_where p j m h.2, lookup-delete_where-none p j m)

  pub index_onto-IsKeyed : (m : Dict V) (l : List V) → IsKeyed m → IsKeyed (index_onto m l)
  unfolding index_onto
  index_onto-IsKeyed m [] h = h
  index_onto-IsKeyed m (v ∷ l) h =
      index_onto-IsKeyed (insert (key v) v m) l (insert-IsKeyed (key v) v m refl h)

  pub less_by-IsOrder : IsOrder less_by
  less_by-IsOrder = record {
    asym = λ a b. lt_str_asym (key a) (key b);
    le_trans = λ a b c. lt_str_le_trans (key a) (key b) (key c);
  }

  pub lookup-none-key :
      (k : Str) (m : Dict V)
      → IsKeyed m
      → lookup k m ≡ none
      → All (λ v. eq_str (key v) k ≡ false) (values m)
  unfolding lookup
  lookup-none-key k [] h e = tt
  lookup-none-key k ((j, v) ∷ m) h e =
      (ground (arith, eq_str_iff (key v) k, eq_str_iff j k), lookup-none-key k m h.2 (ground arith))

  pub values-IsDistinct : (m : Dict V) → IsKeyed m → IsDistinct less_by (values m)
  values-IsDistinct [] h = tt
  values-IsDistinct ((j, v) ∷ m) h = (
    All-map (λ w. eq_str (key w) j ≡ false) (Apart less_by v)
        (λ w e. ground (arith, lt_str_apart (key w) (key v), h.0)) (values m)
        (lookup-none-key j m h.2 h.1),
    values-IsDistinct m h.2,
  )

  -- The list that is collected from a map is strictly increasing by key.
  pub collect-IsStrict : (m : Dict V) → IsKeyed m → IsStrict less_by (collect m)
  collect-IsStrict m h =
      sort_slice-IsStrict less_by less_by-IsOrder (values m) (values-IsDistinct m h)

  -- It is the same in whatever order the iteration sees the values.
  pub collect-perm :
      (m : Dict V) (l : List V) → IsKeyed m → Permᴰ (values m) l → sort_slice less_by l ≡ collect m
  collect-perm m l h p = sym (sort_slice-perm less_by less_by-IsOrder p (values-IsDistinct m h))

  -- The value that a list holds for a key, the last one if there are several: the abstract view of
  -- a list as a map.
  abbrev pub find_by : Str → List V → Option V
  find_by k [] = none
  find_by k (v ∷ l) = elim (find_by k l) [
    | some w ↦ some w
    | none ↦ if eq_str (key v) k then some v else none
  ]

  lookup-index_onto :
      (k : Str) (m : Dict V) (l : List V)
      → lookup k (index_onto m l) ≡ elim (find_by k l) [ some w ↦ some w | none ↦ lookup k m ]
  unfolding index_onto
  lookup-index_onto k m [] = refl
  lookup-index_onto k m (v ∷ l) =
      ground (arith, lookup-index_onto k (insert (key v) v m) l, lookup-insert (key v) k v m)

  -- The map that is built from a list answers as the list does.
  pub lookup-index_by : (k : Str) (l : List V) → lookup k (index_by l) ≡ find_by k l
  lookup-index_by k l = ground (arith, lookup-index_onto k [] l, lookup_nil k)

  find_by-none :
      (k : Str) (v : V) (l : List V)
      → All (λ w. eq_str (key w) (key v) ≡ false) l
      → eq_str (key v) k ≡ true
      → find_by k l ≡ none
  find_by-none k v [] h e = refl
  find_by-none k v (w ∷ l) h e = ground (
    arith,
    find_by-none k v l h.1,
    eq_str_iff (key v) k,
    eq_str_iff (key w) k,
    eq_str_iff (key w) (key v),
  )

  find_by-insert_by :
      (k : Str) (v : V) (l : List V)
      → All (λ w. eq_str (key w) (key v) ≡ false) l
      → find_by k (insert_by less_by v l) ≡ (if eq_str (key v) k then some v else find_by k l)
  unfolding insert_by
  find_by-insert_by k v [] h = refl
  find_by-insert_by k v (w ∷ l) h = ground (
    arith,
    find_by-insert_by k v l h.1,
    find_by-none k v l h.1,
    eq_str_iff (key v) k,
    eq_str_iff (key w) k,
    eq_str_iff (key w) (key v),
  )

  -- The list that is collected from a map answers as the map does.
  pub find_by-collect : (k : Str) (m : Dict V) → IsKeyed m → find_by k (collect m) ≡ lookup k m
  unfolding lookup sort_slice
  find_by-collect k [] h = refl
  find_by-collect k ((j, v) ∷ m) h =
      let others : All (λ w. eq_str (key w) (key v) ≡ false) (collect m) =
        All-sort_slice less_by (λ w. eq_str (key w) (key v) ≡ false) (values m)
          (rw h.0 (lookup-none-key j m h.2 h.1)) in
      rw (find_by-insert_by k v (collect m) others, h.0, find_by-collect k m h.2)
