-- ===== src/Common/Entries.antt =====
-- The entries of a Go map in whatever order an iteration sees them.
use mathlib.Core.List.{Permᴰ}
use mathlib.Core.List.Permᴰ as Perm
use lidapters.Common.{
  ◌≡◌, refl, sym, ap, inl, inr, none, some, List, [], ◌∷◌, arith, Bool-cases, All,
}
use lidapters.Common.Str.{Str, eq_str, eq_str_iff, eq_str_comm}
use lidapters.Common.Dict.{Dict, lookup, insert, delete, values, lookup-insert, lookup-delete}

-- `for k, v := range m { out = append(out, f(k, v)) }`
unfoldable pub each : {V W : Type 0} → (Str → V → W) → Dict V → List W
each f [] = []
each f ((k, v) ∷ m) = f k v ∷ each f m

module _ {V : Type 0} where
  -- No key is there twice.
  abbrev pub NoKeyTwice : Dict V → Type 0
  NoKeyTwice [] = Unit
  NoKeyTwice ((k, v) ∷ m) = (lookup k m ≡ none) × NoKeyTwice m

  pub insert-NoKeyTwice : (k : Str) (v : V) (m : Dict V) → NoKeyTwice m → NoKeyTwice (insert k v m)
  unfolding insert lookup
  insert-NoKeyTwice k v [] h = (refl, tt)
  insert-NoKeyTwice k v ((j, w) ∷ m) h =
      ground
        (arith, eq_str_iff j k, eq_str_comm j k, lookup-insert k j v m, insert-NoKeyTwice k v m h.1)

  pub delete-NoKeyTwice : (k : Str) (m : Dict V) → NoKeyTwice m → NoKeyTwice (delete k m)
  unfolding delete
  delete-NoKeyTwice k [] h = tt
  delete-NoKeyTwice k ((j, w) ∷ m) h =
      ground (arith, lookup-delete k j m, delete-NoKeyTwice k m h.1)

  -- A key that is missing is not there to delete.
  delete_missing : (k : Str) (m : Dict V) → lookup k m ≡ none → delete k m ≡ m
  unfolding delete lookup
  delete_missing k [] h = refl
  delete_missing k ((j, w) ∷ m) h = ground (arith, delete_missing k m)

  -- An entry that is there comes first in some order of the entries.
  entry_first :
      (k : Str) (v : V) (m : Dict V)
      → NoKeyTwice m
      → lookup k m ≡ some v
      → Permᴰ m ((k, v) ∷ delete k m)
  unfolding lookup delete
  entry_first k v [] h e = absurd (let bad : none ≡ some v = e in cc)
  entry_first k v ((j, w) ∷ m) h e = elim (Bool-cases (eq_str j k)) [
    | inl s ↦
        let same : j ≡ k = (eq_str_iff j k).0 s in
        let value : w ≡ v = ground arith in
        let gone : delete k m ≡ m = delete_missing k m (rw (← same) h.0) in
        rw (s, gone, same, value) (Perm.refl ((k, v) ∷ m))
    | inr s ↦
        let found : lookup k m ≡ some v = ground arith in
        rw s (Permᴰ.trans (Permᴰ.cons refl (entry_first k v m h.1 found)) (Permᴰ.swap refl refl))
  ]

  empty_of : (m : Dict V) → ((k : Str) → lookup k m ≡ none) → m ≡ []
  unfolding lookup
  empty_of [] h = refl
  empty_of ((k, v) ∷ m) h = ground (arith, eq_str_iff k k, h k)

  -- Two maps that answer alike have the same entries.
  pub NoKeyTwice-Perm :
      (m n : Dict V)
      → NoKeyTwice m
      → NoKeyTwice n
      → ((k : Str) → lookup k m ≡ lookup k n)
      → Permᴰ m n
  unfolding lookup
  NoKeyTwice-Perm [] n h t e = rw (empty_of n (λ k. sym (e k))) Permᴰ.nil
  NoKeyTwice-Perm ((k, v) ∷ m) n h t e =
      let found : lookup k n ≡ some v = ground (arith, eq_str_iff k k, e k) in
      Permᴰ.trans
        (Permᴰ.cons refl (
          NoKeyTwice-Perm m (delete k n) h.1 (delete-NoKeyTwice k n t)
            (λ j. ground (arith, lookup-delete k j n, eq_str_iff k j, e j, h.0))))
        (Perm.symm (entry_first k v n t found))

  pub values-insert_new :
      (k : Str) (v : V) (m : Dict V)
      → lookup k m ≡ none
      → Permᴰ (values (insert k v m)) (v ∷ values m)
  unfolding insert lookup
  values-insert_new k v [] h = Perm.refl (v ∷ [])
  values-insert_new k v ((j, w) ∷ m) h = elim (Bool-cases (eq_str j k)) [
    | inl s ↦ absurd (ground arith)
    | inr s ↦
        let rest : lookup k m ≡ none = ground arith in
        rw s (Permᴰ.trans (Permᴰ.cons refl (values-insert_new k v m rest)) (Permᴰ.swap refl refl))
  ]

  pub lookup-each :
      {W : Type 0} (f : Str → V → W) (k : Str) (m : Dict V)
      → lookup k (each (λ j v. (j, f j v)) m)
        ≡ elim (lookup k m) [ none ↦ none | some v ↦ some (f k v) ]
  unfolding lookup each
  lookup-each f k [] = refl
  lookup-each f k ((j, v) ∷ m) = ground (arith, eq_str_iff j k, lookup-each f k m)

  pub values-each :
      {W : Type 0} (f : Str → V → W) (m : Dict V) → values (each (λ j v. (j, f j v)) m) ≡ each f m
  unfolding each
  values-each f [] = refl
  values-each f ((j, v) ∷ m) = rw (values-each f m)

pub values-Perm : {V : Type 0} {m n : Dict V} → Permᴰ m n → Permᴰ (values m) (values n)
values-Perm Permᴰ.nil = Permᴰ.nil
values-Perm (Permᴰ.cons {a = (k, v)} {b = (j, w)} e p) =
    Permᴰ.cons (ap (λ (x : Str × _). x.1) e) (values-Perm p)
values-Perm (Permᴰ.swap {a = (k, v)} {b = (j, w)} {a' = (k', v')} {b' = (j', w')} e f) =
    Permᴰ.swap (ap (λ (x : Str × _). x.1) e) (ap (λ (x : Str × _). x.1) f)
values-Perm (Permᴰ.trans p q) = Permᴰ.trans (values-Perm p) (values-Perm q)

pub each-NoKeyTwice :
    {V W : Type 0} (f : Str → V → W) (m : Dict V)
    → NoKeyTwice m
    → NoKeyTwice (each (λ j v. (j, f j v)) m)
unfolding each
each-NoKeyTwice f [] h = tt
each-NoKeyTwice f ((j, v) ∷ m) h = (ground (arith, lookup-each f j m, h.0), each-NoKeyTwice f m h.1)

-- What holds of every entry.
abbrev pub AllEntries : {V : Type 0} → (Str → V → Type 0) → Dict V → Type 0
AllEntries P [] = Unit
AllEntries P ((k, v) ∷ m) = P k v × AllEntries P m

module _ {V : Type 0} (P : Str → V → Type 0) where
  pub AllEntries-lookup :
      (k : Str) (v : V) (m : Dict V) → AllEntries P m → lookup k m ≡ some v → P k v
  unfolding lookup
  AllEntries-lookup k v [] h e = absurd (let bad : none ≡ some v = e in cc)
  AllEntries-lookup k v ((j, w) ∷ m) h e = elim (Bool-cases (eq_str j k)) [
    | inl s ↦
        let same : j ≡ k = (eq_str_iff j k).0 s in
        let value : w ≡ v = ground arith in rw (← same, ← value) h.0
    | inr s ↦ AllEntries-lookup k v m h.1 (ground arith)
  ]

  pub insert-AllEntries :
      (k : Str) (v : V) (m : Dict V) → P k v → AllEntries P m → AllEntries P (insert k v m)
  unfolding insert
  insert-AllEntries k v [] p h = (p, tt)
  insert-AllEntries k v ((j, w) ∷ m) p h = elim (Bool-cases (eq_str j k)) [
    | inl s ↦ rw s (p, h.1)
    | inr s ↦ rw s (h.0, insert-AllEntries k v m p h.1)
  ]

  pub delete-AllEntries : (k : Str) (m : Dict V) → AllEntries P m → AllEntries P (delete k m)
  unfolding delete
  delete-AllEntries k [] h = tt
  delete-AllEntries k ((j, w) ∷ m) h = elim (Bool-cases (eq_str j k)) [
    | inl s ↦ rw s (delete-AllEntries k m h.1)
    | inr s ↦ rw s (h.0, delete-AllEntries k m h.1)
  ]

pub AllEntries-values :
    {V : Type 0} (P : V → Type 0) (m : Dict V) → All P (values m) → AllEntries (λ k v. P v) m
AllEntries-values P [] h = tt
AllEntries-values P ((k, v) ∷ m) h = (h.0, AllEntries-values P m h.1)
