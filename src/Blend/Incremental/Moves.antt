-- ===== src/Blend/Incremental/Moves.antt =====
-- blend/state_incremental.go: an entry that comes in, changes, or goes out, in the sorted entries and
-- in the index.
use mathlib.Core.List.{Permᴰ}
use mathlib.Core.List.Permᴰ as Perm
use lidapters.Common.{
  ◌≡◌, refl, sym, ◌∙◌, inl, inr, true, false, not, none, some, List, [], ◌∷◌, map, arith,
  Bool-cases, All,
}
use lidapters.Common.Str.{eq_str, eq_str_iff}
use lidapters.Common.Dict.{
  Dict, lookup, insert, delete, values, IsKeyed, lookup-none-key, insert-IsKeyed, delete-IsKeyed,
}
use lidapters.Common.Entries.{values-insert_new}
use lidapters.Common.Sort.{IsStrict, Apart, All-map, All-perm, insert_by-IsStrict}
use lidapters.Common.Strict.{
  keep, keep_all, All-keep, All-map2, keep-IsStrict, keep-Perm, insert_by-Perm,
}
use lidapters.Blend.Incremental.{
  UserEntry, user_entry_less, insert_key, drop_entry, remove_key, rewrite, write_entry,
}
use lidapters.Blend.Incremental.Keys.{
  IsSigned, key_of, user_entry_less-IsOrder, Same, Same-composite, not_less, Apart-composite,
  IsOrdered, keys_signed,
}

module _ {keys : List UserEntry} {index : Dict UserEntry} (o : IsOrdered keys index) where
  -- The other entries, and how an entry stands to them.
  keys-Apart :
      (e : UserEntry)
      → IsSigned e
      → lookup e.composite index ≡ none
      → All (Apart user_entry_less e) keys
  keys-Apart e g n =
      let other : All (λ j. eq_str j.composite e.composite ≡ false) keys =
        All-perm (λ j. eq_str j.composite e.composite ≡ false) (Perm.symm o.same)
          (lookup-none-key key_of e.composite index o.keyed n) in
      All-map2 IsSigned (λ j. eq_str j.composite e.composite ≡ false) (Apart user_entry_less e)
        (λ j h d. Apart-composite e j g h d) keys (keys_signed o) other

  pub insert_key-IsOrdered :
      (e : UserEntry)
      → IsSigned e
      → lookup e.composite index ≡ none
      → IsOrdered (insert_key e keys) (insert e.composite e index)
  unfolding insert_key
  insert_key-IsOrdered e g n = record {
    keyed = insert-IsKeyed key_of e.composite e index refl o.keyed;
    signed = All-perm IsSigned (Perm.symm (values-insert_new e.composite e index n)) (g, o.signed);
    strict =
        insert_by-IsStrict user_entry_less user_entry_less-IsOrder e keys (keys-Apart e g n)
          o.strict;
    same = Permᴰ.trans (insert_by-Perm user_entry_less e keys) (
        Permᴰ.trans (Permᴰ.cons refl o.same) (Perm.symm (values-insert_new e.composite e index n)));
  }

-- A write leaves the order as it is.
rewrite-Same : (e k : UserEntry) → IsSigned e → IsSigned k → Same k (rewrite e k)
rewrite-Same e k g h = elim (Bool-cases (eq_str k.composite e.composite)) [
  | inl c ↦ rw c (Same-composite k e h g ((eq_str_iff k.composite e.composite).0 c))
  | inr c ↦ rw c (refl, refl)
]

rewrite_signed : (e k : UserEntry) → IsSigned e → IsSigned k → IsSigned (rewrite e k)
rewrite_signed e k g h = elim (Bool-cases (eq_str k.composite e.composite)) [
  | inl c ↦ rw c g
  | inr c ↦ rw c h
]

user_entry_less-Same :
    (a b c d : UserEntry)
    → Same a c
    → Same b d
    → user_entry_less a b ≡ true
    → user_entry_less c d ≡ true
user_entry_less-Same a b c d s t h = rw (← s.0, ← s.1, ← t.0, ← t.1) h

All-rewrite :
    (P : UserEntry → Type 0) (e : UserEntry) (l : List UserEntry)
    → All (λ k. P (rewrite e k)) l
    → All P (map (rewrite e) l)
All-rewrite P e [] h = tt
All-rewrite P e (k ∷ l) h = (h.0, All-rewrite P e l h.1)

rewrite-IsStrict :
    (e : UserEntry) (l : List UserEntry)
    → IsSigned e
    → All IsSigned l
    → IsStrict user_entry_less l
    → IsStrict user_entry_less (map (rewrite e) l)
rewrite-IsStrict e [] g s h = tt
rewrite-IsStrict e (k ∷ l) g s h = (
  All-rewrite (λ j. user_entry_less (rewrite e k) j ≡ true) e l
      (All-map2 IsSigned (λ j. user_entry_less k j ≡ true)
        (λ j. user_entry_less (rewrite e k) (rewrite e j) ≡ true)
        (λ j t d.
          user_entry_less-Same k j (rewrite e k) (rewrite e j) (rewrite-Same e k g s.0)
            (rewrite-Same e j g t) d)
        l s.1 h.0),
  rewrite-IsStrict e l g s.1 h.1,
)

rewrite_others :
    (e : UserEntry) (l : List UserEntry)
    → All (λ j. eq_str j.composite e.composite ≡ false) l
    → map (rewrite e) l ≡ l
rewrite_others e [] h = refl
rewrite_others e (k ∷ l) h = rw (h.0, rewrite_others e l h.1)

values-insert_old :
    (e d : UserEntry) (m : Dict UserEntry)
    → IsKeyed key_of m
    → lookup e.composite m ≡ some d
    → values (insert e.composite e m) ≡ map (rewrite e) (values m)
unfolding lookup insert
values-insert_old e d [] h f = absurd (let bad : none ≡ some d = f in cc)
values-insert_old e d ((k, v) ∷ m) h f = elim (Bool-cases (eq_str k e.composite)) [
  | inl c ↦
      let same : k ≡ e.composite = (eq_str_iff k e.composite).0 c in
      let rest : map (rewrite e) (values m) ≡ values m =
        rewrite_others e (values m) (lookup-none-key key_of e.composite m h.2 (rw (← same) h.1)) in
      rw (c, h.0, c, rest)
  | inr c ↦
      let found : lookup e.composite m ≡ some d = ground arith in
      rw (c, h.0, c, values-insert_old e d m h.2 found)
]

module _ {keys : List UserEntry} {index : Dict UserEntry} (o : IsOrdered keys index) where
  pub write_entry-IsOrdered :
      (e d : UserEntry)
      → IsSigned e
      → lookup e.composite index ≡ some d
      → IsOrdered (write_entry e keys) (insert e.composite e index)
  unfolding write_entry
  write_entry-IsOrdered e d g f =
      let v : values (insert e.composite e index) ≡ map (rewrite e) (values index) =
        values-insert_old e d index o.keyed f in
      record {
        keyed = insert-IsKeyed key_of e.composite e index refl o.keyed;
        signed = rw v (
            All-rewrite IsSigned e (values index) (
              All-map IsSigned (λ k. IsSigned (rewrite e k)) (λ k h. rewrite_signed e k g h)
                (values index) o.signed));
        strict = rewrite-IsStrict e keys g (keys_signed o) o.strict;
        same = rw v (Perm.map (rewrite e) o.same);
      }

-- Every entry but those of a key.
abbrev but : UserEntry → List UserEntry → List UserEntry
but e = keep (λ j. not (eq_str j.composite e.composite))

drop_entry-but :
    (e : UserEntry) (l : List UserEntry)
    → IsSigned e
    → All IsSigned l
    → IsStrict user_entry_less l
    → drop_entry e l ≡ but e l
unfolding drop_entry keep
drop_entry-but e [] g s h = refl
drop_entry-but e (k ∷ l) g s h = elim (Bool-cases (eq_str k.composite e.composite)) [
  | inr c ↦ rw (c, drop_entry-but e l g s.1 h.1)
  | inl c ↦
      let same : k.composite ≡ e.composite = (eq_str_iff k.composite e.composite).0 c in
      let rest : but e l ≡ l =
        keep_all (λ j. not (eq_str j.composite e.composite)) l
          (All-map2 IsSigned (λ j. user_entry_less k j ≡ true)
            (λ j. not (eq_str j.composite e.composite) ≡ true)
            (λ j t d. elim (Bool-cases (eq_str j.composite e.composite)) [
              | inr n ↦ rw n
              | inl n ↦
                  let both : k.composite ≡ j.composite =
                    same ∙ sym ((eq_str_iff j.composite e.composite).0 n) in
                  let bad : user_entry_less k j ≡ false =
                    not_less k j (Same-composite k j s.0 t both) in
                  absurd (let no_way : true ≡ false = sym d ∙ bad in cc)
            ])
            l s.1 h.0) in
      rw (c, rest)
]

remove_key-but :
    (e : UserEntry) (l : List UserEntry)
    → IsSigned e
    → All IsSigned l
    → IsStrict user_entry_less l
    → remove_key e l ≡ but e l
unfolding remove_key keep
remove_key-but e [] g s h = refl
remove_key-but e (k ∷ l) g s h = elim (Bool-cases (user_entry_less k e)) [
  | inr c ↦ rw c (drop_entry-but e (k ∷ l) g s h)
  | inl c ↦ elim (Bool-cases (eq_str k.composite e.composite)) [
    | inr n ↦ rw (c, n, remove_key-but e l g s.1 h.1)
    | inl n ↦
        let bad : user_entry_less k e ≡ false =
          not_less k e (Same-composite k e s.0 g ((eq_str_iff k.composite e.composite).0 n)) in
        absurd (let no_way : true ≡ false = sym c ∙ bad in cc)
  ]
]

values-delete :
    (e : UserEntry) (m : Dict UserEntry)
    → IsKeyed key_of m
    → values (delete e.composite m) ≡ but e (values m)
unfolding delete keep
values-delete e [] h = refl
values-delete e ((k, v) ∷ m) h = elim (Bool-cases (eq_str k e.composite)) [
  | inl c ↦ rw (c, h.0, c) (values-delete e m h.2)
  | inr c ↦ rw (c, h.0, c, values-delete e m h.2)
]

module _ {keys : List UserEntry} {index : Dict UserEntry} (o : IsOrdered keys index) where
  pub remove_key-IsOrdered :
      (e : UserEntry) → IsSigned e → IsOrdered (remove_key e keys) (delete e.composite index)
  remove_key-IsOrdered e g =
      let v : values (delete e.composite index) ≡ but e (values index) =
        values-delete e index o.keyed in
      let r : remove_key e keys ≡ but e keys = remove_key-but e keys g (keys_signed o) o.strict in
      let test = λ (j : UserEntry). not (eq_str j.composite e.composite) in
      record {
        keyed = delete-IsKeyed key_of e.composite index o.keyed;
        signed = rw v (All-keep test IsSigned (values index) o.signed);
        strict = rw r (keep-IsStrict test user_entry_less keys o.strict);
        same = rw (v, r) (keep-Perm test o.same);
      }
