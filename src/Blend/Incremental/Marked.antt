-- ===== src/Blend/Incremental/Marked.antt =====
-- blend/state_incremental.go: the keys that a changed pool makes dirty.
use lidapters.Common.{◌≡◌, inl, inr, true, false, none, List, [], ◌∷◌, arith, Bool-cases, All}
use lidapters.Common.Str.{Str, eq_str}
use lidapters.Common.Dict.{Dict, StrSet, mem, lookup, insert, lookup-insert}
use lidapters.Common.Entries.{AllEntries, insert-AllEntries}
use lidapters.Blend.Positions.{UserIdentity}
use lidapters.Blend.Incremental.{UserEntry, mark_changed}
use lidapters.Blend.Incremental.Keys.{IsSigned}
use lidapters.Blend.Incremental.Update.{IsNamed}

-- An entry under the key is of no changed pool.
abbrev pub Unmoved : StrSet → Str → UserEntry → Type 0
Unmoved changed k e = eq_str e.composite k ≡ true → mem e.pool changed ≡ false

pub mark_changed-none :
    (changed : StrSet) (k : Str) (keys : List UserEntry) (dirty : Dict UserIdentity)
    → lookup k (mark_changed changed keys dirty) ≡ none
    → (lookup k dirty ≡ none) × All (Unmoved changed k) keys
unfolding mark_changed
mark_changed-none changed k [] dirty h = (h, tt)
mark_changed-none changed k (e ∷ keys) dirty h = elim (Bool-cases (mem e.pool changed)) [
  | inr m ↦ let (f, g) = mark_changed-none changed k keys dirty (rw m at h) in (f, ((λ c. m), g))
  | inl m ↦
      let i : UserIdentity = record { address = e.address; pool = e.pool } in
      let (f, g) = mark_changed-none changed k keys (insert e.composite i dirty) (rw m at h) in
      let l = lookup-insert e.composite k i dirty in
      let apart : eq_str e.composite k ≡ false = ground (arith, f, l) in
      (ground (arith, f, l), ((λ c. ground arith), g))
]

pub mark_changed-IsNamed :
    (changed : StrSet) (keys : List UserEntry) (dirty : Dict UserIdentity)
    → All IsSigned keys
    → AllEntries IsNamed dirty
    → AllEntries IsNamed (mark_changed changed keys dirty)
unfolding mark_changed
mark_changed-IsNamed changed [] dirty s h = h
mark_changed-IsNamed changed (e ∷ keys) dirty s h = elim (Bool-cases (mem e.pool changed)) [
  | inr m ↦ rw m (mark_changed-IsNamed changed keys dirty s.1 h)
  | inl m ↦
      let i : UserIdentity = record { address = e.address; pool = e.pool } in
      rw m (
        mark_changed-IsNamed changed keys (insert e.composite i dirty) s.1
          (insert-AllEntries IsNamed e.composite i dirty s.0 h))
]
