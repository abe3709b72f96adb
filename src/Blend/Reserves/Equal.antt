-- ===== src/Blend/Reserves/Equal.antt =====
-- blend/state_incremental.go, `reserveIndexEqual`.
use lidapters.Common.{
  ℕ, ◌≡◌, refl, true, false, ◌&&◌, Option, none, some, List, [], ◌∷◌, arith, length,
}
use lidapters.Common.Int.{ℤ}
use lidapters.Common.Str.{Str, eq_str, eq_str_iff}
use lidapters.Common.IntDict.{
  IntDict, find_int, drop_int, eq_ℤ_iff, HasKeysOnce, find_int-drop_int, drop_int-HasKeysOnce,
  length-drop_int, put_int-HasKeysOnce,
}
use lidapters.Blend.Types.{ReserveState}
use lidapters.Blend.Reserves.{
  Mapping, no_mapping, publish_reserve, publish, mapping, known_count, entries_in,
  reserve_index_equal, PoolBuilder, finalize_pool_reserves, sorted_reserves, name_reserves,
}

-- Two mappings that resolve each index alike.
abbrev pub Alike : IntDict Str → IntDict Str → Type 0
Alike a b = (i : ℤ) → find_int i a ≡ find_int i b

entries_in-drop_int :
    (k : ℤ) (a b : IntDict Str)
    → HasKeysOnce b
    → find_int k a ≡ none
    → entries_in a b ≡ true
    → entries_in a (drop_int k b) ≡ true
unfolding entries_in find_int
entries_in-drop_int k [] b h n e = refl
entries_in-drop_int k ((j, v) ∷ a) b h n e =
    ground
      (arith, eq_ℤ_iff j k, eq_ℤ_iff k j, find_int-drop_int k j b h, entries_in-drop_int k a b h)

entries_in_found :
    (k : ℤ) (v : Str) (a b : IntDict Str)
    → entries_in ((k, v) ∷ a) b ≡ true
    → (find_int k b ≡ some v) × (entries_in a b ≡ true)
unfolding entries_in
entries_in_found k v a b e = found (find_int k b) refl e
  where
    found :
        (o : Option Str)
        → find_int k b ≡ o
        → (elim o [ none ↦ false | some other ↦ eq_str other v ] && entries_in a b) ≡ true
        → (find_int k b ≡ some v) × (entries_in a b ≡ true)
    found none f h = absurd (ground arith)
    found (some w) f h = ground (arith, eq_str_iff w v)

empty_length : (b : IntDict Str) → length b ≡ 0 → b ≡ []
empty_length [] h = refl
empty_length (e ∷ b) h = absurd (omega (arith, h))

contained :
    (a b : IntDict Str)
    → HasKeysOnce a
    → HasKeysOnce b
    → length a ≡ length b
    → entries_in a b ≡ true
    → Alike a b
unfolding find_int
contained [] b h g l e i = rw (empty_length b (omega (arith, l)))
contained ((k, v) ∷ a) b h g l e i =
    let (found, rest) = entries_in_found k v a b e in
    let shorter : length a ≡ length (drop_int k b) =
      omega (arith, l, length-drop_int k v b found) in
    let ih =
      contained a (drop_int k b) h.1 (drop_int-HasKeysOnce k b g) shorter
        (entries_in-drop_int k a b g h.0 rest) i in
    ground (arith, eq_ℤ_iff k i, find_int-drop_int k i b g, ih, found)

-- Maps that the code finds equal resolve each index alike.
pub reserve_index_equal-Alike :
    (a b : IntDict Str) → HasKeysOnce a → HasKeysOnce b → reserve_index_equal a b ≡ true → Alike a b
unfolding reserve_index_equal
reserve_index_equal-Alike a b h g e i = contained a b h g (ground arith) (ground arith) i

publish-HasKeysOnce :
    (counts : IntDict ℕ) (m : Mapping) (rs : List ReserveState)
    → HasKeysOnce m.by_index
    → HasKeysOnce (publish counts m rs).by_index
unfolding publish publish_reserve
publish-HasKeysOnce counts m [] h = h
publish-HasKeysOnce counts m (r ∷ rs) h =
    publish-HasKeysOnce counts (publish_reserve counts r m) rs
      (ground (arith, put_int-HasKeysOnce r.reserve_index r.asset_id m.by_index h))

pub finalize_pool_reserves-HasKeysOnce :
    (p : PoolBuilder) → HasKeysOnce (finalize_pool_reserves p).reserve_by_index
unfolding finalize_pool_reserves mapping
finalize_pool_reserves-HasKeysOnce p =
    let rs = sorted_reserves (name_reserves p.reserves) in
    publish-HasKeysOnce (known_count [] rs) no_mapping rs tt
