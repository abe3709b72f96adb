-- ===== src/Blend/Reserves/Published.antt =====
-- blend/state.go, `finalizePoolReserves` and `publishedReserveIndexes`: who claims an index.
use lidapters.Common.{
  ℕ, suc, ◌+◌, ◌≡◌, refl, ◌∙◌, Option, none, some, List, [], ◌∷◌, ◌++◌, arith, ◌==◌, if◌then◌else◌,
  length,
}
use mathlib.Core.List.{append-nil, append_assoc}
use lidapters.Common.Int.{ℤ}
use lidapters.Common.Str.{Str}
use lidapters.Common.Dict.{Dict}
use lidapters.Common.IntDict.{IntDict, find_int, put_int, eq_ℤ, eq_ℤ_iff, find_int-put_int}
use lidapters.Blend.Types.{ReserveState}
use lidapters.Blend.Reserves.{
  PoolBuilder, name_reserve, name_reserves, count_of, known_count, Mapping, no_mapping, claim,
  publish_reserve, publish, mapping, sorted_reserves, finalize_pool_reserves, publish_known,
  published_reserve_indexes,
}

-- The asset of a reserve with a known index `i`, before others.
abbrev pub claimant : ℤ → ReserveState → List Str → List Str
claimant i r ids =
    if r.reserve_index_known
    then (if eq_ℤ r.reserve_index i then r.asset_id ∷ ids else ids)
    else ids

-- The assets whose reserves are known to have the index `i`.
abbrev pub claimants : ℤ → List ReserveState → List Str
claimants i [] = []
claimants i (r ∷ rs) = claimant i r (claimants i rs)

-- The only element of a list.
abbrev pub sole : {A : Type 0} → List A → Option A
sole (a ∷ []) = some a
sole _ = none

-- A list of two or more.
abbrev pub rivals : {A : Type 0} → List A → Option (List A)
rivals (a ∷ b ∷ l) = some (a ∷ b ∷ l)
rivals _ = none

count_of-put_int :
    (i j : ℤ) (n : ℕ) (counts : IntDict ℕ)
    → count_of i (put_int j n counts) ≡ (if eq_ℤ j i then n else count_of i counts)
unfolding count_of
count_of-put_int i j n counts = ground (arith, find_int-put_int j i n counts)

count_of-known_count :
    (i : ℤ) (counts : IntDict ℕ) (rs : List ReserveState)
    → count_of i (known_count counts rs) ≡ count_of i counts + length (claimants i rs)
unfolding known_count
count_of-known_count i counts [] = omega arith
count_of-known_count i counts (r ∷ rs) =
    let j = r.reserve_index in
    let more = put_int j (suc (count_of j counts)) counts in
    ground (
      arith,
      eq_ℤ_iff j i,
      count_of-put_int i j (suc (count_of j counts)) counts,
      count_of-known_count i counts rs,
      count_of-known_count i more rs,
    )

-- The last element of a list, or else `o`.
abbrev last_or : {A : Type 0} → Option A → List A → Option A
last_or o [] = o
last_or o (a ∷ l) = last_or (some a) l

abbrev claim_all : Option (List Str) → List Str → Option (List Str)
claim_all o [] = o
claim_all o (id ∷ ids) = claim_all (some (claim id o)) ids

publish-by_index :
    (i : ℤ) (counts : IntDict ℕ) (m : Mapping) (rs : List ReserveState)
    → find_int i (publish counts m rs).by_index ≡ (
        if count_of i counts == 1
        then last_or (find_int i m.by_index) (claimants i rs)
        else find_int i m.by_index)
unfolding publish publish_reserve
publish-by_index i counts m [] = ground arith
publish-by_index i counts m (r ∷ rs) =
    let j = r.reserve_index in
    let next = publish_reserve counts r m in
    ground (
      arith,
      eq_ℤ_iff j i,
      find_int-put_int j i r.asset_id m.by_index,
      publish-by_index i counts next rs,
    )

publish-ambiguous :
    (i : ℤ) (counts : IntDict ℕ) (m : Mapping) (rs : List ReserveState)
    → find_int i (publish counts m rs).ambiguous ≡ (
        if count_of i counts == 1
        then find_int i m.ambiguous
        else claim_all (find_int i m.ambiguous) (claimants i rs))
unfolding publish publish_reserve
publish-ambiguous i counts m [] = ground arith
publish-ambiguous i counts m (r ∷ rs) =
    let j = r.reserve_index in
    let next = publish_reserve counts r m in
    ground (
      arith,
      eq_ℤ_iff j i,
      find_int-put_int j i (claim r.asset_id (find_int j m.ambiguous)) m.ambiguous,
      publish-ambiguous i counts next rs,
    )

claim_all-some : (ids l : List Str) → claim_all (some ids) l ≡ some (ids ++ l)
claim_all-some ids [] = rw (append-nil ids)
claim_all-some ids (id ∷ l) = rw (claim_all-some (ids ++ id ∷ []) l, append_assoc ids (id ∷ []) l)

sole_lem :
    (n : ℕ) (l : List Str) → n ≡ length l → (if n == 1 then last_or none l else none) ≡ sole l
sole_lem n [] h = ground arith
sole_lem n (a ∷ []) h = ground arith
sole_lem n (a ∷ b ∷ l) h = ground arith

rivals_lem :
    (n : ℕ) (l : List Str) → n ≡ length l → (if n == 1 then none else claim_all none l) ≡ rivals l
rivals_lem n [] h = ground arith
rivals_lem n (a ∷ []) h = ground arith
rivals_lem n (a ∷ b ∷ l) h = ground (arith, claim_all-some (a ∷ b ∷ []) l)

count_of-claimants :
    (i : ℤ) (rs : List ReserveState) → count_of i (known_count [] rs) ≡ length (claimants i rs)
unfolding count_of find_int
count_of-claimants i rs = omega (arith, count_of-known_count i [] rs)

find_int_nil : {V : Type 0} (i : ℤ) → find_int {V = V} i [] ≡ none
unfolding find_int
find_int_nil i = refl

pub mapping-by_index :
    (i : ℤ) (rs : List ReserveState) → find_int i (mapping rs).by_index ≡ sole (claimants i rs)
unfolding mapping
mapping-by_index i rs =
    publish-by_index i (known_count [] rs) no_mapping rs
    ∙ rw (find_int_nil {V = Str} i)
        (sole_lem (count_of i (known_count [] rs)) (claimants i rs) (count_of-claimants i rs))

mapping-ambiguous :
    (i : ℤ) (rs : List ReserveState) → find_int i (mapping rs).ambiguous ≡ rivals (claimants i rs)
unfolding mapping
mapping-ambiguous i rs =
    publish-ambiguous i (known_count [] rs) no_mapping rs
    ∙ rw (find_int_nil {V = List Str} i)
        (rivals_lem (count_of i (known_count [] rs)) (claimants i rs) (count_of-claimants i rs))

-- After `finalizePoolReserves`, an index resolves to an asset exactly if a single reserve of the
-- pool is known to have this index, and then to its asset; it is ambiguous exactly if two or more
-- are, with all their assets as the candidates in the order of the reserves. A reserve whose index
-- is not known never counts.
pub finalize_pool_reserves-claimants :
    (i : ℤ) (p : PoolBuilder)
    → let q = finalize_pool_reserves p in
      (find_int i q.reserve_by_index ≡ sole (claimants i q.state.reserves))
      × (find_int i q.ambiguous_by_index ≡ rivals (claimants i q.state.reserves))
unfolding finalize_pool_reserves
finalize_pool_reserves-claimants i p =
    let rs = sorted_reserves (name_reserves p.reserves) in
    (mapping-by_index i rs, mapping-ambiguous i rs)

publish-publish_known :
    (counts : IntDict ℕ) (m : Mapping) (rs : List ReserveState)
    → (publish counts m rs).by_index ≡ publish_known counts m.by_index rs
unfolding publish publish_reserve publish_known
publish-publish_known counts m [] = refl
publish-publish_known counts m (r ∷ rs) =
    ground (arith, publish-publish_known counts (publish_reserve counts r m) rs)

-- The mapping that `finalizePoolReserves` keeps in the builder is the one that
-- `publishedReserveIndexes` derives from the reserves of the finalized pool.
pub finalize_pool_reserves-published_reserve_indexes :
    (p : PoolBuilder)
    → let q = finalize_pool_reserves p in
      q.reserve_by_index ≡ published_reserve_indexes q.state.reserves
unfolding finalize_pool_reserves published_reserve_indexes mapping
finalize_pool_reserves-published_reserve_indexes p =
    let rs = sorted_reserves (name_reserves p.reserves) in
    publish-publish_known (known_count [] rs) no_mapping rs

name_reserve_idem :
    (id : Str) (r : ReserveState) → name_reserve id (name_reserve id r) ≡ name_reserve id r
unfolding name_reserve
name_reserve_idem id r = ground arith

name_reserves_idem : (m : Dict ReserveState) → name_reserves (name_reserves m) ≡ name_reserves m
unfolding name_reserves
name_reserves_idem [] = refl
name_reserves_idem ((id, r) ∷ m) = cc (name_reserve_idem id r, name_reserves_idem m)

-- Finalizing a pool a second time changes nothing.
pub finalize_pool_reserves_idem :
    (p : PoolBuilder) → finalize_pool_reserves (finalize_pool_reserves p) ≡ finalize_pool_reserves p
unfolding finalize_pool_reserves
finalize_pool_reserves_idem p = simp (name_reserves_idem p.reserves)
