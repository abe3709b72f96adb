-- ===== src/Blend/Reserves.antt =====
-- blend/state.go: the builder of a pool and the reserve indexes that it publishes.
pub mod Equal
pub mod Published
pub mod Once
use lidapters.Common.{
  ℕ, zero, suc, ◌≡◌, Bool, true, false, not, ◌&&◌, Option, none, some, List, [], ◌∷◌, ◌++◌, ◌==◌,
  if◌then◌else◌, length,
}
use lidapters.Common.Int.{ℤ, ltb_ℤ}
use lidapters.Common.Str.{Str, lit, eq_str, lt_str, is_empty}
use lidapters.Common.Dict.{Dict, lookup, insert, values}
use lidapters.Common.IntDict.{IntDict, find_int, put_int, eq_ℤ}
use lidapters.Common.Sort.{sort_slice}
use lidapters.Blend.Types.{PoolState, ReserveState, zero_pool_state, zero_reserve}

-- A `reserveBuilder` is the state of its reserve.
pub record PoolBuilder : Type 0 where
  pub state : PoolState
  pub reserves : Dict ReserveState
  pub reserve_list : List Str
  pub reserve_by_index : IntDict Str
  pub ambiguous_by_index : IntDict (List Str)
  pub unknown_index_assets : List Str

-- The builder that `ensurePool` makes.
abbrev pub new_pool : Str → PoolBuilder
new_pool id = record {
  state = record zero_pool_state { contract_id = id; pool_status = lit "unknown" };
  reserves = [];
  reserve_list = [];
  reserve_by_index = [];
  ambiguous_by_index = [];
  unknown_index_assets = [];
}

unfoldable pub ensure_pool : Dict PoolBuilder → Str → Dict PoolBuilder
ensure_pool pools id = elim (lookup id pools) [
  | some pool ↦ pools
  | none ↦ insert id (new_pool id) pools
]

unfoldable pub ensure_reserve : PoolBuilder → Str → PoolBuilder
ensure_reserve pool id = elim (lookup id pool.reserves) [
  | some r ↦ pool
  | none ↦ record pool {
    reserves = insert id (record zero_reserve { asset_id = id }) pool.reserves;
  }
]

-- A reserve without an asset id gets the one it is stored under.
unfoldable pub name_reserve : Str → ReserveState → ReserveState
name_reserve id r = if is_empty r.asset_id then record r { asset_id = id } else r

unfoldable pub name_reserves : Dict ReserveState → Dict ReserveState
name_reserves [] = []
name_reserves ((id, r) ∷ m) = (id, name_reserve id r) ∷ name_reserves m

unfoldable pub less_reserve : ReserveState → ReserveState → Bool
less_reserve a b =
    if not (eq_ℤ a.reserve_index b.reserve_index)
    then ltb_ℤ a.reserve_index b.reserve_index
    else lt_str a.asset_id b.asset_id

-- `counts[i]` of a map of numbers
unfoldable pub count_of : ℤ → IntDict ℕ → ℕ
count_of i counts = elim (find_int i counts) [ none ↦ 0 | some n ↦ n ]

-- `knownCount`, from the counts so far.
unfoldable pub known_count : IntDict ℕ → List ReserveState → IntDict ℕ
known_count counts [] = counts
known_count counts (r ∷ rs) =
    known_count
      (if r.reserve_index_known
        then put_int r.reserve_index (suc (count_of r.reserve_index counts)) counts
        else counts)
      rs

-- What the loop over the sorted reserves fills.
pub record Mapping : Type 0 where
  pub by_index : IntDict Str
  pub ambiguous : IntDict (List Str)
  pub unknown : List Str

abbrev pub no_mapping : Mapping
no_mapping = record { by_index = []; ambiguous = []; unknown = [] }

-- `append(m[i], id)` of a map of slices
abbrev pub claim : Str → Option (List Str) → List Str
claim id none = id ∷ []
claim id (some ids) = ids ++ id ∷ []

unfoldable pub publish_reserve : IntDict ℕ → ReserveState → Mapping → Mapping
publish_reserve counts r m =
    if not r.reserve_index_known
    then record m { unknown = m.unknown ++ r.asset_id ∷ [] }
    else if count_of r.reserve_index counts == 1
    then record m { by_index = put_int r.reserve_index r.asset_id m.by_index }
    else record m {
      ambiguous =
          put_int r.reserve_index (claim r.asset_id (find_int r.reserve_index m.ambiguous))
            m.ambiguous;
    }

unfoldable pub publish : IntDict ℕ → Mapping → List ReserveState → Mapping
publish counts m [] = m
publish counts m (r ∷ rs) = publish counts (publish_reserve counts r m) rs

-- The mapping of a slice of reserves.
unfoldable pub mapping : List ReserveState → Mapping
mapping rs = publish (known_count [] rs) no_mapping rs

unfoldable pub sorted_reserves : Dict ReserveState → List ReserveState
sorted_reserves m = sort_slice less_reserve (values m)

unfoldable pub finalize_pool_reserves : PoolBuilder → PoolBuilder
finalize_pool_reserves p =
    let named = name_reserves p.reserves in
    let rs = sorted_reserves named in
    record p {
      reserves = named;
      state = record p.state { reserves = rs };
      reserve_by_index = (mapping rs).by_index;
      ambiguous_by_index = (mapping rs).ambiguous;
      unknown_index_assets = sort_slice lt_str (mapping rs).unknown;
    }

unfoldable pub publish_known : IntDict ℕ → IntDict Str → List ReserveState → IntDict Str
publish_known counts out [] = out
publish_known counts out (r ∷ rs) =
    publish_known counts
      (if r.reserve_index_known && count_of r.reserve_index counts == 1
        then put_int r.reserve_index r.asset_id out
        else out)
      rs

unfoldable pub published_reserve_indexes : List ReserveState → IntDict Str
published_reserve_indexes rs = publish_known (known_count [] rs) [] rs

-- Whether each entry of a map is in another one.
unfoldable pub entries_in : IntDict Str → IntDict Str → Bool
entries_in [] b = true
entries_in ((i, id) ∷ a) b =
    elim (find_int i b) [ none ↦ false | some other ↦ eq_str other id ] && entries_in a b

unfoldable pub reserve_index_equal : IntDict Str → IntDict Str → Bool
reserve_index_equal a b = (length a == length b) && entries_in a b
