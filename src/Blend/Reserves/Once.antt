-- ===== src/Blend/Reserves/Once.antt =====
-- blend/state.go, `finalizePoolReserves`: an asset is published under one index.
use lidapters.Common.{
  ◌≡◌, refl, sym, ◌∙◌, inl, inr, Bool, none, some, List, [], ◌∷◌, arith, Bool-cases, Any,
}
use mathlib.Core.List.Permᴰ as Perm
use lidapters.Common.Int.{ℤ}
use lidapters.Common.Str.{Str, lt_str_irrefl, is_empty}
use lidapters.Common.Dict.{Dict, IsKeyed, less_by, values, values-IsDistinct}
use lidapters.Common.IntDict.{find_int, eq_ℤ, eq_ℤ_iff}
use lidapters.Common.Sort.{IsDistinct, Apart, IsDistinct-perm}
use lidapters.Common.Strict.{sort_slice-Perm}
use lidapters.Blend.Types.{ReserveState}
use lidapters.Blend.Reserves.{
  PoolBuilder, less_reserve, name_reserve, name_reserves, sorted_reserves, finalize_pool_reserves,
}
use lidapters.Blend.Reserves.Published.{claimants, sole, mapping-by_index}

-- A reserve of the list is known to have the index `i` and is that of the asset `a`.
abbrev Holds : ℤ → Str → List ReserveState → Type 0
Holds i a = Any (λ r. (r.reserve_index ≡ i) × (r.asset_id ≡ a))

-- The asset is among the claimants.
abbrev Among : Str → List Str → Type 0
Among a = Any (λ b. b ≡ a)

Among-Holds : (i : ℤ) (a : Str) (rs : List ReserveState) → Among a (claimants i rs) → Holds i a rs
Among-Holds i a [] h = h
Among-Holds i a (r ∷ rs) h = elim (Bool-cases r.reserve_index_known) [
  | inr e ↦ inr (Among-Holds i a rs (simp e at h))
  | inl e ↦ elim (Bool-cases (eq_ℤ r.reserve_index i)) [
    | inr f ↦ inr (Among-Holds i a rs (simp (e, f) at h))
    | inl f ↦
        let k : Among a (r.asset_id ∷ claimants i rs) = simp (e, f) at h in
        elim k [
          | inl g ↦ inl ((eq_ℤ_iff r.reserve_index i).0 f, g)
          | inr g ↦ inr (Among-Holds i a rs g)
        ]
  ]
]

sole-Among : (a : Str) (l : List Str) → sole l ≡ some a → Among a l
sole-Among a [] h = absurd (let bad : none ≡ some a = h in cc)
sole-Among a (b ∷ []) h = inl (cc)
sole-Among a (b ∷ c ∷ l) h = absurd (let bad : none ≡ some a = h in cc)

abbrev asset_less : ReserveState → ReserveState → Bool
asset_less = less_by (λ r. r.asset_id)

not_Apart :
    (r s : ReserveState) (a : Str) → r.asset_id ≡ a → s.asset_id ≡ a → ¬ Apart asset_less r s
not_Apart r s a e f h = ground (arith, lt_str_irrefl a, h)

not_twice :
    (r : ReserveState) (rs : List ReserveState) (i : ℤ) (a : Str)
    → IsDistinct asset_less (r ∷ rs)
    → r.asset_id ≡ a
    → ¬ Holds i a rs
not_twice r [] i a d e h = h
not_twice r (s ∷ rs) i a d e (inl (f, g)) = not_Apart r s a e g d.0.0
not_twice r (s ∷ rs) i a d e (inr h) = not_twice r rs i a (d.0.1, d.1.1) e h

Holds-once :
    (i j : ℤ) (a : Str) (rs : List ReserveState)
    → IsDistinct asset_less rs
    → Holds i a rs
    → Holds j a rs
    → i ≡ j
Holds-once i j a [] d h k = absurd h
Holds-once i j a (r ∷ rs) d (inl (e, f)) (inl (g, k)) = sym e ∙ g
Holds-once i j a (r ∷ rs) d (inl (e, f)) (inr k) = absurd (not_twice r rs j a d f k)
Holds-once i j a (r ∷ rs) d (inr h) (inl (g, k)) = absurd (not_twice r rs i a d k h)
Holds-once i j a (r ∷ rs) d (inr h) (inr k) = Holds-once i j a rs d.1 h k

abbrev pub asset_of : ReserveState → Str
asset_of r = r.asset_id

name_reserve_named : (id : Str) (r : ReserveState) → r.asset_id ≡ id → name_reserve id r ≡ r
unfolding name_reserve
name_reserve_named id r h = elim (Bool-cases (is_empty r.asset_id)) [
  | inr e ↦ simp e refl
  | inl e ↦ simp e (rw (← h) refl)
]

pub name_reserves_named : (m : Dict ReserveState) → IsKeyed asset_of m → name_reserves m ≡ m
unfolding name_reserves
name_reserves_named [] h = refl
name_reserves_named ((id, r) ∷ m) h = cc (name_reserve_named id r h.0, name_reserves_named m h.2)

sorted_reserves-IsDistinct :
    (m : Dict ReserveState) → IsKeyed asset_of m → IsDistinct asset_less (sorted_reserves m)
unfolding sorted_reserves
sorted_reserves-IsDistinct m h =
    IsDistinct-perm asset_less (Perm.symm (sort_slice-Perm less_reserve (values m)))
      (values-IsDistinct asset_of m h)

-- In a finalized pool whose reserves are stored under their asset ids, no asset is published under
-- two indexes.
pub finalize_pool_reserves-once :
    (p : PoolBuilder) (i j : ℤ) (a : Str)
    → IsKeyed asset_of p.reserves
    → find_int i (finalize_pool_reserves p).reserve_by_index ≡ some a
    → find_int j (finalize_pool_reserves p).reserve_by_index ≡ some a
    → i ≡ j
unfolding finalize_pool_reserves
finalize_pool_reserves-once p i j a k e f =
    let rs = sorted_reserves (name_reserves p.reserves) in
    let d : IsDistinct asset_less rs =
      rw (name_reserves_named p.reserves k) (sorted_reserves-IsDistinct p.reserves k) in
    Holds-once i j a rs d
      (Among-Holds i a rs (sole-Among a (claimants i rs) (sym (mapping-by_index i rs) ∙ e)))
      (Among-Holds j a rs (sole-Among a (claimants j rs) (sym (mapping-by_index j rs) ∙ f)))
