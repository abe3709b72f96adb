-- ===== src/Blend/Positions/Resolves.antt =====
-- blend/state.go, `positionsFromMap`: what a user's positions depend on.
use lidapters.Common.{
  ◌≡◌, refl, ◌∙◌, ap, Option, none, some, List, [], ◌∷◌, ◌++◌, Option-cases, inl, inr,
}
use lidapters.Common.Int.{ℤ}
use lidapters.Common.Str.{Str, lit}
use lidapters.Common.IntDict.{IntDict, find_int}
use lidapters.Xdr.{Xdr}
use lidapters.Blend.Types.{
  UserReservePosition, position_type_supply, position_type_collateral, position_type_liability,
}
use lidapters.Blend.Reserves.{PoolBuilder}
use lidapters.Blend.Reserves.Equal.{Alike}
use lidapters.Blend.Positions.{
  PendingUserPositions, Pending, Block, position_of, add_leg, leg_of, add_entry, entry_positions,
  entries_of, positions_from_map, part, build_user_positions_for_pending,
}

-- The position of an amount, before others, where its index resolves.
abbrev pub placed :
    {V : Type 0}
    → PendingUserPositions V
    → Str
    → Str
    → Option Str
    → List UserReservePosition
    → List UserReservePosition
placed p kind amount (some asset) rest = position_of p kind amount asset ∷ rest
placed p kind amount none rest = rest

add_leg-positions :
    {V : Type 0} (pool : PoolBuilder) (p : PendingUserPositions V) (kind : Str) (sink : Option ℤ)
    (index : ℤ) (amount : Str) (rest : Block)
    → (add_leg pool p kind sink index amount rest).positions
      ≡ placed p kind amount (find_int index pool.reserve_by_index) rest.positions
unfolding add_leg
add_leg-positions pool p kind none index amount rest =
    elim (Option-cases (find_int index pool.reserve_by_index)) [
      | inl e ↦ simp (e, add_leg) refl
      | inr (asset, e) ↦ simp (e, add_leg) refl
    ]
add_leg-positions pool p kind (some seq) index amount rest =
    elim (Option-cases (find_int index pool.reserve_by_index)) [
      | inl e ↦ simp (e, add_leg) refl
      | inr (asset, e) ↦ simp (e, add_leg) refl
    ]

module _ (x : Xdr) where
  open x use {ScVal}

  -- The positions of an entry before others.
  abbrev pub placed_leg :
      IntDict Str
      → Pending x
      → Str
      → Option (ℤ × Str)
      → List UserReservePosition
      → List UserReservePosition
  placed_leg by_index p kind none rest = rest
  placed_leg by_index p kind (some (index, amount)) rest =
      placed p kind amount (find_int index by_index) rest

  -- The positions that a mapping gives for the entries of a map.
  unfoldable pub placed_all :
      IntDict Str → Pending x → Str → List (ScVal × ScVal) → List UserReservePosition
  placed_all by_index p kind [] = []
  placed_all by_index p kind (e ∷ es) =
      placed_leg by_index p kind (leg_of x e) (placed_all by_index p kind es)

  add_entry-positions :
      (pool : PoolBuilder) (p : Pending x) (kind : Str) (sink : Option ℤ) (e : ScVal × ScVal)
      (rest : Block)
      → (add_entry x pool p kind sink e rest).positions
        ≡ placed_leg pool.reserve_by_index p kind (leg_of x e) rest.positions
  unfolding add_entry
  add_entry-positions pool p kind sink e rest = elim (Option-cases (leg_of x e)) [
    | inl h ↦ simp (h, add_entry) refl
    | inr ((index, amount), h) ↦
        simp (h, add_entry) (add_leg-positions pool p kind sink index amount rest)
  ]

  entry_positions_placed :
      (pool : PoolBuilder) (p : Pending x) (kind : Str) (sink : Option ℤ)
      (es : List (ScVal × ScVal))
      → (entry_positions x pool p kind sink es).positions
        ≡ placed_all pool.reserve_by_index p kind es
  unfolding entry_positions placed_all
  entry_positions_placed pool p kind sink [] = refl
  entry_positions_placed pool p kind sink (e ∷ es) =
      add_entry-positions pool p kind sink e (entry_positions x pool p kind sink es)
      ∙ ap (placed_leg pool.reserve_by_index p kind (leg_of x e))
          (entry_positions_placed pool p kind sink es)

  -- All positions of a user by a mapping.
  unfoldable pub placed_user : IntDict Str → Pending x → List UserReservePosition
  placed_user by_index p =
      placed_all by_index p position_type_supply (entries_of x (part x p (lit "supply")))
      ++ (placed_all by_index p position_type_collateral
            (entries_of x (part x p (lit "collateral")))
          ++ placed_all by_index p position_type_liability
              (entries_of x (part x p (lit "liabilities"))))

  pub build_user_positions-placed :
      (pool : PoolBuilder) (p : Pending x) (sink : Option ℤ)
      → (build_user_positions_for_pending x pool p sink).positions
        ≡ placed_user pool.reserve_by_index p
  unfolding build_user_positions_for_pending positions_from_map placed_user
  build_user_positions-placed pool p sink = cc (
    entry_positions_placed pool p position_type_supply sink
        (entries_of x (part x p (lit "supply"))),
    entry_positions_placed pool p position_type_collateral sink
        (entries_of x (part x p (lit "collateral"))),
    entry_positions_placed pool p position_type_liability sink
        (entries_of x (part x p (lit "liabilities"))),
  )

  placed_all-Alike :
      (a b : IntDict Str) (p : Pending x) (kind : Str) (es : List (ScVal × ScVal))
      → Alike a b
      → placed_all a p kind es ≡ placed_all b p kind es
  unfolding placed_all
  placed_all-Alike a b p kind [] h = refl
  placed_all-Alike a b p kind (e ∷ es) h = elim (Option-cases (leg_of x e)) [
    | inl l ↦ rw l (placed_all-Alike a b p kind es h)
    | inr ((index, amount), l) ↦ rw (l, h index, placed_all-Alike a b p kind es h)
  ]

  pub placed_user-Alike :
      (a b : IntDict Str) (p : Pending x) → Alike a b → placed_user a p ≡ placed_user b p
  unfolding placed_user
  placed_user-Alike a b p h = cc (
    placed_all-Alike a b p position_type_supply (entries_of x (part x p (lit "supply"))) h,
    placed_all-Alike a b p position_type_collateral (entries_of x (part x p (lit "collateral"))) h,
    placed_all-Alike a b p position_type_liability (entries_of x (part x p (lit "liabilities"))) h,
  )
