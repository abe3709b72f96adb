-- ===== src/Blend/Positions/Apart.antt =====
-- blend/state.go, `buildUserPositionsForPending`: no two positions of a user in a pool have the same
-- asset and type.
use lidapters.Common.{
  ◌≡◌, refl, inl, inr, false, Option, none, some, List, [], ◌∷◌, ◌++◌, arith, Bool-cases, All,
  All-append,
}
use lidapters.Common.Int.{ℤ}
use lidapters.Common.Str.{Str, lit, eq_str, eq_str_iff, lt_str_apart}
use lidapters.Common.IntDict.{IntDict, find_int, eq_ℤ, eq_ℤ_iff}
use lidapters.Common.Sort.{Apart, IsDistinct, All-map}
use lidapters.Common.Strict.{IsDistinct-append, All-both}
use lidapters.Xdr.{Xdr}
use lidapters.Blend.Types.{
  UserReservePosition, position_type_supply, position_type_collateral, position_type_liability,
}
use lidapters.Blend.Positions.{Pending, position_of, leg_of, entries_of, part}
use lidapters.Blend.Positions.Resolves.{placed, placed_leg, placed_all, placed_user}
use lidapters.Blend.Order.{less_position}

-- No asset is found under two indexes.
abbrev pub HasAssetsOnce : IntDict Str → Type 0
HasAssetsOnce m = (i j : ℤ) (a : Str) → find_int i m ≡ some a → find_int j m ≡ some a → i ≡ j

Apart-asset :
    (u v : UserReservePosition) → eq_str u.asset_id v.asset_id ≡ false → Apart less_position u v
Apart-asset u v h = ground (
  arith,
  lt_str_apart u.asset_id v.asset_id,
  eq_str_iff u.asset_id v.asset_id,
  eq_str_iff v.asset_id u.asset_id,
)

Apart-type :
    (u v : UserReservePosition)
    → eq_str u.position_type v.position_type ≡ false
    → Apart less_position u v
Apart-type u v h = ground (
  arith,
  lt_str_apart u.asset_id v.asset_id,
  lt_str_apart u.position_type v.position_type,
  eq_str_iff u.asset_id v.asset_id,
  eq_str_iff v.asset_id u.asset_id,
)

module _ (x : Xdr) where
  open x use {ScVal}

  -- The index of an entry, if it has one, is not that of another one.
  abbrev NotAt : ℤ → Option (ℤ × Str) → Type 0
  NotAt i none = Unit
  NotAt i (some (j, amount)) = eq_ℤ i j ≡ false

  abbrev Fresh : Option (ℤ × Str) → List (ScVal × ScVal) → Type 0
  Fresh none es = Unit
  Fresh (some (i, amount)) es = All (λ e. NotAt i (leg_of x e)) es

  -- The entries of a map that count have different indexes.
  abbrev pub HasIndexesOnce : List (ScVal × ScVal) → Type 0
  HasIndexesOnce [] = Unit
  HasIndexesOnce (e ∷ es) = Fresh (leg_of x e) es × HasIndexesOnce es

  -- So for each of the three maps of a user's entry.
  pub record IsPositions (p : Pending x) : Type 0 where
    pub supply : HasIndexesOnce (entries_of x (part x p (lit "supply")))
    pub collateral : HasIndexesOnce (entries_of x (part x p (lit "collateral")))
    pub liabilities : HasIndexesOnce (entries_of x (part x p (lit "liabilities")))

  module _ (m : IntDict Str) (p : Pending x) where
    placed-All :
        (P : UserReservePosition → Type 0) (kind amount : Str) (o : Option Str)
        (rest : List UserReservePosition)
        → ((a : Str) → o ≡ some a → P (position_of p kind amount a))
        → All P rest
        → All P (placed p kind amount o rest)
    placed-All P kind amount none rest f h = h
    placed-All P kind amount (some a) rest f h = (f a refl, h)

    -- What all positions of a kind have.
    abbrev OfKind : Str → UserReservePosition → Type 0
    OfKind kind u =
        (u.position_type ≡ kind) × (u.address ≡ p.user) × (u.pool_contract_id ≡ p.pool_contract)

    placed_leg-OfKind :
        (kind : Str) (l : Option (ℤ × Str)) (rest : List UserReservePosition)
        → All (OfKind kind) rest
        → All (OfKind kind) (placed_leg x m p kind l rest)
    unfolding position_of
    placed_leg-OfKind kind none rest h = h
    placed_leg-OfKind kind (some (i, amount)) rest h =
        placed-All (OfKind kind) kind amount (find_int i m) rest (λ a e. (refl, refl, refl)) h

    placed_all-OfKind :
        (kind : Str) (es : List (ScVal × ScVal)) → All (OfKind kind) (placed_all x m p kind es)
    unfolding placed_all
    placed_all-OfKind kind [] = tt
    placed_all-OfKind kind (e ∷ es) =
        placed_leg-OfKind kind (leg_of x e) (placed_all x m p kind es) (placed_all-OfKind kind es)

    module _ (once : HasAssetsOnce m) where
      abbrev Without : Str → UserReservePosition → Type 0
      Without a u = eq_str a u.asset_id ≡ false

      without :
          (i j : ℤ) (a b : Str)
          → eq_ℤ i j ≡ false
          → find_int i m ≡ some a
          → find_int j m ≡ some b
          → eq_str a b ≡ false
      without i j a b n e f = elim (Bool-cases (eq_str a b)) [
        | inr g ↦ g
        | inl g ↦
            let same : i ≡ j = once i j b (rw (← (eq_str_iff a b).0 g) e) f in
            ground (arith, eq_ℤ_iff i j)
      ]

      placed_leg-Without :
          (i : ℤ) (a kind : Str) (l : Option (ℤ × Str)) (rest : List UserReservePosition)
          → find_int i m ≡ some a
          → NotAt i l
          → All (Without a) rest
          → All (Without a) (placed_leg x m p kind l rest)
      unfolding position_of
      placed_leg-Without i a kind none rest e n h = h
      placed_leg-Without i a kind (some (j, amount)) rest e n h =
          placed-All (Without a) kind amount (find_int j m) rest (λ b f. without i j a b n e f) h

      placed_all-Without :
          (i : ℤ) (a kind : Str) (es : List (ScVal × ScVal))
          → find_int i m ≡ some a
          → All (λ e. NotAt i (leg_of x e)) es
          → All (Without a) (placed_all x m p kind es)
      unfolding placed_all
      placed_all-Without i a kind [] e n = tt
      placed_all-Without i a kind (d ∷ es) e n =
          placed_leg-Without i a kind (leg_of x d) (placed_all x m p kind es) e n.0
            (placed_all-Without i a kind es e n.1)

      placed-IsDistinct :
          (i : ℤ) (kind amount : Str) (o : Option Str) (es : List (ScVal × ScVal))
          → find_int i m ≡ o
          → All (λ e. NotAt i (leg_of x e)) es
          → IsDistinct less_position (placed_all x m p kind es)
          → IsDistinct less_position (placed p kind amount o (placed_all x m p kind es))
      unfolding position_of
      placed-IsDistinct i kind amount none es e n h = h
      placed-IsDistinct i kind amount (some a) es e n h = (
        All-map (Without a) (Apart less_position (position_of p kind amount a))
            (λ u w. Apart-asset (position_of p kind amount a) u w) (placed_all x m p kind es)
            (placed_all-Without i a kind es e n),
        h,
      )

      placed_leg-IsDistinct :
          (kind : Str) (l : Option (ℤ × Str)) (es : List (ScVal × ScVal))
          → Fresh l es
          → IsDistinct less_position (placed_all x m p kind es)
          → IsDistinct less_position (placed_leg x m p kind l (placed_all x m p kind es))
      placed_leg-IsDistinct kind none es n h = h
      placed_leg-IsDistinct kind (some (i, amount)) es n h =
          placed-IsDistinct i kind amount (find_int i m) es refl n h

      placed_all-IsDistinct :
          (kind : Str) (es : List (ScVal × ScVal))
          → HasIndexesOnce es
          → IsDistinct less_position (placed_all x m p kind es)
      unfolding placed_all
      placed_all-IsDistinct kind [] h = tt
      placed_all-IsDistinct kind (e ∷ es) h =
          placed_leg-IsDistinct kind (leg_of x e) es h.0 (placed_all-IsDistinct kind es h.1)

    -- The positions of one of the three maps.
    abbrev in_part : Str → Str → List UserReservePosition
    in_part name kind = placed_all x m p kind (entries_of x (part x p name))

    abbrev OtherKind : Str → UserReservePosition → Type 0
    OtherKind k u = eq_str k u.position_type ≡ false

    other_kind : (k l name : Str) → eq_str k l ≡ false → All (OtherKind k) (in_part name l)
    other_kind k l name n =
        All-map (OfKind l) (OtherKind k) (λ u h. rw h.0 n) (in_part name l)
          (placed_all-OfKind l (entries_of x (part x p name)))

    in_part-Apart :
        (k name : Str) (rest : List UserReservePosition)
        → All (OtherKind k) rest
        → All (λ u. All (Apart less_position u) rest) (in_part name k)
    in_part-Apart k name rest h =
        All-both (OfKind k) (OtherKind k) (Apart less_position)
          (λ u v f g. Apart-type u v (rw f.0 g)) (in_part name k) rest
          (placed_all-OfKind k (entries_of x (part x p name))) h

    -- The addresses of a user's positions are the user and the pool.
    abbrev pub OfUser : UserReservePosition → Type 0
    OfUser u = (u.address ≡ p.user) × (u.pool_contract_id ≡ p.pool_contract)

    in_part-OfUser : (name k : Str) → All OfUser (in_part name k)
    in_part-OfUser name k =
        All-map (OfKind k) OfUser (λ u h. (h.1, h.2)) (in_part name k)
          (placed_all-OfKind k (entries_of x (part x p name)))

    abbrev supplied : List UserReservePosition
    supplied = in_part (lit "supply") position_type_supply

    abbrev lent : List UserReservePosition
    lent = in_part (lit "collateral") position_type_collateral

    abbrev owed : List UserReservePosition
    owed = in_part (lit "liabilities") position_type_liability

    pub placed_user-OfUser : All OfUser (placed_user x m p)
    unfolding placed_user
    placed_user-OfUser =
        All-append OfUser supplied (lent ++ owed)
          (in_part-OfUser (lit "supply") position_type_supply)
          (All-append OfUser lent owed (in_part-OfUser (lit "collateral") position_type_collateral)
            (in_part-OfUser (lit "liabilities") position_type_liability))

    pub placed_user-IsDistinct :
        HasAssetsOnce m → IsPositions p → IsDistinct less_position (placed_user x m p)
    unfolding placed_user eq_str
    placed_user-IsDistinct once h =
        IsDistinct-append less_position supplied (lent ++ owed)
          (placed_all-IsDistinct once position_type_supply (entries_of x (part x p (lit "supply")))
            h.supply)
          (IsDistinct-append less_position lent owed
            (placed_all-IsDistinct once position_type_collateral
              (entries_of x (part x p (lit "collateral"))) h.collateral)
            (placed_all-IsDistinct once position_type_liability
              (entries_of x (part x p (lit "liabilities"))) h.liabilities)
            (in_part-Apart position_type_collateral (lit "collateral") owed (
              other_kind position_type_collateral position_type_liability (lit "liabilities")
                refl)))
          (in_part-Apart position_type_supply (lit "supply") (lent ++ owed) (
            All-append (OtherKind position_type_supply) lent owed
              (other_kind position_type_supply position_type_collateral (lit "collateral") refl)
              (other_kind position_type_supply position_type_liability (lit "liabilities") refl)))
