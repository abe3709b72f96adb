-- ===== src/Aquarius/Transform/Closes.antt =====
-- aquarius/transform.go, `Transform`: the components of a position that was closed out.
use lidapters.Common.{
  ◌≡◌, refl, ap, true, false, ◌&&◌, none, List, [], ◌∷◌, Bool-cases, inl, inr, if◌then◌else◌, All,
  map, Any, All-append, Option-cases, ◌⊎◌,
}
use lidapters.Common.Str.{Str, lit, eq_str}
use lidapters.Common.Dict.{insert}
use lidapters.Common.Sort.{All-map}
use lidapters.Xdr.{Xdr}
use lidapters.Bindings.State.{AmmPoolState, AmmPositionState, AmmTokenReserve}
use lidapters.Bindings.Rows.{TransformInput, AmmPositionComponent}
use lidapters.Aquarius.Math.{pro_rata}
use lidapters.Aquarius.Config.{Adapter}
use lidapters.Aquarius.Work.{is_nonzero}
use lidapters.Aquarius.Removal.{closed_position}
use lidapters.Aquarius.Transform.{
  component, principals, no_rows, lp_rows, range_row, range_leg, range_open, range_closed,
  is_closed_range, append_range_components, closed_rows, group_id, principal_rows,
}

-- The first two of a list.
abbrev first_two : List AmmTokenReserve → List AmmTokenReserve
first_two (t ∷ u ∷ ts) = t ∷ u ∷ []
first_two _ = []

-- A component that says that the amount of a token is gone.
abbrev pub IsTombstone : AmmPositionComponent → Type 0
IsTombstone r =
    (r.amount_raw ≡ lit "0")
    × (r.share_amount_raw ≡ lit "0")
    × (r.metadata
        ≡ (lit "price_unavailable", lit "true")
          ∷ (lit "apr_partial", lit "true")
          ∷ (lit "closed", lit "true")
          ∷ [])

-- The tokens for which a position of the pool has a principal.
abbrev principal_tokens : AmmPoolState → List AmmTokenReserve
principal_tokens pool =
    if eq_str pool.pool_type (lit "concentrated") then first_two pool.tokens else pool.tokens

module _ (x : Xdr) (a : Adapter) (input : TransformInput) (p : AmmPositionState) where
  closed_rows-IsTombstone :
      (group : Str) (ts : List AmmTokenReserve)
      → All IsTombstone (closed_rows x a input group p ts)
        × (map (λ r. r.asset_id) (closed_rows x a input group p ts) ≡ map (λ t. t.asset_id) ts)
  unfolding closed_rows component insert eq_str
  closed_rows-IsTombstone group [] = (tt, refl)
  closed_rows-IsTombstone group (t ∷ ts) =
      let (h, e) = closed_rows-IsTombstone group ts in
      (((refl, refl, refl), h), ap (λ l. t.asset_id ∷ l) e)

  range_closed-IsTombstone :
      (group : Str) (pool : AmmPoolState) (ts : List AmmTokenReserve)
      → p.liquidity_raw ≡ lit "0"
      → p.had_shares ≡ true
      → let rows = append_range_components x group p pool input ts in
        All IsTombstone rows × (map (λ r. r.asset_id) rows ≡ map (λ t. t.asset_id) (first_two ts))
  unfolding append_range_components is_closed_range range_closed component insert eq_str
  range_closed-IsTombstone group pool [] l h = (tt, refl)
  range_closed-IsTombstone group pool (t ∷ []) l h = (tt, refl)
  range_closed-IsTombstone group pool (t ∷ u ∷ ts) l h =
      let shut : is_closed_range x group p pool input ≡ true = rw (l, h) refl in
      simp shut ((((refl, refl, refl), ((refl, refl, refl), tt)), refl))

-- A closed position that is known to have held shares gives a tombstone for each token for which
-- it could have had a principal, in the pool's order, and no other row of a principal.
pub closed_position-IsTombstone :
    (x : Xdr) (a : Adapter) (input : TransformInput) (p : AmmPositionState) (pool : AmmPoolState)
    → p.had_shares ≡ true
    → let rows = principal_rows x a input (closed_position p) pool in
      All IsTombstone rows.components
      × (map (λ r. r.asset_id) rows.components ≡ map (λ t. t.asset_id) (principal_tokens pool))
      × (rows.quarantine ≡ [])
unfolding principal_rows closed_position eq_str group_id closed_rows component
closed_position-IsTombstone x a input p pool h =
    let q = closed_position p in
    elim (Bool-cases (eq_str pool.pool_type (lit "concentrated"))) [
      | inl e ↦
          let (g, f) =
            range_closed-IsTombstone x a input q (group_id x a q) pool pool.tokens refl h in
          simp e (g, f, refl)
      | inr e ↦
          let (g, f) = closed_rows-IsTombstone x a input q (group_id x a q) pool.tokens in
          simp (e, h) (g, f, refl)
    ]

-- A row is a fee, or a tombstone among the later rows has its id.
abbrev pub IsCovered : List AmmPositionComponent → AmmPositionComponent → Type 0
IsCovered later r =
    (r.component_kind ≡ lit "unclaimed_fee") ⊎ Any (λ s. (s.id ≡ r.id) × IsTombstone s) later

module _ (x : Xdr) (a : Adapter) (input later : TransformInput) (p q : AmmPositionState) where
  lp_rows-IsCovered :
      (group : Str) (pool : AmmPoolState) (ts : List AmmTokenReserve)
      → All
          (IsCovered (closed_rows x a later group q ts))
          (lp_rows x a input group p pool ts).components
  unfolding lp_rows closed_rows component insert eq_str
  lp_rows-IsCovered group pool [] = tt
  lp_rows-IsCovered group pool (t ∷ ts) =
      let rows = closed_rows x a later group q ts in
      let stone =
        component x group q a.cfg.protocol t.asset_id (lit "lp_principal") (lit "0") (lit "0") none
          none later true in
      let rest : All (IsCovered (stone ∷ rows)) (lp_rows x a input group p pool ts).components =
        All-map (IsCovered rows) (IsCovered (stone ∷ rows))
          (λ r c. elim c [ inl e ↦ inl e | inr e ↦ inr (inr e) ]) _
          (lp_rows-IsCovered group pool ts) in
      elim (Option-cases (pro_rata p.shares_raw t.reserve_raw pool.total_shares_raw)) [
        | inl e ↦ rw (e, lp_rows) rest
        | inr (amount, e) ↦ rw (e, lp_rows) (inr (inl (refl, (refl, refl, refl))), rest)
      ]

  range_leg-IsCovered :
      (group : Str) (pool : AmmPoolState) (stones : List AmmPositionComponent) (t : AmmTokenReserve)
      (kind amount shares : Str)
      → IsCovered stones (range_row x group p pool input t kind amount shares false)
      → All (IsCovered stones) (range_leg x group p pool input t kind amount shares)
  range_leg-IsCovered group pool stones t kind amount shares h =
      elim (Bool-cases (is_nonzero amount)) [ inl e ↦ rw e (h, tt) | inr e ↦ rw e tt ]

  range_open-IsCovered :
      (group : Str) (pool : AmmPoolState) (t u : AmmTokenReserve) (amount0 amount1 : Str)
      → All
          (IsCovered (range_closed x group q pool later t u))
          (range_open x group p pool input t u amount0 amount1)
  unfolding range_open range_closed component insert eq_str
  range_open-IsCovered group pool t u amount0 amount1 =
      let stones = range_closed x group q pool later t u in
      let C = IsCovered stones in
      let leg = range_leg-IsCovered group pool stones in
      All-append C _ _
        (leg t (lit "range_principal") amount0 p.liquidity_raw
          (inr (inl (refl, (refl, refl, refl)))))
        (All-append C _ _
          (leg u (lit "range_principal") amount1 p.liquidity_raw
            (inr (inr (inl (refl, (refl, refl, refl))))))
          (All-append C _ _ (leg t (lit "unclaimed_fee") p.pending_fee0_raw [] (inl refl))
            (leg u (lit "unclaimed_fee") p.pending_fee1_raw [] (inl refl))))

  range_closed-IsCovered :
      (group : Str) (pool : AmmPoolState) (t u : AmmTokenReserve)
      → All
          (IsCovered (range_closed x group q pool later t u))
          (range_closed x group p pool input t u)
  unfolding range_closed component insert eq_str
  range_closed-IsCovered group pool t u =
      (inr (inl (refl, (refl, refl, refl))), (inr (inr (inl (refl, (refl, refl, refl)))), tt))

  closed_rows-IsCovered :
      (group : Str) (ts : List AmmTokenReserve)
      → All (IsCovered (closed_rows x a later group q ts)) (closed_rows x a input group p ts)
  unfolding closed_rows component insert eq_str
  closed_rows-IsCovered group [] = tt
  closed_rows-IsCovered group (t ∷ ts) = (
    inr (inl (refl, (refl, refl, refl))),
    All-map (IsCovered (closed_rows x a later group q ts)) _
        (λ r c. elim c [ inl e ↦ inl e | inr e ↦ inr (inr e) ]) _ (closed_rows-IsCovered group ts),
  )

  range-IsCovered :
      (group : Str) (pool : AmmPoolState) (ts : List AmmTokenReserve)
      → is_closed_range x group q pool later ≡ true
      → All
          (IsCovered (append_range_components x group q pool later ts))
          (append_range_components x group p pool input ts)
  unfolding append_range_components
  range-IsCovered group pool [] shut = tt
  range-IsCovered group pool (t ∷ []) shut = tt
  range-IsCovered group pool (t ∷ u ∷ ts) shut =
      elim (Bool-cases (is_closed_range x group p pool input)) [
        | inl e ↦ simp (shut, e) (range_closed-IsCovered group pool t u)
        | inr e ↦
            simp (shut, e)
              (range_open-IsCovered group pool t u (principals p pool).0 (principals p pool).1)
      ]

  closed_lp-IsCovered :
      (group : Str) (pool : AmmPoolState) (closed : List AmmPositionComponent)
      → closed ≡ closed_rows x a later group q pool.tokens
      → All
          (IsCovered closed)
          (if is_nonzero p.shares_raw
            then lp_rows x a input group p pool pool.tokens
            else if eq_str p.shares_raw (lit "0") && p.had_shares
            then record no_rows { components = closed_rows x a input group p pool.tokens }
            else no_rows).components
  closed_lp-IsCovered group pool closed h = elim (Bool-cases (is_nonzero p.shares_raw)) [
    | inl e ↦ simp (h, e) (lp_rows-IsCovered group pool pool.tokens)
    | inr e ↦ elim (Bool-cases (eq_str p.shares_raw (lit "0") && p.had_shares)) [
      | inl f ↦ simp (h, e, f) (closed_rows-IsCovered group pool.tokens)
      | inr f ↦ simp (e, f) tt
    ]
  ]

-- Once a position has held shares, its closing supersedes what it had: every component that it
-- gave before, but for a pending fee, has a tombstone of the same id among the components that it
-- gives when it is closed, by the same pool.
pub closed_position-IsCovered :
    (x : Xdr) (a : Adapter) (input later : TransformInput) (p : AmmPositionState)
    (pool : AmmPoolState)
    → p.had_shares ≡ true
    → let closed = (principal_rows x a later (closed_position p) pool).components in
      All (IsCovered closed) (principal_rows x a input p pool).components
unfolding principal_rows closed_position group_id eq_str
closed_position-IsCovered x a input later p pool held =
    let q = closed_position p in
    let group = group_id x a p in
    elim (Bool-cases (eq_str pool.pool_type (lit "concentrated"))) [
      | inl e ↦ simp e (
          range-IsCovered x a input later p q group pool pool.tokens
            (unfold is_closed_range in simp held refl))
      | inr e ↦ simp e (closed_lp-IsCovered x a input later p q group pool _ (simp held refl))
    ]
