-- ===== src/Soroswap/Transform/Components.antt =====
-- soroswap/transform.go, `Transform`: the components of an LP position.
use lidapters.Common.{
  ℕ, ◌+◌, ◌*◌, ◌/◌, ◌<◌, ◌≡◌, refl, ap, true, false, ◌&&◌, not, none, some, List, [], ◌∷◌, arith,
  length, if◌then◌else◌, All, Pairwise,
}
use lidapters.Common.Str.{Str, lit, eq_str, eq_str_iff, is_empty}
use lidapters.Common.Decimal.{dec, dec_not_empty, dec_not_zero}
use lidapters.Common.Dict.{Dict, lookup, insert}
use lidapters.Xdr.{Xdr}
use lidapters.Bindings.State.{AmmPoolState, AmmPositionState, AmmTokenReserve}
use lidapters.Bindings.Rows.{TransformInput, AmmPositionComponent}
use lidapters.Soroswap.Math.{pro_rata}
use lidapters.Soroswap.Math.Shares.{pro_rata-dec}
use lidapters.Soroswap.Config.{Adapter}
use lidapters.Soroswap.Transform.{
  stable_id, component, live_components, closed_components, position_rows,
}

module _ (x : Xdr) (a : Adapter) (input : TransformInput) where
  live_components-length :
      (group : Str) (pool : AmmPoolState) (p : AmmPositionState) (ts : List AmmTokenReserve)
      → let r = live_components x a input group pool p ts in length r.0 + length r.1 ≡ length ts
  unfolding live_components
  live_components-length group pool p [] = omega arith
  live_components-length group pool p (t ∷ ts) =
      ground (arith, live_components-length group pool p ts)

  closed_components-length :
      (group : Str) (p : AmmPositionState) (ts : List AmmTokenReserve)
      → length (closed_components x a input group p ts) ≡ length ts
  unfolding closed_components
  closed_components-length group p [] = refl
  closed_components-length group p (t ∷ ts) = ap ℕ.suc (closed_components-length group p ts)

  closed_zero :
      (group : Str) (p : AmmPositionState) (ts : List AmmTokenReserve)
      → All
          (λ (c : AmmPositionComponent).
            (c.amount_raw ≡ lit "0")
            × (c.share_amount_raw ≡ lit "0")
            × (lookup (lit "closed") c.metadata ≡ some (lit "true")))
          (closed_components x a input group p ts)
  unfolding closed_components component lookup insert eq_str
  closed_zero group p [] = tt
  closed_zero group p (t ∷ ts) = ((refl, refl, refl), closed_zero group p ts)

  -- A position of a known pool gives one row, a component or a quarantine, for each token of the
  -- pool; none if its shares are unknown, or are zero and it never held any.
  pub position_rows-length :
      (pools : Dict AmmPoolState) (p : AmmPositionState) {pool : AmmPoolState}
      → lookup p.pool_contract_id pools ≡ some pool
      → let r = position_rows x a input pools p in
        length r.0 + length r.1 ≡ (
          if is_empty p.shares_raw
          then 0
          else if eq_str p.shares_raw (lit "0") && not p.had_shares
          then 0
          else length pool.tokens)
  unfolding position_rows
  position_rows-length pools p {pool} e =
      let group = stable_id x (a.cfg.protocol ∷ p.address ∷ p.pool_contract_id ∷ []) in
      ground (
        arith,
        eq_str_iff p.shares_raw (lit "0"),
        live_components-length group pool p pool.tokens,
        closed_components-length group p pool.tokens,
      )

  -- The tokens of a pool hold the reserves `rs`, as decimal text.
  abbrev pub HoldReserves : List AmmTokenReserve → List ℕ → Type 0
  HoldReserves [] [] = Unit
  HoldReserves (t ∷ ts) (r ∷ rs) = (t.reserve_raw ≡ dec r) × HoldReserves ts rs
  HoldReserves _ _ = ⊥

  -- The component for a token of the position of `s` of the `t` shares of its pool: it names the
  -- token, the owner and the pool, and has the position's part of the reserve, rounded down.
  pub record IsPart (p : AmmPositionState) (s t : ℕ) (k : AmmTokenReserve)
      (c : AmmPositionComponent) : Type 0 where
    pub reserve : ℕ
    pub of_reserve : k.reserve_raw ≡ dec reserve
    pub amount : c.amount_raw ≡ dec (s * reserve / t)
    pub asset : c.asset_id ≡ k.asset_id
    pub owner : c.address ≡ p.address
    pub in_pool : c.pool_contract_id ≡ p.pool_contract_id
    pub of_protocol : c.protocol ≡ a.cfg.protocol
    pub kind : c.component_kind ≡ lit "lp_principal"
    pub shares : c.share_amount_raw ≡ dec s
    pub group :
        c.position_group_id ≡ stable_id x (a.cfg.protocol ∷ p.address ∷ p.pool_contract_id ∷ [])
    pub id : c.id ≡ stable_id x (c.position_group_id ∷ lit "lp_principal" ∷ k.asset_id ∷ [])
    pub no_range : (c.tick_lower ≡ none) × (c.tick_upper ≡ none)
    pub open_one : lookup (lit "closed") c.metadata ≡ none
    pub time : (c.ledger_seq ≡ input.ledger_seq) × (c.timestamp ≡ input.close_time)

  abbrev group_of : AmmPositionState → Str
  group_of p = stable_id x (a.cfg.protocol ∷ p.address ∷ p.pool_contract_id ∷ [])

  component-IsPart :
      (p : AmmPositionState) (k : AmmTokenReserve) (n s t : ℕ)
      → p.shares_raw ≡ dec s
      → k.reserve_raw ≡ dec n
      → IsPart p s t k
          (component x a (group_of p) p k.asset_id (dec (s * n / t)) p.shares_raw input false)
  unfolding component lookup eq_str
  component-IsPart p k n s t es e = record {
    reserve = n;
    of_reserve = e;
    amount = refl;
    asset = refl;
    owner = refl;
    in_pool = refl;
    of_protocol = refl;
    kind = refl;
    shares = es;
    group = refl;
    id = refl;
    no_range = (refl, refl);
    open_one = refl;
    time = (refl, refl);
  }

  live_parts :
      (pool : AmmPoolState) (p : AmmPositionState) (ts : List AmmTokenReserve) (rs : List ℕ)
      (s t : ℕ)
      → 0 < t
      → p.shares_raw ≡ dec s
      → pool.total_shares_raw ≡ dec t
      → HoldReserves ts rs
      → let r = live_components x a input (group_of p) pool p ts in
        Pairwise (IsPart p s t) ts r.0 × (r.1 ≡ [])
  unfolding live_components
  live_parts pool p [] [] s t pos es et h = (tt, refl)
  live_parts pool p [] (n ∷ rs) s t pos es et h = absurd h
  live_parts pool p (k ∷ ts) [] s t pos es et h = absurd h
  live_parts pool p (k ∷ ts) (n ∷ rs) s t pos es et h =
      let (ih, none_bad) = live_parts pool p ts rs s t pos es et h.1 in
      let e : pro_rata p.shares_raw k.reserve_raw pool.total_shares_raw ≡ some (dec (s * n / t)) =
        rw (es, h.0, et) (ground (arith, pro_rata-dec s n t)) in
      rw (e, live_components) ((component-IsPart p k n s t es h.0, ih), none_bad)

  -- A position that holds `s` of the `t` shares of a known pool, neither zero, gives one component
  -- for each token of the pool, in order, and no quarantine. The component names the token, the
  -- owner and the pool, is an open LP principal of these shares under the ids of the group and the
  -- token, and has the position's part of the token's reserve, rounded down. Shares and reserves
  -- are the texts of numbers.
  pub position_rows_amounts :
      (pools : Dict AmmPoolState) (p : AmmPositionState) {pool : AmmPoolState} (rs : List ℕ)
      (s t : ℕ)
      → lookup p.pool_contract_id pools ≡ some pool
      → 0 < s
      → 0 < t
      → p.shares_raw ≡ dec s
      → pool.total_shares_raw ≡ dec t
      → HoldReserves pool.tokens rs
      → let r = position_rows x a input pools p in
        Pairwise (IsPart p s t) pool.tokens r.0 × (r.1 ≡ [])
  unfolding position_rows
  position_rows_amounts pools p {pool} rs s t e held pos es et h =
      let full : is_empty p.shares_raw ≡ false = rw es (dec_not_empty s) in
      let some_held : eq_str p.shares_raw (lit "0") ≡ false =
        rw es (dec_not_zero s (omega arith)) in
      rw (e, position_rows)
        (rw (full, some_held) (live_parts pool p pool.tokens rs s t pos es et h))

  -- A position of a known pool with zero shares that has held some gives for each token a
  -- component with zero amounts, marked as closed, and no quarantine.
  pub position_rows_closed :
      (pools : Dict AmmPoolState) (p : AmmPositionState) {pool : AmmPoolState}
      → lookup p.pool_contract_id pools ≡ some pool
      → p.shares_raw ≡ lit "0"
      → p.had_shares ≡ true
      → let r = position_rows x a input pools p in
        (length r.0 ≡ length pool.tokens)
        × All
            (λ (c : AmmPositionComponent).
              (c.amount_raw ≡ lit "0")
              × (c.share_amount_raw ≡ lit "0")
              × (lookup (lit "closed") c.metadata ≡ some (lit "true")))
            r.0
        × (r.1 ≡ [])
  unfolding position_rows eq_str component
  position_rows_closed pools p {pool} e zero_shares was =
      let group = stable_id x (a.cfg.protocol ∷ p.address ∷ p.pool_contract_id ∷ []) in
      rw (e, position_rows)
        (rw (zero_shares, was)
          (closed_components-length group p pool.tokens, closed_zero group p pool.tokens, refl))
