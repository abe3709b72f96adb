-- ===== src/Aquarius/State/Removals.antt =====
-- aquarius/state.go, `applyEntryRemoval`: what the removal of an entry changes in the work.
use lidapters.Common.{
  ◌≡◌, refl, ◌∙◌, true, false, Option, none, some, [], arith, Option-cases, inl, inr, if◌then◌else◌,
}
use lidapters.Common.Int.{ℤ}
use lidapters.Common.Str.{Str, lit, eq_str, is_empty, eq_str_iff, eq_str_refl}
use lidapters.Common.Dict.{Dict, lookup, lookup-insert, mem, lookup-delete, lookup-delete_where}
use lidapters.Xdr.{Xdr}
use lidapters.Bindings.State.{AmmPositionState, ContractDataChange}
use lidapters.Aquarius.Config.{owns_contract}
use lidapters.Aquarius.Values.{position_key, decode_val, addr_in_key}
use lidapters.Aquarius.Work.{Work, new_position}
use lidapters.Aquarius.Removal.{
  is_gone, closed_position, claimed_position, update_position, position_names, remove_pool, pool_of,
  entry_name, probe, keyed_removal, apply_entry_removal,
}
use lidapters.Aquarius.State.{reduce}
use lidapters.Aquarius.State.Keeps.{IsIndexed, TearsDown}

-- What an update of one key of a map does to the value at another.
abbrev pub at_key :
    Str
    → (AmmPositionState → AmmPositionState)
    → Str
    → Option AmmPositionState
    → Option AmmPositionState
at_key k f j none = none
at_key k f j (some p) = some (if eq_str k j then f p else p)

lookup-update_position :
    (k j : Str) (f : AmmPositionState → AmmPositionState) (m : Dict AmmPositionState)
    → lookup j (update_position k f m) ≡ at_key k f j (lookup j m)
unfolding update_position
lookup-update_position k j f m = elim (Option-cases (lookup k m)) [
  | inl e ↦ rw (e, update_position) (absent e)
  | inr (c, e) ↦ rw (e, update_position) (lookup-insert k j (f c) m ∙ present c e)
]
  where
    absent : lookup k m ≡ none → lookup j m ≡ at_key k f j (lookup j m)
    absent e = elim (Option-cases (lookup j m)) [
      | inl g ↦ ground arith
      | inr (p, g) ↦ ground (arith, eq_str_iff k j)
    ]

    present :
        (c : AmmPositionState)
        → lookup k m ≡ some c
        → (if eq_str k j then some (f c) else lookup j m) ≡ at_key k f j (lookup j m)
    present c e = elim (Option-cases (lookup j m)) [
      | inl g ↦ ground (arith, eq_str_iff k j)
      | inr (p, g) ↦ ground (arith, eq_str_iff k j)
    ]

-- The position `q` is `p` with nothing left in it but the claim of a reward.
pub record IsClosed (p q : AmmPositionState) : Type 0 where
  pub no_shares : q.shares_raw ≡ lit "0"
  pub no_liquidity : q.liquidity_raw ≡ lit "0"
  pub no_principal : (q.principal0_raw ≡ []) × (q.principal1_raw ≡ [])
  pub no_fees : (q.pending_fee0_raw ≡ []) × (q.pending_fee1_raw ≡ [])
  pub same_address : q.address ≡ p.address
  pub same_pool : q.pool_contract_id ≡ p.pool_contract_id
  pub same_ticks : (q.tick_lower ≡ p.tick_lower) × (q.tick_upper ≡ p.tick_upper)
  pub same_prices :
      (q.sqrt_price_lower_x96 ≡ p.sqrt_price_lower_x96)
      × (q.sqrt_price_upper_x96 ≡ p.sqrt_price_upper_x96)
  pub same_history : q.had_shares ≡ p.had_shares
  pub same_reward :
      (q.pending_reward_raw ≡ p.pending_reward_raw)
      × (q.reward_pool_accumulated_raw ≡ p.reward_pool_accumulated_raw)
      × (q.working_balance_raw ≡ p.working_balance_raw)
      × (q.reward_token_id ≡ p.reward_token_id)
      × (q.weighted_liquidity_raw ≡ p.weighted_liquidity_raw)
      × (q.reward_checkpoint_eligible ≡ p.reward_checkpoint_eligible)

-- The position is closed if it was there, and is not there if it was not.
abbrev pub IsClosing : Option AmmPositionState → Option AmmPositionState → Type 0
IsClosing none after = after ≡ none
IsClosing (some p) after = (q : AmmPositionState) × (after ≡ some q) × IsClosed p q

closing :
    (k : Str) (found : Option AmmPositionState) → IsClosing found (at_key k closed_position k found)
unfolding closed_position
closing k none = refl
closing k (some p) = (
  closed_position p,
  rw (eq_str_refl k) refl,
  record {
    no_shares = refl;
    no_liquidity = refl;
    no_principal = (refl, refl);
    no_fees = (refl, refl);
    same_address = refl;
    same_pool = refl;
    same_ticks = (refl, refl);
    same_prices = (refl, refl);
    same_history = refl;
    same_reward = (refl, refl, refl, refl, refl, refl);
  },
)

apart :
    (k j : Str)
    → eq_str k j ≡ false
    → (f : AmmPositionState → AmmPositionState) (m : Dict AmmPositionState)
    → at_key k f j (lookup j m) ≡ lookup j m
apart k j other f m = elim (Option-cases (lookup j m)) [
  | inl e ↦ rw e refl
  | inr (p, e) ↦ rw (e, other) refl
]

module _ (x : Xdr) (seq : ℤ) (c : ContractDataChange) (w : Work) (key : x.ScVal)
    (owned : owns_contract w.adapter c.contract_id ≡ true) (gone : is_gone seq c ≡ true)
    (keyed : decode_val x c.key_xdr ≡ some key) where
  abbrev owner_pool : Str
  owner_pool = pool_of w.adapter c.contract_id

  -- The removal of a balance or of a position entry that names its owner leaves the pools as they
  -- are, and every position but that of the owner, ticks included, in the pool of the contract. If
  -- there is such a position it stays, with shares and liquidity of "0", no principal and no pending
  -- fees, and everything else as it was; if there is none, none is made.
  pub reduce-closed_position :
      mem (entry_name x key) position_names ≡ true
      → is_empty (addr_in_key x key) ≡ false
      → let next = reduce x seq w c in
        let k = position_key (probe x owner_pool key) in
        (next.pools ≡ w.pools)
        × ((j : Str) → eq_str k j ≡ false → lookup j next.positions ≡ lookup j w.positions)
        × IsClosing (lookup k w.positions) (lookup k next.positions)
  unfolding reduce apply_entry_removal keyed_removal
  reduce-closed_position named given =
      rw (owned, gone, keyed, named, given, apply_entry_removal)
        (
          refl,
          (λ j other.
              lookup-update_position _ j closed_position w.positions
              ∙ apart _ j other closed_position w.positions),
          rw
              (lookup-update_position (position_key (probe x owner_pool key)) _ closed_position
                w.positions)
              (closing (position_key (probe x owner_pool key))
                (lookup (position_key (probe x owner_pool key)) w.positions)),
        )

  -- The removal of a reward checkpoint that names its owner changes nothing but the claim of that
  -- owner's position without ticks: if there is one, the pending reward becomes "0" and its
  -- checkpoint is cleared.
  pub reduce-claimed_position :
      entry_name x key ≡ lit "userrewarddata"
      → is_empty (addr_in_key x key) ≡ false
      → let next = reduce x seq w c in
        let k = position_key (new_position owner_pool (addr_in_key x key)) in
        (next.pools ≡ w.pools)
        × ((j : Str) → lookup j next.positions ≡ at_key k claimed_position j (lookup j w.positions))
  unfolding reduce apply_entry_removal keyed_removal mem eq_str
  reduce-claimed_position named given =
      rw (owned, gone, keyed, named, given, apply_entry_removal)
        (refl, λ j. lookup-update_position _ j claimed_position w.positions)

-- The removal of any other entry of an owned contract, be it the instance, the reserves or the total
-- shares, or of one whose key does not decode, takes its pool out of the map together with every
-- position of that pool, and leaves all the others. Both maps hold their values under their keys,
-- once.
pub reduce-remove_pool :
    (x : Xdr) (seq : ℤ) (c : ContractDataChange) (w : Work)
    → IsIndexed w
    → owns_contract w.adapter c.contract_id ≡ true
    → TearsDown x seq c
    → let next = reduce x seq w c in
      ((id : Str)
        → lookup id next.pools ≡ (if eq_str c.contract_id id then none else lookup id w.pools))
      × ((k : Str)
          → lookup k next.positions ≡ elim (lookup k w.positions) [
            | none ↦ none
            | some p ↦ if eq_str p.pool_contract_id c.contract_id then none else some p
          ])
unfolding reduce apply_entry_removal keyed_removal remove_pool
reduce-remove_pool x seq c w i owned (gone, why) = elim why [
  | inl e ↦ rw (owned, gone, e, apply_entry_removal) answers
  | inr (key, e, f, g, h) ↦ rw (owned, gone, e, f, g, h, apply_entry_removal) answers
]
  where
    answers :
        ((id : Str)
          → lookup id (remove_pool c.contract_id w).pools
            ≡ (if eq_str c.contract_id id then none else lookup id w.pools))
        × ((k : Str)
            → lookup k (remove_pool c.contract_id w).positions ≡ elim (lookup k w.positions) [
              | none ↦ none
              | some p ↦ if eq_str p.pool_contract_id c.contract_id then none else some p
            ])
    answers = (
      λ id. lookup-delete c.contract_id id w.pools,
      λ k.
          lookup-delete_where position_key (λ p. eq_str p.pool_contract_id c.contract_id) k
            w.positions i.positions,
    )
