-- ===== src/Blend/Incremental/Assembly.antt =====
-- blend/state_incremental.go and blend/state.go: the slices of pending entries and of positions, put
-- together from the caches and from scratch.
use lidapters.Common.{◌≡◌, true, List, [], ◌∷◌, map, arith, All, All-append}
use lidapters.Common.Str.{eq_str_iff, lt_str_irrefl}
use lidapters.Common.Lex.{lex-IsOrder, by_text-IsOrder}
use lidapters.Common.Sort.{IsOrder, IsStrict, All-map}
use lidapters.Common.Strict.{gather, IsStrict-append, All-both, All-map2}
use lidapters.Blend.Types.{UserReservePosition}
use lidapters.Blend.Order.{less_position, less_user, less_pending}
use lidapters.Blend.Incremental.{UserEntry, user_entry_less}

pub less_position-IsOrder : IsOrder less_position
less_position-IsOrder = lex-IsOrder (λ u. u.asset_id) (by_text-IsOrder (λ u. u.position_type))

pub less_user-IsOrder : IsOrder less_user
less_user-IsOrder =
    lex-IsOrder (λ u. u.address) (lex-IsOrder (λ u. u.pool_contract_id) less_position-IsOrder)

pub less_pending-IsOrder : IsOrder less_pending
less_pending-IsOrder = lex-IsOrder (λ p. p.address) (by_text-IsOrder (λ p. p.pool_contract_id))

-- A position of the user and pool of an entry.
abbrev pub Of : UserEntry → UserReservePosition → Type 0
Of e u = (u.address ≡ e.address) × (u.pool_contract_id ≡ e.pool)

-- What an entry has that is made from a pending one.
pub record IsGood (e : UserEntry) : Type 0 where
  pub out_address : e.out.address ≡ e.address
  pub out_pool : e.out.pool_contract_id ≡ e.pool
  pub owned : All (Of e) e.block
  pub sorted : IsStrict less_position e.block

less_user_within :
    (e : UserEntry) (u v : UserReservePosition)
    → Of e u
    → Of e v
    → less_position u v ≡ true
    → less_user u v ≡ true
less_user_within e u v h g l = ground (
  arith,
  eq_str_iff u.address v.address,
  eq_str_iff u.pool_contract_id v.pool_contract_id,
  h,
  g,
  l,
)

less_user_across :
    (d e : UserEntry) (u v : UserReservePosition)
    → Of d u
    → Of e v
    → user_entry_less d e ≡ true
    → less_user u v ≡ true
less_user_across d e u v h g l =
    rw (h.0, h.1, g.0, g.1) (ground (arith, l, eq_str_iff d.pool e.pool, lt_str_irrefl d.pool))

All-gather :
    {A B : Type 0} (P : B → Type 0) (f : A → List B) (l : List A)
    → All (λ a. All P (f a)) l
    → All P (gather f l)
unfolding gather
All-gather P f [] h = tt
All-gather P f (a ∷ l) h = All-append P (f a) (gather f l) h.0 (All-gather P f l h.1)

block-IsStrict :
    (e : UserEntry) (l : List UserReservePosition)
    → All (Of e) l
    → IsStrict less_position l
    → IsStrict less_user l
block-IsStrict e [] o h = tt
block-IsStrict e (u ∷ l) o h = (
  All-map2 (Of e) (λ v. less_position u v ≡ true) (λ v. less_user u v ≡ true)
      (λ v g k. less_user_within e u v o.0 g k) l o.1 h.0,
  block-IsStrict e l o.1 h.1,
)

-- The blocks of sorted entries, one after the other, are sorted by user, pool, asset and type.
pub blocks-IsStrict :
    (keys : List UserEntry)
    → All IsGood keys
    → IsStrict user_entry_less keys
    → IsStrict less_user (gather (λ e. e.block) keys)
unfolding gather
blocks-IsStrict [] g h = tt
blocks-IsStrict (e ∷ keys) g h =
    IsStrict-append less_user e.block (gather (λ d. d.block) keys)
      (block-IsStrict e e.block g.0.owned g.0.sorted) (blocks-IsStrict keys g.1 h.1)
      (All-both (Of e) (λ v. (u : UserReservePosition) → Of e u → less_user u v ≡ true)
        (λ u v. less_user u v ≡ true) (λ u v o f. f u o) e.block (gather (λ d. d.block) keys)
        g.0.owned
        (All-gather (λ v. (u : UserReservePosition) → Of e u → less_user u v ≡ true) (λ d. d.block)
          keys
          (All-map2 IsGood (λ d. user_entry_less e d ≡ true)
            (λ d. All (λ v. (u : UserReservePosition) → Of e u → less_user u v ≡ true) d.block)
            (λ d good l.
              All-map (Of d) (λ v. (u : UserReservePosition) → Of e u → less_user u v ≡ true)
                (λ v p u o. less_user_across e d u v o p l) d.block good.owned)
            keys g.1 h.0)))

pub outs-IsStrict :
    (keys : List UserEntry)
    → All IsGood keys
    → IsStrict user_entry_less keys
    → IsStrict less_pending (map (λ e. e.out) keys)
outs-IsStrict [] g h = tt
outs-IsStrict (e ∷ keys) g h = (outs_less e keys g.0 g.1 h.0, outs-IsStrict keys g.1 h.1)
  where
    outs_less :
        (e : UserEntry) (l : List UserEntry)
        → IsGood e
        → All IsGood l
        → All (λ d. user_entry_less e d ≡ true) l
        → All (λ p. less_pending e.out p ≡ true) (map (λ d. d.out) l)
    outs_less e [] k g h = tt
    outs_less e (d ∷ l) k g h =
        (rw (k.out_address, k.out_pool, g.0.out_address, g.0.out_pool) h.0, outs_less e l k g.1 h.1)
