-- ===== src/Aquarius/State/Lifecycle.antt =====
-- aquarius/state.go, `DecodeState`: the maps over a call, and the life of a position.
use lidapters.Common.{◌≡◌, ap, ◌∙◌, true, Option, some, List, Bool-cases, inl, inr, All, [], ◌∷◌}
use lidapters.Common.Int.{ℤ}
use lidapters.Common.Str.{Str, eq_str, eq_str_iff}
use lidapters.Common.Sort.{IsStrict}
use lidapters.Common.Dict.{
  index_by, lookup, lookup-insert, find_by, find_by-collect, lookup-index_by, insert-IsKeyed,
  delete-IsKeyed, delete_where-IsKeyed, index_onto-IsKeyed, collect-IsStrict, less_by,
}
use lidapters.Xdr.{Xdr}
use lidapters.Bindings.State.{
  AmmPoolState, AmmPositionState, AmmAssetMetadata, LedgerState, ContractDataChange,
}
use lidapters.Aquarius.Config.{Adapter}
use lidapters.Aquarius.Values.{position_key, clone_state}
use lidapters.Aquarius.Work.{Work}
use lidapters.Aquarius.Removal.{remove_pool}
use lidapters.Aquarius.State.{start_work, final_work, decode_state}
use lidapters.Aquarius.State.Identity.{held}
use lidapters.Aquarius.State.Keeps.{
  pool_key, IsIndexed, put, put_pool, reframe, TearsDown, apply_pool_seeds-Keeps, reduce_all-Keeps,
}

put-IsIndexed :
    (k : Str) (p : AmmPositionState) (w : Work)
    → position_key p ≡ k
    → IsIndexed w
    → IsIndexed (put k p w)
put-IsIndexed k p w e h = record {
  pools = h.pools;
  positions = insert-IsKeyed position_key k p w.positions e h.positions;
}

put_pool-IsIndexed :
    (id : Str) (p : AmmPoolState) (w : Work)
    → p.contract_id ≡ id
    → IsIndexed w
    → IsIndexed (put_pool id p w)
put_pool-IsIndexed id p w e h = record {
  pools = insert-IsKeyed pool_key id p w.pools e h.pools;
  positions = h.positions;
}

remove_pool-IsIndexed : (id : Str) (w : Work) → IsIndexed w → IsIndexed (remove_pool id w)
unfolding remove_pool
remove_pool-IsIndexed id w h = record {
  pools = delete-IsKeyed pool_key id w.pools h.pools;
  positions =
      delete_where-IsKeyed position_key (λ p. eq_str p.pool_contract_id id) w.positions h.positions;
}

abbrev loaded : Adapter → LedgerState → Work
loaded a s = record {
  adapter = record a { diagnostics = [] };
  pools = index_by pool_key s.amm_pools;
  positions = index_by position_key s.amm_positions;
  amm_assets = s.amm_assets;
}

loaded-IsIndexed : (a : Adapter) (s : LedgerState) → IsIndexed (loaded a s)
loaded-IsIndexed a s = record {
  pools = index_onto-IsKeyed pool_key [] s.amm_pools tt;
  positions = index_onto-IsKeyed position_key [] s.amm_positions tt;
}

anything :
    (P : ContractDataChange → Type 0) (cs : List ContractDataChange)
    → All {0, 0} (λ c. P c → Unit {0}) cs
anything P [] = tt
anything P (c ∷ cs) = (λ t. tt, anything P cs)

module _ (x : Xdr) (P : Work → Type 0) (Allowed : Str → Type 0)
    (indexed : (w : Work) → P w → IsIndexed w)
    (putting : (k : Str) (p : AmmPositionState) (w : Work)
      → position_key p ≡ k
      → (held (lookup k w.positions) ≡ true → held (some p) ≡ true)
      → P w
      → P (put k p w))
    (pooling : (id : Str) (p : AmmPoolState) (w : Work)
      → p.contract_id ≡ id
      → P w
      → P (put_pool id p w))
    (framing : (a : Adapter) (assets : List AmmAssetMetadata) (w : Work)
      → P w
      → P (reframe a assets w))
    (removing : (id : Str) (w : Work) → Allowed id → P w → P (remove_pool id w)) (a : Adapter)
    (prior : Option LedgerState) (changes : List ContractDataChange) (seq : ℤ) where
  final_work-Keeps :
      All (λ c. TearsDown x seq c → Allowed c.contract_id) changes
      → P (loaded a (clone_state prior))
      → P (final_work x a prior changes seq)
  final_work-Keeps ok h =
      reduce_all-Keeps x P Allowed indexed putting pooling framing removing seq changes
        (start_work a (clone_state prior)) ok
        (apply_pool_seeds-Keeps x P Allowed indexed putting pooling framing removing
          a.cfg.pool_seeds (loaded a (clone_state prior)) h)

pub final_work-IsIndexed :
    (x : Xdr) (a : Adapter) (prior : Option LedgerState) (changes : List ContractDataChange)
    (seq : ℤ)
    → IsIndexed (final_work x a prior changes seq)
final_work-IsIndexed x a prior changes seq =
    final_work-Keeps x IsIndexed (λ id. Unit) (λ w h. h) (λ k p w e t h. put-IsIndexed k p w e h)
      put_pool-IsIndexed (λ b m w h. record { pools = h.pools; positions = h.positions })
      (λ id w t h. remove_pool-IsIndexed id w h) a prior changes seq
      (anything (TearsDown x seq) changes) (loaded-IsIndexed a (clone_state prior))

-- Whatever the prior state, the seeds and the changes are, the next state lists every pool once, in
-- the order of the contract ids, and every position once, in the order of their keys.
pub decode_pools-IsStrict :
    (x : Xdr) (a : Adapter) (prior : Option LedgerState) (changes : List ContractDataChange)
    (seq : ℤ)
    → let (a', next) = decode_state x a prior changes seq in
      IsStrict (less_by pool_key) next.amm_pools
      × IsStrict (less_by position_key) next.amm_positions
unfolding decode_state
decode_pools-IsStrict x a prior changes seq =
    let h = final_work-IsIndexed x a prior changes seq in
    (collect-IsStrict pool_key _ h.pools, collect-IsStrict position_key _ h.positions)

-- The position of a state at a key, and the pool of a state at a contract id.
abbrev pub position_at : LedgerState → Str → Option AmmPositionState
position_at s k = find_by position_key k s.amm_positions

abbrev pub pool_at : LedgerState → Str → Option AmmPoolState
pool_at s id = find_by pool_key id s.amm_pools

abbrev pub next_state :
    Xdr → Adapter → Option LedgerState → List ContractDataChange → ℤ → LedgerState
next_state x a prior changes seq = (decode_state x a prior changes seq).1

pub position_at-next :
    (x : Xdr) (a : Adapter) (prior : Option LedgerState) (changes : List ContractDataChange)
    (seq : ℤ) (k : Str)
    → position_at (next_state x a prior changes seq) k
      ≡ lookup k (final_work x a prior changes seq).positions
unfolding decode_state
position_at-next x a prior changes seq k =
    find_by-collect position_key k _ (final_work-IsIndexed x a prior changes seq).positions

pub pool_at-next :
    (x : Xdr) (a : Adapter) (prior : Option LedgerState) (changes : List ContractDataChange)
    (seq : ℤ) (id : Str)
    → pool_at (next_state x a prior changes seq) id
      ≡ lookup id (final_work x a prior changes seq).pools
unfolding decode_state
pool_at-next x a prior changes seq id =
    find_by-collect pool_key id _ (final_work-IsIndexed x a prior changes seq).pools

module _ (k : Str) where
  abbrev IsHeld : Work → Type 0
  IsHeld w = IsIndexed w × (held (lookup k w.positions) ≡ true)

  put-IsHeld :
      (j : Str) (p : AmmPositionState) (w : Work)
      → position_key p ≡ j
      → (held (lookup j w.positions) ≡ true → held (some p) ≡ true)
      → IsHeld w
      → IsHeld (put j p w)
  put-IsHeld j p w e f (i, h) = (
    put-IsIndexed j p w e i,
    ap held (lookup-insert j k p w.positions) ∙ elim (Bool-cases (eq_str j k)) [
      | inl g ↦ rw g (f (rw ((eq_str_iff j k).0 g) h))
      | inr g ↦ rw g h
    ],
  )

-- If no change is a removal by which a pool is torn down, a position with an owner that is known to
-- have held shares stays in the state and stays known to have held them, through every write and
-- every removal of a user's entry.
pub decode_pools_keep_had_shares :
    (x : Xdr) (a : Adapter) (prior : Option LedgerState) (changes : List ContractDataChange)
    (seq : ℤ) (k : Str)
    → All (λ c. ¬ TearsDown x seq c) changes
    → held (position_at (clone_state prior) k) ≡ true
    → held (position_at (next_state x a prior changes seq) k) ≡ true
decode_pools_keep_had_shares x a prior changes seq k calm h =
    ap held (position_at-next x a prior changes seq k)
    ∙ (final_work-Keeps x (IsHeld k) (λ id. ⊥) (λ w p. p.0) (put-IsHeld k)
        (λ id p w e i. (put_pool-IsIndexed id p w e i.0, i.1))
        (λ b m w i. (record { pools = i.0.pools; positions = i.0.positions }, i.1))
        (λ id w bad i. elim bad [ ]) a prior changes seq calm
        (
          loaded-IsIndexed a (clone_state prior),
          ap held (lookup-index_by position_key k (clone_state prior).amm_positions) ∙ h,
        )).1
