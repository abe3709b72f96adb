-- ===== src/Aquarius/State/Identity.antt =====
-- aquarius/state.go: what the passes over a pool leave of its contract id, and what the merges of
-- positions leave of their key and of whether they held shares.
use lidapters.Common.{
  ◌≡◌, refl, ◌∙◌, Bool, true, false, not, ◌&&◌, Option, none, some, List, [], ◌∷◌, arith,
  Bool-cases, Option-cases, inl, inr,
}
use lidapters.Common.Str.{Str, is_empty}
use lidapters.Common.Dict.{Dict}
use lidapters.Xdr.{Xdr, ScInstance}
use lidapters.Bindings.State.{AmmPoolState, AmmPositionState}
use lidapters.Aquarius.Config.{Config, Adapter}
use lidapters.Aquarius.Values.{position_key, decode_pool_instance, decode_slot0}
use lidapters.Aquarius.Instance.{
  Scan, pool_field, scan_entry, scan_storage, settle, with_hash, scan_instance,
}
use lidapters.Aquarius.State.{merge_position, merge_reward, base_pool, gate, infer_type, pool_entry}
use lidapters.Aquarius.State.Keys.{IsFound, retick_key}

module _ (x : Xdr) where
  open x use {ScVal}

  slot0_id : (p : AmmPoolState) (v : ScVal) → (decode_slot0 x p v).contract_id ≡ p.contract_id
  unfolding decode_slot0
  slot0_id p v = ground arith

  pool_instance_id :
      (p : AmmPoolState) (v : ScVal) → (decode_pool_instance x p v).contract_id ≡ p.contract_id
  unfolding decode_pool_instance
  pool_instance_id p v = ground arith

  pool_field_id :
      (name : Str) (v : ScVal) (p : AmmPoolState)
      → (pool_field x name v p).contract_id ≡ p.contract_id
  unfolding pool_field
  pool_field_id name v p = ground (arith, slot0_id p v)

  scan_entry_id :
      (id : Str) (s : Scan x) (e : ScVal × ScVal)
      → (scan_entry x id s e).pool.contract_id ≡ s.pool.contract_id
  unfolding scan_entry
  scan_entry_id id s (key, val) = grind (arith, pool_field_id)

  scan_storage_id :
      (id : Str) (s : Scan x) (es : List (ScVal × ScVal))
      → (scan_storage x id s es).pool.contract_id ≡ s.pool.contract_id
  unfolding scan_storage
  scan_storage_id id s [] = refl
  scan_storage_id id s (e ∷ es) = scan_storage_id id (scan_entry x id s e) es ∙ scan_entry_id id s e

  settle_id : (s : Scan x) → (settle x s).contract_id ≡ s.pool.contract_id
  unfolding settle
  settle_id s = ground arith

  with_hash_id :
      (i : ScInstance ScVal) (p : AmmPoolState) → (with_hash x i p).contract_id ≡ p.contract_id
  unfolding with_hash
  with_hash_id i p = ground arith

  pub scan_instance_id :
      (id : Str) (p : AmmPoolState) (t : Dict Str) (v : ScVal)
      → (scan_instance x id p t v).0.contract_id ≡ p.contract_id
  unfolding scan_instance
  scan_instance_id id p t v = elim (Option-cases (x.get_instance v)) [
    | inl e ↦ rw (e, scan_instance) refl
    | inr (i, e) ↦
        let start : Scan x = record {
          pool = with_hash x i p;
          initial_a = [];
          future_a = [];
          share_tokens = t;
        } in
        elim (Option-cases i.storage) [
          | inl f ↦ rw (e, f, scan_instance) (settle_id start ∙ with_hash_id i p)
          | inr (es, f) ↦
              rw (e, f, scan_instance)
                (settle_id (scan_storage x id start es)
                  ∙ scan_storage_id id start es
                  ∙ with_hash_id i p)
        ]
  ]

  pub pool_entry_id :
      (name : Str) (v : ScVal) (p : AmmPoolState)
      → (pool_entry x name v p).contract_id ≡ p.contract_id
  unfolding pool_entry
  pool_entry_id name v p = ground (arith, slot0_id p v, pool_instance_id p v)

pub base_pool_id :
    (a : Adapter) (m : Dict AmmPoolState) (id : Str) → (base_pool a m id).contract_id ≡ id
unfolding base_pool
base_pool_id a m id = refl

pub gate_id :
    (cfg : Config) (p q : AmmPoolState) → gate cfg p ≡ some q → q.contract_id ≡ p.contract_id
unfolding gate
gate_id cfg p q h = ground arith

pub infer_type_id : (p : AmmPoolState) → (infer_type p).contract_id ≡ p.contract_id
unfolding infer_type
infer_type_id p = ground arith

-- Whether a position is known to have held shares, and has an owner.
abbrev pub held : Option AmmPositionState → Bool
held none = false
held (some p) = p.had_shares && not (is_empty p.address)

pub merge_position-key :
    (p : AmmPositionState) (found : Option AmmPositionState)
    → IsFound p found
    → position_key (merge_position p found) ≡ position_key p
unfolding merge_position position_key
merge_position-key p none h = ground arith
merge_position-key p (some c) h = elim (Bool-cases (is_empty c.address)) [
  | inl e ↦ ground arith
  | inr e ↦ ground (arith, retick_key c p h)
]

pub merge_reward-key :
    (p : AmmPositionState) (found : Option AmmPositionState)
    → IsFound p found
    → position_key (merge_reward p found) ≡ position_key p
unfolding merge_reward position_key
merge_reward-key p none h = refl
merge_reward-key p (some c) h = ground arith

pub merge_position-held :
    (p : AmmPositionState) (found : Option AmmPositionState)
    → held found ≡ true
    → held (some (merge_position p found)) ≡ true
unfolding merge_position
merge_position-held p none h = cc
merge_position-held p (some c) h = ground arith

pub merge_reward-held :
    (p : AmmPositionState) (found : Option AmmPositionState)
    → held found ≡ true
    → held (some (merge_reward p found)) ≡ true
unfolding merge_reward
merge_reward-held p none h = cc
merge_reward-held p (some c) h = ground arith
