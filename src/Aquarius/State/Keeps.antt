-- ===== src/Aquarius/State/Keeps.antt =====
-- aquarius/state.go, `DecodeState`: properties of the work, change by change.
use lidapters.Common.{
  ◌≡◌, refl, sym, ap, ◌∙◌, ◌⊎◌, true, false, not, ◌&&◌, ◌||◌, none, some, List, [], ◌∷◌, arith,
  Bool-cases, Option-cases, inl, inr, All,
}
use lidapters.Common.Int.{ℤ}
use lidapters.Common.Str.{Str, lit, eq_str, is_empty}
use lidapters.Common.Text.{is_blank}
use lidapters.Common.Dict.{lookup, insert, mem, IsKeyed, lookup-IsKeyed}
use lidapters.Xdr.{Xdr}
use lidapters.Bindings.State.{AmmPoolState, AmmPositionState, AmmAssetMetadata, ContractDataChange}
use lidapters.Aquarius.Config.{Adapter, PoolSeed, PoolSeedPosition, owns_contract}
use lidapters.Aquarius.Values.{
  position_key, decode_val, decode_or_zero, addr, first_uint, addr_in_key, symbol_or_first,
  decode_position, decode_reward_position, asset_metadata, upsert_asset,
}
use lidapters.Aquarius.Work.{Work, new_position, with_shares, upsert_classic_shares}
use lidapters.Aquarius.Seeds.{
  seeded_pool, seeded_position, seed_position, seed_positions, apply_seed, apply_pool_seeds,
}
use lidapters.Aquarius.Removal.{
  is_gone, closed_position, claimed_position, update_position, position_names, user_names,
  remove_pool, pool_of, entry_name, probe, keyed_removal, apply_entry_removal,
}
use lidapters.Aquarius.Instance.{scan_instance, scanned_tokens, write_through}
use lidapters.Aquarius.State.{
  merge_position, merge_reward, base_pool, gate, infer_type, store, store_pool, is_nil, pool_entry,
  working_balance, refuse_position, position_write, reward_write, shares_write, position_entry,
  pool_write, live_write, reduce, reduce_all,
}
use lidapters.Aquarius.State.Keys.{IsFound}
use lidapters.Aquarius.State.Identity.{
  held, merge_position-key, merge_reward-key, merge_position-held, merge_reward-held,
  scan_instance_id, pool_entry_id, base_pool_id, gate_id, infer_type_id,
}

abbrev pub pool_key : AmmPoolState → Str
pool_key p = p.contract_id

-- Both maps hold each value under its key, once.
pub record IsIndexed (w : Work) : Type 0 where
  pub pools : IsKeyed pool_key w.pools
  pub positions : IsKeyed position_key w.positions

abbrev pub put : Str → AmmPositionState → Work → Work
put k p w = record w { positions = insert k p w.positions }

abbrev pub put_pool : Str → AmmPoolState → Work → Work
put_pool id p w = record w { pools = insert id p w.pools }

abbrev pub reframe : Adapter → List AmmAssetMetadata → Work → Work
reframe a assets w = record w { adapter = a; amm_assets = assets }

-- The removal of an entry by which its pool is torn down: the key does not decode, or is none of
-- those of a user's entries.
abbrev pub TearsDown : Xdr → ℤ → ContractDataChange → Type 0
TearsDown x seq c =
    (is_gone seq c ≡ true)
    × ((decode_val x c.key_xdr ≡ none)
        ⊎ ((key : x.ScVal) × (decode_val x c.key_xdr ≡ some key)
            × (mem (entry_name x key) position_names ≡ false)
            × (eq_str (entry_name x key) (lit "userrewarddata") ≡ false)
            × (mem (entry_name x key) user_names ≡ false)))

module _ (x : Xdr) (P : Work → Type 0) (Allowed : Str → Type 0)
    (indexed : (w : Work) → P w → IsIndexed w)
    (putting : (k : Str) (p : AmmPositionState) (w : Work)
      → position_key p ≡ k
      → (held (lookup k w.positions) ≡ true → held (some p) ≡ true)
      → P w
      → P (put k p w))
    (pooling : (id : Str) (p : AmmPoolState) (w : Work)
      → p.contract_id ≡ id
      → P w
      → P (put_pool id p w))
    (framing : (a : Adapter) (assets : List AmmAssetMetadata) (w : Work)
      → P w
      → P (reframe a assets w))
    (removing : (id : Str) (w : Work) → Allowed id → P w → P (remove_pool id w)) where
  open x use {ScVal}

  -- What the map of positions holds under the key of a position has that key.
  lookup-IsFound :
      (p : AmmPositionState) (w : Work) → P w → IsFound p (lookup (position_key p) w.positions)
  lookup-IsFound p w h = elim (Option-cases (lookup (position_key p) w.positions)) [
    | inl e ↦ rw e tt
    | inr (c, e) ↦
        rw e (lookup-IsKeyed position_key (position_key p) c w.positions (indexed w h).positions e)
  ]

  shares-Keeps :
      (pool owner shares : Str) (w : Work)
      → P w
      → P (record w { positions = upsert_classic_shares pool owner shares w.positions })
  unfolding upsert_classic_shares with_shares position_key
  shares-Keeps pool owner shares w h =
      let k = position_key (new_position pool owner) in
      elim (Option-cases (lookup k w.positions)) [
        | inl e ↦ rw e (putting k (with_shares shares (new_position pool owner)) w refl (λ t. cc) h)
        | inr (c, e) ↦ rw e (
            putting k (with_shares shares c) w
              (lookup-IsKeyed position_key k c w.positions (indexed w h).positions e)
              (λ t. ground arith) h)
      ]

  -- An update of what is there that keeps the key, the owner and whether shares were held.
  update-Keeps :
      (k : Str) (f : AmmPositionState → AmmPositionState) (w : Work)
      → ((p : AmmPositionState) → position_key (f p) ≡ position_key p)
      → ((p : AmmPositionState) → held (some (f p)) ≡ held (some p))
      → P w
      → P (record w { positions = update_position k f w.positions })
  unfolding update_position
  update-Keeps k f w same hold h = elim (Option-cases (lookup k w.positions)) [
    | inl e ↦ rw (e, update_position) h
    | inr (c, e) ↦
        rw (e, update_position)
          (putting k (f c) w
            (same c ∙ lookup-IsKeyed position_key k c w.positions (indexed w h).positions e)
            (λ t. hold c ∙ sym (ap held e) ∙ t) h)
  ]

  seed_position-Keeps :
      (pool : Str) (sp : PoolSeedPosition) (w : Work)
      → P w
      → P (record w { positions = seed_position pool w.positions sp })
  unfolding seed_position seeded_position position_key
  seed_position-Keeps pool sp w h = elim (Bool-cases (is_blank sp.address)) [
    | inl e ↦ rw e h
    | inr e ↦
        let k = position_key (new_position pool sp.address) in
        elim (Option-cases (lookup k w.positions)) [
          | inl f ↦
              rw (e, f) (putting k (seeded_position pool sp none) w refl (λ t. ground arith) h)
          | inr (c, f) ↦
              rw (e, f)
                (putting k (seeded_position pool sp (some c)) w
                  (lookup-IsKeyed position_key k c w.positions (indexed w h).positions f)
                  (λ t. ground arith) h)
        ]
  ]

  seed_positions-Keeps :
      (pool : Str) (sps : List PoolSeedPosition) (w : Work)
      → P w
      → P (record w { positions = seed_positions pool w.positions sps })
  unfolding seed_positions
  seed_positions-Keeps pool [] w h = h
  seed_positions-Keeps pool (sp ∷ sps) w h =
      seed_positions-Keeps pool sps (record w { positions = seed_position pool w.positions sp })
        (seed_position-Keeps pool sp w h)

  apply_seed-Keeps : (seed : PoolSeed) (w : Work) → P w → P (apply_seed w seed)
  unfolding apply_seed seeded_pool
  apply_seed-Keeps seed w h = elim (Bool-cases (is_blank seed.contract_id)) [
    | inl e ↦ rw e h
    | inr e ↦
        let p = seeded_pool w.adapter.cfg seed (lookup seed.contract_id w.pools) in
        let id : p.contract_id ≡ seed.contract_id =
          elim (Option-cases (lookup seed.contract_id w.pools)) [
            | inl f ↦ rw f refl
            | inr (c, f) ↦
                rw f (lookup-IsKeyed pool_key seed.contract_id c w.pools (indexed w h).pools f)
          ] in
        rw e (
          seed_positions-Keeps seed.contract_id seed.positions (put_pool seed.contract_id p w)
            (pooling seed.contract_id p w id h))
  ]

  pub apply_pool_seeds-Keeps :
      (seeds : List PoolSeed) (w : Work) → P w → P (apply_pool_seeds w seeds)
  unfolding apply_pool_seeds
  apply_pool_seeds-Keeps [] w h = h
  apply_pool_seeds-Keeps (seed ∷ seeds) w h =
      apply_pool_seeds-Keeps seeds (apply_seed w seed) (apply_seed-Keeps seed w h)

  closed_position-Keeps :
      (k : Str) (w : Work)
      → P w
      → P (record w { positions = update_position k closed_position w.positions })
  unfolding closed_position position_key
  closed_position-Keeps k w h = update-Keeps k closed_position w (λ p. refl) (λ p. refl) h

  claimed_position-Keeps :
      (k : Str) (w : Work)
      → P w
      → P (record w { positions = update_position k claimed_position w.positions })
  unfolding claimed_position position_key
  claimed_position-Keeps k w h = update-Keeps k claimed_position w (λ p. refl) (λ p. refl) h

  apply_entry_removal-Keeps :
      (seq : ℤ) (c : ContractDataChange) (w : Work)
      → is_gone seq c ≡ true
      → (TearsDown x seq c → Allowed c.contract_id)
      → P w
      → P (apply_entry_removal x c w)
  unfolding apply_entry_removal keyed_removal
  apply_entry_removal-Keeps seq c w g ok h = elim (Option-cases (decode_val x c.key_xdr)) [
    | inl e ↦ rw (e, apply_entry_removal) (removing c.contract_id w (ok (g, inl e)) h)
    | inr (key, e) ↦
        let pool = pool_of w.adapter c.contract_id in
        let who = addr_in_key x key in
        rw (e, apply_entry_removal)
          (elim (Bool-cases (mem (entry_name x key) position_names)) [
            | inl f ↦ elim (Bool-cases (is_empty who)) [
              | inl n ↦ rw (f, n) h
              | inr n ↦ rw (f, n) (closed_position-Keeps (position_key (probe x pool key)) w h)
            ]
            | inr f ↦ elim (Bool-cases (eq_str (entry_name x key) (lit "userrewarddata"))) [
              | inl u ↦ elim (Bool-cases (is_empty who)) [
                | inl n ↦ rw (f, u, n) h
                | inr n ↦
                    rw (f, u, n) (claimed_position-Keeps (position_key (new_position pool who)) w h)
              ]
              | inr u ↦ elim (Bool-cases (mem (entry_name x key) user_names)) [
                | inl n ↦ rw (f, u, n) h
                | inr n ↦ rw (f, u, n) (removing c.contract_id w (ok (g, inr (key, e, f, u, n))) h)
              ]
            ]
          ])
  ]

  store_pool-Keeps :
      (id : Str) (p : AmmPoolState) (w : Work) → p.contract_id ≡ id → P w → P (store_pool id p w)
  unfolding store_pool
  store_pool-Keeps id p w e h = elim (Option-cases (gate w.adapter.cfg p)) [
    | inl g ↦ rw (g, store_pool) h
    | inr (q, g) ↦
        let r = infer_type q in
        rw (g, store_pool)
          (elim (Bool-cases (not (is_empty r.pool_type) || not (is_nil r.tokens))) [
            | inl b ↦ rw b (pooling id r w (infer_type_id q ∙ gate_id w.adapter.cfg p q g ∙ e) h)
            | inr b ↦ rw b h
          ])
  ]

  working_balance-Keeps :
      (id : Str) (key val : ScVal) (w : Work) → P w → P (working_balance x id key val w)
  unfolding working_balance position_key
  working_balance-Keeps id key val w h =
      let owner = addr_in_key x key in
      elim (Bool-cases (is_empty owner || is_empty (first_uint x val))) [
        | inl e ↦ rw e h
        | inr e ↦
            let k = position_key (new_position id owner) in
            elim (Option-cases (lookup k w.positions)) [
              | inl f ↦
                  rw (e, f)
                    (putting k
                      (record (new_position id owner) { working_balance_raw = first_uint x val }) w
                      refl (λ t. cc) h)
              | inr (c, f) ↦
                  rw (e, f)
                    (putting k (record c { working_balance_raw = first_uint x val }) w
                      (lookup-IsKeyed position_key k c w.positions (indexed w h).positions f)
                      (λ t. ground arith) h)
            ]
      ]

  refuse-Keeps :
      (seq : ℤ) (id : Str) (key : ScVal) (p : AmmPositionState) (w : Work)
      → P w
      → P (refuse_position x seq id key p w)
  unfolding refuse_position
  refuse-Keeps seq id key p w h =
      elim (Bool-cases
        (eq_str (symbol_or_first x key) (lit "Position") && not (is_empty p.address))) [
          | inl e ↦ rw e (framing _ w.amm_assets w h)
          | inr e ↦ rw e h
        ]

  merged-Keeps :
      (p : AmmPositionState) (w : Work)
      → P w
      → P (record w {
        positions = store (merge_position p (lookup (position_key p) w.positions)) w.positions;
      })
  merged-Keeps p w h =
      let found = lookup (position_key p) w.positions in
      let same : position_key (merge_position p found) ≡ position_key p =
        merge_position-key p found (lookup-IsFound p w h) in
      rw same
        (putting (position_key p) (merge_position p found) w same (merge_position-held p found) h)

  rewarded-Keeps :
      (p : AmmPositionState) (w : Work)
      → P w
      → P (record w {
        positions = store (merge_reward p (lookup (position_key p) w.positions)) w.positions;
      })
  rewarded-Keeps p w h =
      let found = lookup (position_key p) w.positions in
      let same : position_key (merge_reward p found) ≡ position_key p =
        merge_reward-key p found (lookup-IsFound p w h) in
      rw same (putting (position_key p) (merge_reward p found) w same (merge_reward-held p found) h)

  position_write-Keeps :
      (seq : ℤ) (id : Str) (key val : ScVal) (w : Work)
      → P w
      → P (position_write x seq id key val w)
  unfolding position_write
  position_write-Keeps seq id key val w h =
      let p = (decode_position x id key val).0 in
      elim (Bool-cases (decode_position x id key val).1) [
        | inl e ↦ rw e (merged-Keeps p w h)
        | inr e ↦ rw e (refuse-Keeps seq id key p w h)
      ]

  reward_write-Keeps :
      (id : Str) (key val : ScVal) (w : Work) → P w → P (reward_write x id key val w)
  unfolding reward_write
  reward_write-Keeps id key val w h = elim (Bool-cases (decode_reward_position x id key val).1) [
    | inl e ↦ rw e (rewarded-Keeps (decode_reward_position x id key val).0 w h)
    | inr e ↦ rw e h
  ]

  shares_write-Keeps :
      (pool owner shares : Str) (w : Work) → P w → P (shares_write x pool owner shares w)
  unfolding shares_write
  shares_write-Keeps pool owner shares w h = elim (Bool-cases (is_empty owner || is_empty shares)) [
    | inl e ↦ rw e h
    | inr e ↦ rw e (shares-Keeps pool owner shares w h)
  ]

  position_entry-Keeps :
      (seq : ℤ) (id : Str) (key val : ScVal) (w : Work)
      → P w
      → P (position_entry x seq id key val w)
  unfolding position_entry
  position_entry-Keeps seq id key val w h = ground (
    arith,
    working_balance-Keeps id key val w h,
    position_write-Keeps seq id key val w h,
    reward_write-Keeps id key val w h,
    shares_write-Keeps id (addr x key) (first_uint x val) w h,
  )

  write_through-Keeps :
      (id : Str) (val : ScVal) (w : Work)
      → P w
      → P (record w { pools = write_through x id val w.pools })
  unfolding write_through
  write_through-Keeps id val w h = elim (Option-cases (lookup id w.pools)) [
    | inl e ↦ rw (e, write_through) h
    | inr (p, e) ↦
        rw (e, write_through)
          (pooling id (record p { tokens = scanned_tokens x val p.tokens }) w
            (lookup-IsKeyed pool_key id p w.pools (indexed w h).pools e) h)
  ]

  pool_write-Keeps :
      (seq : ℤ) (id : Str) (key val : ScVal) (w : Work) → P w → P (pool_write x seq id key val w)
  unfolding pool_write
  pool_write-Keeps seq id key val w h =
      let r = scan_instance x id (base_pool w.adapter w.pools id) w.adapter.share_tokens val in
      let w0 = (record w { pools = write_through x id val w.pools }) in
      let w1 = reframe (record w.adapter { share_tokens = r.1 }) w.amm_assets w0 in
      store_pool-Keeps id (pool_entry x (entry_name x key) val r.0)
        (position_entry x seq id key val w1)
        (pool_entry_id x (entry_name x key) val r.0
          ∙ scan_instance_id x id (base_pool w.adapter w.pools id) w.adapter.share_tokens val
          ∙ base_pool_id w.adapter w.pools id)
        (position_entry-Keeps seq id key val w1 (
          framing (record w.adapter { share_tokens = r.1 }) w.amm_assets w0
            (write_through-Keeps id val w h)))

  live_write-Keeps :
      (seq : ℤ) (id : Str) (key val : ScVal) (w : Work) → P w → P (live_write x seq id key val w)
  unfolding live_write
  live_write-Keeps seq id key val w h = elim (Option-cases (lookup id w.adapter.share_tokens)) [
    | inr (pool, e) ↦
        rw (e, live_write)
          (elim (Bool-cases (eq_str (entry_name x key) (lit "balance"))) [
            | inl f ↦ rw f (shares_write-Keeps pool (addr_in_key x key) (first_uint x val) w h)
            | inr f ↦ rw f h
          ])
    | inl e ↦
        rw (e, live_write)
          (elim (Bool-cases (mem id w.adapter.assets)) [
            | inr f ↦ rw f (pool_write-Keeps seq id key val w h)
            | inl f ↦ elim (Option-cases (asset_metadata x id key val)) [
              | inl g ↦ rw (f, g) h
              | inr (m, g) ↦ rw (f, g) (framing w.adapter (upsert_asset w.amm_assets m) w h)
            ]
          ])
  ]

  reduce-Keeps :
      (seq : ℤ) (c : ContractDataChange) (w : Work)
      → (TearsDown x seq c → Allowed c.contract_id)
      → P w
      → P (reduce x seq w c)
  unfolding reduce
  reduce-Keeps seq c w ok h = elim (Bool-cases (owns_contract w.adapter c.contract_id)) [
    | inr o ↦ rw o h
    | inl o ↦ elim (Bool-cases (is_gone seq c)) [
      | inl g ↦ rw (o, g) (apply_entry_removal-Keeps seq c w g ok h)
      | inr g ↦ elim (Option-cases c.value_xdr) [
        | inl e ↦ rw (o, g, e, reduce) h
        | inr (value, e) ↦ elim (Option-cases (decode_val x value)) [
          | inl f ↦ rw (o, g, e, f, reduce) h
          | inr (val, f) ↦
              rw (o, g, e, f, reduce)
                (live_write-Keeps seq c.contract_id (decode_or_zero x c.key_xdr) val w h)
        ]
      ]
    ]
  ]

  pub reduce_all-Keeps :
      (seq : ℤ) (cs : List ContractDataChange) (w : Work)
      → All (λ c. TearsDown x seq c → Allowed c.contract_id) cs
      → P w
      → P (reduce_all x seq w cs)
  unfolding reduce_all
  reduce_all-Keeps seq [] w ok h = h
  reduce_all-Keeps seq (c ∷ cs) w ok h =
      reduce_all-Keeps seq cs (reduce x seq w c) ok.1 (reduce-Keeps seq c w ok.0 h)
