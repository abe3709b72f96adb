-- ===== src/Aquarius/State/Refusals.antt =====
-- aquarius/state.go, `DecodeState`: the write of a range position whose key has no bounds.
use lidapters.Common.{
  ◌≡◌, refl, ap, ◌∙◌, true, false, not, ◌||◌, none, some, [], ◌∷◌, ◌++◌, Bool-cases, Option-cases,
  inl, inr,
}
use lidapters.Common.Int.{ℤ, pos}
use lidapters.Common.Str.{Str, lit, eq_str, eq_str_refl, is_empty}
use lidapters.Common.Text.{to_lower}
use lidapters.Common.Dict.{Dict, lookup, lookup-insert, mem}
use lidapters.Xdr.{Xdr}
use lidapters.Bindings.State.{AmmPoolState, DecodeDiagnostic, ContractDataChange}
use lidapters.Aquarius.Config.{Adapter, owns_contract}
use lidapters.Aquarius.Values.{
  decode_val, decode_or_zero, decode_position, symbol_or_first, addr_in_key, ticks_in_key,
}
use lidapters.Aquarius.Work.{Work}
use lidapters.Aquarius.Removal.{is_gone, entry_name}
use lidapters.Aquarius.Instance.{scan_instance, scanned_tokens, write_through}
use lidapters.Aquarius.State.{
  missing_tick_bounds, refuse_position, position_write, position_entry, base_pool, gate, infer_type,
  is_nil, store_pool, pool_entry, pool_write, live_write, reduce,
}

-- The report of a refused range position.
abbrev pub report : ℤ → Str → Str → DecodeDiagnostic
report seq id owner = record {
  code = missing_tick_bounds;
  ledger_seq = seq;
  pool_contract_id = id;
  address = owner;
  position_type = [];
  reserve_index = pos 0;
  amount_raw = [];
  candidate_asset_ids = [];
}

-- The step from `w` to `next` refuses the position of an owner in a pool.
pub record IsRefused (seq : ℤ) (id owner : Str) (w next : Work) : Type 0 where
  pub positions_kept : next.positions ≡ w.positions
  pub reported : next.adapter.diagnostics ≡ w.adapter.diagnostics ++ report seq id owner ∷ []
  pub other_pools : (j : Str) → eq_str id j ≡ false → lookup j next.pools ≡ lookup j w.pools

module _ (x : Xdr) (seq : ℤ) (id : Str) (key val : x.ScVal) (w : Work)
    (range : eq_str (symbol_or_first x key) (lit "Position") ≡ true)
    (owned : is_empty (addr_in_key x key) ≡ false) where
  undecoded : ticks_in_key x key ≡ none → (decode_position x id key val).1 ≡ false
  unfolding decode_position eq_str
  undecoded h = simp (range, h, decode_position) refl

  undecoded_owner :
      ticks_in_key x key ≡ none → (decode_position x id key val).0.address ≡ addr_in_key x key
  unfolding decode_position eq_str
  undecoded_owner h = simp (range, h, decode_position) refl

  position_write-report :
      ticks_in_key x key ≡ none
      → let next = position_write x seq id key val w in
        (next.positions ≡ w.positions)
        × (next.pools ≡ w.pools)
        × (next.adapter.diagnostics
            ≡ w.adapter.diagnostics ++ report seq id (addr_in_key x key) ∷ [])
  unfolding position_write refuse_position
  position_write-report h = simp (undecoded h, undecoded_owner h, range, owned) (refl, refl, refl)

store_pool-frame :
    (id : Str) (p : AmmPoolState) (w : Work)
    → let next = store_pool id p w in
      (next.positions ≡ w.positions)
      × (next.adapter ≡ w.adapter)
      × ((j : Str) → eq_str id j ≡ false → lookup j next.pools ≡ lookup j w.pools)
unfolding store_pool
store_pool-frame id p w = elim (Option-cases (gate w.adapter.cfg p)) [
  | inl g ↦ rw (g, store_pool) (refl, refl, λ j other. refl)
  | inr (q, g) ↦
      let r = infer_type q in
      rw (g, store_pool)
        (elim (Bool-cases (not (is_empty r.pool_type) || not (is_nil r.tokens))) [
          | inl b ↦ rw b (refl, refl, λ j other. lookup-insert id j r w.pools ∙ rw other refl)
          | inr b ↦ rw b (refl, refl, λ j other. refl)
        ])
]

lookup-write_through :
    (x : Xdr) (id : Str) (val : x.ScVal) (m : Dict AmmPoolState) (j : Str)
    → eq_str id j ≡ false
    → lookup j (write_through x id val m) ≡ lookup j m
unfolding write_through
lookup-write_through x id val m j other = elim (Option-cases (lookup id m)) [
  | inl e ↦ rw (e, write_through) refl
  | inr (p, e) ↦
      rw (e, write_through)
        (lookup-insert id j (record p { tokens = scanned_tokens x val p.tokens }) m ∙ rw other refl)
]

position_entry-eq :
    (x : Xdr) (seq : ℤ) (id : Str) (key val : x.ScVal) (w : Work)
    → symbol_or_first x key ≡ lit "Position"
    → position_entry x seq id key val w ≡ position_write x seq id key val w
unfolding position_entry to_lower mem eq_str
position_entry-eq x seq id key val w named = simp (named, position_entry) refl

pool_write-report :
    (x : Xdr) (seq : ℤ) (id : Str) (key val : x.ScVal) (w : Work)
    → symbol_or_first x key ≡ lit "Position"
    → is_empty (addr_in_key x key) ≡ false
    → ticks_in_key x key ≡ none
    → IsRefused seq id (addr_in_key x key) w (pool_write x seq id key val w)
unfolding pool_write
pool_write-report x seq id key val w named given h =
    let r = scan_instance x id (base_pool w.adapter w.pools id) w.adapter.share_tokens val in
    let w1 : Work = (record w {
      adapter = record w.adapter { share_tokens = r.1 };
      pools = write_through x id val w.pools;
    }) in
    let w2 = position_entry x seq id key val w1 in
    let (p, q, d) =
      position_write-report x seq id key val w1 (rw named (eq_str_refl (lit "Position"))) given h in
    let same = position_entry-eq x seq id key val w1 named in
    let (fp, fa, fm) = store_pool-frame id (pool_entry x (entry_name x key) val r.0) w2 in
    record {
      positions_kept = fp ∙ rw same p;
      reported = ap (λ (a : Adapter). a.diagnostics) fa ∙ rw same d;
      other_pools =
          λ j other. fm j other ∙ rw same (rw q (lookup-write_through x id val w.pools j other));
    }

-- A live write of an entry `Position` of an owned contract, no share token and no asset, whose key
-- names an owner and no two bounds, leaves every position as it is, so no range is guessed for it,
-- and adds to the reports, at their end, one that names the contract, the owner and the ledger; no
-- other pool than that of the contract changes.
pub reduce-refuses :
    (x : Xdr) (seq : ℤ) (c : ContractDataChange) (w : Work) (key val : x.ScVal) {text : Str}
    → owns_contract w.adapter c.contract_id ≡ true
    → is_gone seq c ≡ false
    → c.value_xdr ≡ some text
    → decode_val x text ≡ some val
    → decode_val x c.key_xdr ≡ some key
    → lookup c.contract_id w.adapter.share_tokens ≡ none
    → mem c.contract_id w.adapter.assets ≡ false
    → symbol_or_first x key ≡ lit "Position"
    → is_empty (addr_in_key x key) ≡ false
    → ticks_in_key x key ≡ none
    → IsRefused seq c.contract_id (addr_in_key x key) w (reduce x seq w c)
unfolding reduce live_write decode_or_zero
reduce-refuses x seq c w key val owned live valued decoded keyed no_share no_asset named given h =
    let step : reduce x seq w c ≡ pool_write x seq c.contract_id key val w =
      simp
        (
          owned, live, valued, decoded, keyed, no_share, no_asset, reduce, live_write,
          decode_or_zero,
        )
        refl in
    rw step (pool_write-report x seq c.contract_id key val w named given h)
