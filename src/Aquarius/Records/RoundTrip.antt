-- ===== src/Aquarius/Records/RoundTrip.antt =====
-- aquarius/config_state.go: hydrating what was recorded.
use lidapters.Common.{
  ◌≡◌, refl, sym, ap, ◌∙◌, Bool, true, false, not, ◌&&◌, ◌||◌, Option-cases, Option, some, List, [],
  ◌∷◌, ◌++◌, arith, Bool-cases, inl, inr, if◌then◌else◌, All,
}
use lidapters.Common.Int.{ℤ}
use lidapters.Common.Str.{Str, eq_str, eq_str_iff}
use lidapters.Common.Text.{is_blank}
use lidapters.Common.Dict.{StrSet, mem, mem-add}
use lidapters.Bindings.Config.{ConfigRecord}
use lidapters.Bindings.State.{AmmPoolState, LedgerState, ContractDataChange, empty_state}
use lidapters.Aquarius.Config.{Adapter, register_contracts}
use lidapters.Aquarius.Records.{
  PoolJson, pool_kind, touched_onto, pool_records, config_records, hydrate_onto, hydrate_config,
}

-- The elements that pass a test.
abbrev pub restrict : {A : Type 0} → (A → Bool) → List A → List A
restrict f [] = []
restrict f (p ∷ ps) = if f p then p ∷ restrict f ps else restrict f ps

-- The pool is of the adapter's protocol and its contract is in the set.
abbrev pub is_recorded : Adapter → StrSet → AmmPoolState → Bool
is_recorded a touched p = eq_str p.protocol a.cfg.protocol && mem p.contract_id touched

-- The pool's contract is registered, unless its id is blank.
abbrev pub IsRegistered : Adapter → AmmPoolState → Type 0
IsRegistered b p = is_blank p.contract_id ≡ false → mem p.contract_id b.contracts ≡ true

append-cons :
    {A : Type 0} → (xs : List A) (y : A) (ys : List A) → (xs ++ y ∷ []) ++ ys ≡ xs ++ y ∷ ys
append-cons [] y ys = refl
append-cons (x ∷ xs) y ys = ap (λ l. x ∷ l) (append-cons xs y ys)

append-nil : {A : Type 0} → (xs : List A) → xs ++ [] ≡ xs
append-nil [] = refl
append-nil (x ∷ xs) = ap (λ l. x ∷ l) (append-nil xs)

-- The codec reads the pool that it wrote.
abbrev pub Reads : PoolJson → AmmPoolState → Type 0
Reads json p = json.unmarshal (json.marshal p) ≡ some p

module _ (json : PoolJson) (a : Adapter) (touched : StrSet) (seq : ℤ) where
  register-keeps :
      (id k : Str) (b : Adapter)
      → mem id b.contracts ≡ true
      → mem id (register_contracts b (k ∷ [])).contracts ≡ true
  unfolding register_contracts
  register-keeps id k b h = ground (arith, mem-add k id b.contracts)

  register-mem :
      (k : Str) (b : Adapter)
      → is_blank k ≡ false
      → mem k (register_contracts b (k ∷ [])).contracts ≡ true
  unfolding register_contracts
  register-mem k b h = ground (arith, mem-add k k b.contracts, (eq_str_iff k k).1 refl)

  -- What is registered stays so.
  hydrate_onto-keeps :
      (id : Str) (b : Adapter) (s : LedgerState) (rs : List ConfigRecord)
      → mem id b.contracts ≡ true
      → mem id (hydrate_onto json b s rs).0.contracts ≡ true
  unfolding hydrate_onto register_contracts
  hydrate_onto-keeps id b s [] h = h
  hydrate_onto-keeps id b s (r ∷ rs) h =
      elim (Bool-cases (not (eq_str r.kind pool_kind) || r.removed)) [
        | inl e ↦ simp (e, hydrate_onto) (hydrate_onto-keeps id b s rs h)
        | inr e ↦ elim (Option-cases (json.unmarshal r.payload)) [
          | inl f ↦ simp (e, f, hydrate_onto) h
          | inr (p, f) ↦
              simp (e, f, hydrate_onto)
                (hydrate_onto-keeps id (register_contracts b (p.contract_id ∷ []))
                  (record s { amm_pools = s.amm_pools ++ p ∷ [] }) rs
                  (register-keeps id p.contract_id b h))
        ]
      ]

  skipped :
      (p : AmmPoolState) (ps : List AmmPoolState)
      → is_recorded a touched p ≡ false
      → pool_records json a touched seq (p ∷ ps) ≡ pool_records json a touched seq ps
  unfolding pool_records
  skipped p ps h = ground arith

  recorded :
      (b : Adapter) (s : LedgerState) (p : AmmPoolState) (ps : List AmmPoolState)
      → Reads json p
      → is_recorded a touched p ≡ true
      → hydrate_onto json b s (pool_records json a touched seq (p ∷ ps))
        ≡ hydrate_onto json
            (register_contracts b (p.contract_id ∷ []))
            (record s { amm_pools = s.amm_pools ++ p ∷ [] })
            (pool_records json a touched seq ps)
  unfolding pool_records hydrate_onto eq_str
  recorded b s p ps law h =
      let e : eq_str p.protocol a.cfg.protocol ≡ true = ground arith in
      let f : mem p.contract_id touched ≡ true = ground arith in simp (e, f, law, hydrate_onto) refl

  hydrate_onto-pool_records :
      (b : Adapter) (s : LedgerState) (ps : List AmmPoolState)
      → All (Reads json) ps
      → (hydrate_onto json b s (pool_records json a touched seq ps)).1
        ≡ some (record s { amm_pools = s.amm_pools ++ restrict (is_recorded a touched) ps })
  unfolding hydrate_onto pool_records
  hydrate_onto-pool_records b s [] law =
      ap (λ l. some (record s { amm_pools = l })) (sym (append-nil s.amm_pools))
  hydrate_onto-pool_records b s (p ∷ ps) law = elim (Bool-cases (is_recorded a touched p)) [
    | inr e ↦
        ap (λ rs. (hydrate_onto json b s rs).1) (skipped p ps e)
        ∙ simp e (hydrate_onto-pool_records b s ps law.1)
    | inl e ↦
        ap (λ (r : Adapter × Option LedgerState). r.1) (recorded b s p ps law.0 e)
        ∙ simp e (
            hydrate_onto-pool_records (register_contracts b (p.contract_id ∷ []))
              (record s { amm_pools = s.amm_pools ++ p ∷ [] }) ps law.1
            ∙ ap (λ l. some (record s { amm_pools = l }))
                (append-cons s.amm_pools p (restrict (is_recorded a touched) ps)))
  ]

  hydrate_onto-IsRegistered :
      (b : Adapter) (s : LedgerState) (ps : List AmmPoolState)
      → All (Reads json) ps
      → All
          (IsRegistered (hydrate_onto json b s (pool_records json a touched seq ps)).0)
          (restrict (is_recorded a touched) ps)
  hydrate_onto-IsRegistered b s [] law = tt
  hydrate_onto-IsRegistered b s (p ∷ ps) law =
      let b' = register_contracts b (p.contract_id ∷ []) in
      let s' : LedgerState = record s { amm_pools = s.amm_pools ++ p ∷ [] } in
      elim (Bool-cases (is_recorded a touched p)) [
        | inr e ↦ rw (skipped p ps e, e) (hydrate_onto-IsRegistered b s ps law.1)
        | inl e ↦
            rw (recorded b s p ps law.0 e, e)
              (
                λ blank.
                    hydrate_onto-keeps p.contract_id b' s' (pool_records json a touched seq ps)
                      (register-mem p.contract_id b blank),
                hydrate_onto-IsRegistered b' s' ps law.1,
              )
      ]

-- What was recorded comes back, whatever contracts the hydrating adapter knows: if the codec reads
-- the pools of the state as it wrote them, hydrating the records of a state gives a state that has exactly the pools
-- of the protocol that the changes touched, in their order and as they were, and nothing else, and
-- it registers the contract of each, unless that is blank.
pub hydrate_config-config_records :
    (json : PoolJson) (a b : Adapter) (s : LedgerState) (changes : List ContractDataChange)
    (seq : ℤ)
    → All (Reads json) s.amm_pools
    → let kept = restrict (is_recorded a (touched_onto [] changes)) s.amm_pools in
      let (b', t) = hydrate_config json b (config_records json a (some s) changes seq) in
      (t ≡ some (record empty_state { amm_pools = kept })) × All (IsRegistered b') kept
unfolding hydrate_config config_records
hydrate_config-config_records json a b s changes seq law =
    let touched = touched_onto [] changes in
    (
      hydrate_onto-pool_records json a touched seq b empty_state s.amm_pools law,
      hydrate_onto-IsRegistered json a touched seq b empty_state s.amm_pools law,
    )
