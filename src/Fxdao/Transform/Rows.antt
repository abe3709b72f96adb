-- ===== src/Fxdao/Transform/Rows.antt =====
-- fxdao/transform.go, `Transform`: the vaults and events that have a row.
use lidapters.Common.{
  ◌≡◌, ◌⊎◌, refl, ap, Bool, true, false, ◌&&◌, none, some, arith, List, [], ◌∷◌, map, if◌then◌else◌,
  Bool-cases, inl, inr, Pairwise, Pairwise-map,
}
use lidapters.Common.Str.{lit, eq_str, eq_str_iff}
use lidapters.Common.Dict.{lookup}
use lidapters.Common.Sort.{sort_slice, IsSorted, IsOrder, sort_slice-IsSorted}
use lidapters.Common.Lex.{by_text-IsOrder, lex-IsOrder}
use lidapters.Xdr.{Xdr}
use lidapters.Bindings.State.{VaultState, LedgerState}
use lidapters.Bindings.Rows.{RawEventEnvelope, TransformInput, QuarantineEvent, Vault}
use lidapters.Fxdao.Config.{Adapter, owns_contract}
use lidapters.Fxdao.Transform.{
  stable_id, less_vault, vault_row, vault_rows, quarantine, event_rows, transform,
}

-- The elements that pass a test.
abbrev pub keep {ℓ} : {A : Type ℓ} → (A → Bool) → List A → List A
keep p [] = []
keep p (x ∷ xs) = let rest = keep p xs in if p x then x ∷ rest else rest

less_vault-IsOrder : IsOrder less_vault
unfolding less_vault
less_vault-IsOrder =
    let inner =
      lex-IsOrder (λ (v : Vault). v.address) (by_text-IsOrder (λ (v : Vault). v.denomination)) in
    let o = lex-IsOrder (λ (v : Vault). v.contract_id) inner in
    record { asym = o.asym; le_trans = o.le_trans }

module _ (x : Xdr) (a : Adapter) where
  -- The vaults of a state that have a row: those of the protocol that were seen.
  abbrev pub shown : VaultState → Bool
  shown v = eq_str v.protocol a.cfg.protocol && v.had_vault

  vault_rows-eq-map :
      (input : TransformInput) (vs : List VaultState)
      → vault_rows x a input vs ≡ map (vault_row x a input) (keep shown vs)
  unfolding vault_rows
  vault_rows-eq-map input [] = refl
  vault_rows-eq-map input (v ∷ vs) = elim (Bool-cases (eq_str v.protocol a.cfg.protocol)) [
    | inr e ↦ rw e (vault_rows-eq-map input vs)
    | inl e ↦ elim (Bool-cases v.had_vault) [
      | inl f ↦
          rw e (
            simp f
              (ap (λ (l : List Vault). vault_row x a input v ∷ l) (vault_rows-eq-map input vs)))
      | inr f ↦ rw e (simp f (vault_rows-eq-map input vs))
    ]
  ]

  event_rows-eq-map :
      (evts : List RawEventEnvelope)
      → event_rows x a evts
        ≡ map (quarantine x a) (keep (λ evt. owns_contract a evt.contract_id) evts)
  unfolding event_rows
  event_rows-eq-map [] = refl
  event_rows-eq-map (evt ∷ evts) = elim (Bool-cases (owns_contract a evt.contract_id)) [
    | inl e ↦
        rw e (ap (λ (l : List QuarantineEvent). quarantine x a evt ∷ l) (event_rows-eq-map evts))
    | inr e ↦ rw e (event_rows-eq-map evts)
  ]

  -- The row of a vault: its identity and amounts, "closed" or "active" as the vault is, marked as
  -- restored if it is, with the input's ledger and time.
  pub record IsRow (input : TransformInput) (v : VaultState) (r : Vault) : Type 0 where
    pub named :
        (r.contract_id ≡ v.contract_id)
        × (r.address ≡ v.account)
        × (r.denomination ≡ v.denomination)
    pub id : r.id ≡ stable_id x (a.cfg.protocol ∷ v.contract_id ∷ v.account ∷ v.denomination ∷ [])
    pub of_protocol : r.protocol ≡ v.protocol
    pub collateral : r.collateral_raw ≡ v.collateral_raw
    pub debt : r.debt_raw ≡ v.debt_raw
    pub index : r.vault_index_raw ≡ v.index_raw
    pub no_prices : (r.ratio_raw ≡ []) × (r.collateral_usd ≡ []) × (r.debt_usd ≡ [])
    pub status :
        (v.closed ≡ true) × (r.status ≡ lit "closed")
        ⊎ (v.closed ≡ false) × (r.status ≡ lit "active")
    pub restored :
        (v.restored ≡ true) × (lookup (lit "restored") r.metadata ≡ some (lit "true"))
        ⊎ (v.restored ≡ false) × (lookup (lit "restored") r.metadata ≡ none)
    pub time : (r.ledger_seq ≡ input.ledger_seq) × (r.timestamp ≡ input.close_time)

  -- The quarantine of an event: the raw event, and where it came from.
  pub record IsHeld (evt : RawEventEnvelope) (q : QuarantineEvent) : Type 0 where
    pub raw : q.raw_event ≡ evt.raw_event
    pub reason : q.reason ≡ lit "fxdao_unexpected_event"
    pub from :
        (q.contract_id ≡ evt.contract_id)
        × (q.ledger_seq ≡ evt.ledger_seq)
        × (q.tx_hash ≡ evt.tx_hash)
        × (q.event_index ≡ evt.event_index)
    pub by_adapter : q.adapter_id ≡ a.cfg.adapter_id

  vault_row-IsRow :
      (input : TransformInput) (v : VaultState)
      → shown v ≡ true
      → IsRow input v (vault_row x a input v)
  unfolding vault_row lookup eq_str
  vault_row-IsRow input v seen = record {
    named = (refl, refl, refl);
    id = refl;
    of_protocol = protocol_of seen;
    collateral = refl;
    debt = refl;
    index = refl;
    no_prices = (refl, refl, refl);
    status = elim (Bool-cases v.closed) [ inl e ↦ inl (e, rw e refl) | inr e ↦ inr (e, rw e refl) ];
    restored = elim (Bool-cases v.restored) [
      | inl e ↦ inl (e, rw e refl)
      | inr e ↦ inr (e, rw e refl)
    ];
    time = (refl, refl);
  }
    where
      protocol_of : shown v ≡ true → a.cfg.protocol ≡ v.protocol
      protocol_of h = ground (arith, eq_str_iff v.protocol a.cfg.protocol)

  vault_rows-IsRow :
      (input : TransformInput) (vs : List VaultState)
      → Pairwise (IsRow input) (keep shown vs) (map (vault_row x a input) (keep shown vs))
  vault_rows-IsRow input [] = tt
  vault_rows-IsRow input (v ∷ vs) = elim (Bool-cases (shown v)) [
    | inl e ↦ rw e (vault_row-IsRow input v e, vault_rows-IsRow input vs)
    | inr e ↦ rw e (vault_rows-IsRow input vs)
  ]

  quarantine-IsHeld : (evt : RawEventEnvelope) → IsHeld evt (quarantine x a evt)
  unfolding quarantine
  quarantine-IsHeld evt = record {
    raw = refl;
    reason = refl;
    from = (refl, refl, refl, refl);
    by_adapter = refl;
  }

  -- For an input with a state the quarantine of the output holds, in order, one entry for each event
  -- on an owned contract, with its raw bytes and its origin, and nothing for the others. Its vaults
  -- are the rows of the vaults of this protocol that were seen, one each, put in an order in which
  -- they do not decrease by contract, address and denomination. A row has the names and amounts of
  -- its vault, says "closed" or "active" as the vault is, and is marked as restored if the vault is.
  pub transform_rows :
      (input : TransformInput) (s : LedgerState)
      → input.state ≡ some s
      → let out = transform x a input in
        Pairwise IsHeld (keep (λ evt. owns_contract a evt.contract_id) input.events) out.quarantine
        × ((rows : List Vault) × Pairwise (IsRow input) (keep shown s.vaults) rows
            × (out.vaults ≡ sort_slice less_vault rows))
        × IsSorted less_vault out.vaults
  unfolding transform
  transform_rows input s e =
      let owned = keep (λ evt. owns_contract a evt.contract_id) input.events in
      simp e (
        rw (event_rows-eq-map input.events)
            (Pairwise-map IsHeld (quarantine x a) quarantine-IsHeld owned),
        (
          map (vault_row x a input) (keep shown s.vaults),
          vault_rows-IsRow input s.vaults,
          ap (sort_slice less_vault) (vault_rows-eq-map input s.vaults),
        ),
        sort_slice-IsSorted less_vault less_vault-IsOrder (vault_rows x a input s.vaults),
      )
