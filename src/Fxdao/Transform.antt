-- ===== src/Fxdao/Transform.antt =====
-- fxdao/transform.go: the snapshot rows, and the quarantine of every event on an owned contract.
pub mod Rows
use lidapters.Common.{Bool, not, ◌||◌, Option, none, some, List, [], ◌∷◌, ◌++◌, if◌then◌else◌}
use lidapters.Common.Str.{Str, lit, eq_str, lt_str, is_empty}
use lidapters.Common.Decimal.{dec_ℤ}
use lidapters.Common.Sort.{sort_slice}
use lidapters.Xdr.{Xdr}
use lidapters.Bindings.State.{VaultState}
use lidapters.Bindings.Rows.{
  RawEventEnvelope, TransformInput, TransformOutput, QuarantineEvent, Vault, empty_output,
}
use lidapters.Fxdao.Config.{Adapter, owns_contract}

-- The parts joined by `|`; no bar is written while nothing has been written.
join_parts : Str → List Str → Str
join_parts b [] = b
join_parts b (p ∷ ps) = join_parts (if is_empty b then p else b ++ (lit "|" ++ p)) ps

unfoldable pub stable_id : Xdr → List Str → Str
unfolding join_parts
stable_id x parts = x.sha256_hex (join_parts [] parts)

unfoldable pub less_vault : Vault → Vault → Bool
less_vault v w =
    if not (eq_str v.contract_id w.contract_id)
    then lt_str v.contract_id w.contract_id
    else if not (eq_str v.address w.address)
    then lt_str v.address w.address
    else lt_str v.denomination w.denomination

module _ (x : Xdr) (a : Adapter) where
  unfoldable pub vault_row : TransformInput → VaultState → Vault
  vault_row input v = record {
    id = stable_id x (a.cfg.protocol ∷ v.contract_id ∷ v.account ∷ v.denomination ∷ []);
    address = v.account;
    protocol = a.cfg.protocol;
    contract_id = v.contract_id;
    denomination = v.denomination;
    vault_index_raw = v.index_raw;
    collateral_raw = v.collateral_raw;
    debt_raw = v.debt_raw;
    ratio_raw = [];
    collateral_usd = [];
    debt_usd = [];
    status = if v.closed then lit "closed" else lit "active";
    ledger_seq = input.ledger_seq;
    timestamp = input.close_time;
    metadata = if v.restored then (lit "restored", lit "true") ∷ [] else [];
  }

  unfoldable pub vault_rows : TransformInput → List VaultState → List Vault
  vault_rows input [] = []
  vault_rows input (v ∷ vs) =
      let rest = vault_rows input vs in
      if not (eq_str v.protocol a.cfg.protocol) || not v.had_vault
      then rest
      else vault_row input v ∷ rest

  unfoldable pub quarantine : RawEventEnvelope → QuarantineEvent
  quarantine evt = record {
    id =
        stable_id x
          (a.cfg.adapter_id ∷ dec_ℤ evt.ledger_seq ∷ evt.tx_hash ∷ dec_ℤ evt.event_index ∷ []);
    adapter_id = a.cfg.adapter_id;
    ledger_seq = evt.ledger_seq;
    tx_hash = evt.tx_hash;
    event_index = evt.event_index;
    contract_id = evt.contract_id;
    reason = lit "fxdao_unexpected_event";
    raw_event = evt.raw_event;
    metadata = [];
  }

  unfoldable pub event_rows : List RawEventEnvelope → List QuarantineEvent
  event_rows [] = []
  event_rows (evt ∷ evts) =
      let rest = event_rows evts in
      if not (owns_contract a evt.contract_id) then rest else quarantine evt ∷ rest

  unfoldable pub transform : TransformInput → TransformOutput
  transform input = record (empty_output input.ledger_seq) {
    quarantine = event_rows input.events;
    vaults =
        sort_slice less_vault (elim input.state [ none ↦ [] | some s ↦ vault_rows input s.vaults ]);
  }
