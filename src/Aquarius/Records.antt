-- ===== src/Aquarius/Records.antt =====
-- aquarius/config_state.go: the configuration records of the pools, and the state that is hydrated
-- from them. The JSON codec of Go's library is a parameter.
pub mod RoundTrip
use lidapters.Common.{
  Bool, true, false, not, ◌&&◌, ◌||◌, Option, none, some, List, [], ◌∷◌, ◌++◌, if◌then◌else◌,
}
use lidapters.Common.Int.{ℤ}
use lidapters.Common.Str.{Str, lit, eq_str}
use lidapters.Common.Dict.{StrSet, mem, add}
use lidapters.Bindings.Config.{ConfigRecord, ConfigTableSchema}
use lidapters.Bindings.State.{AmmPoolState, LedgerState, ContractDataChange, empty_state}
use lidapters.Aquarius.Config.{Adapter, register_contracts}
use lidapters.Aquarius.Removal.{to_uint32}

-- `json.Marshal` and `json.Unmarshal` of a pool; `none` is an error.
pub record PoolJson : Type 0 where
  pub marshal : AmmPoolState → Str
  pub unmarshal : Str → Option AmmPoolState

abbrev pub pool_kind : Str
pool_kind = lit "aquarius.pool"

unfoldable pub config_schema : List ConfigTableSchema
config_schema =
    record {
      kind = pool_kind;
      table = lit "aquarius_pool_config";
      generated =
          record {
            name = lit "pool_type";
            sql_type = lit "text";
            expr = lit "payload->>'PoolType'";
          }
          ∷ record {
            name = lit "wasm_hash";
            sql_type = lit "text";
            expr = lit "payload->>'WasmHash'";
          }
          ∷ [];
      indexes = [];
      views = [];
    }
    ∷ []

-- The contracts of the changes, as a set.
unfoldable pub touched_onto : StrSet → List ContractDataChange → StrSet
touched_onto s [] = s
touched_onto s (c ∷ cs) = touched_onto (add c.contract_id s) cs

module _ (json : PoolJson) where
  open json use {marshal, unmarshal}

  unfoldable pub pool_records : Adapter → StrSet → ℤ → List AmmPoolState → List ConfigRecord
  pool_records a touched seq [] = []
  pool_records a touched seq (p ∷ ps) =
      let rest = pool_records a touched seq ps in
      if not (eq_str p.protocol a.cfg.protocol)
      then rest
      else if not (mem p.contract_id touched)
      then rest
      else record {
        kind = pool_kind;
        entity_key = p.contract_id;
        ledger = to_uint32 seq;
        payload = marshal p;
        removed = false;
      }
        ∷ rest

  unfoldable pub config_records :
      Adapter → Option LedgerState → List ContractDataChange → ℤ → List ConfigRecord
  config_records a next changes seq = elim next [
    | none ↦ []
    | some s ↦ pool_records a (touched_onto [] changes) seq s.amm_pools
  ]

  -- The loop, from an adapter and a state on. An error ends it, and the adapter keeps what was
  -- registered before.
  unfoldable pub hydrate_onto :
      Adapter → LedgerState → List ConfigRecord → Adapter × Option LedgerState
  hydrate_onto a s [] = (a, some s)
  hydrate_onto a s (r ∷ rs) = elim (not (eq_str r.kind pool_kind) || r.removed) [
    | true ↦ hydrate_onto a s rs
    | false ↦ elim (unmarshal r.payload) [
      | none ↦ (a, none)
      | some p ↦
          hydrate_onto (register_contracts a (p.contract_id ∷ []))
            (record s { amm_pools = s.amm_pools ++ p ∷ [] }) rs
    ]
  ]

  -- The adapter that the call leaves, and the state or an error.
  unfoldable pub hydrate_config : Adapter → List ConfigRecord → Adapter × Option LedgerState
  hydrate_config a rs = hydrate_onto a empty_state rs
