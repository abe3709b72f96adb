-- ===== src/Blend/Positions.antt =====
-- blend/state.go: the positions of a user in a pool, from the entry that the ledger has for them, and
-- the report of the amounts that resolve to no reserve.
pub mod Identity
pub mod Resolves
pub mod Apart
pub mod Reports
pub mod Lapses
use lidapters.Common.{
  ◌≡◌, Bool, true, false, not, ◌||◌, Option, none, some, List, [], ◌∷◌, ◌++◌, if◌then◌else◌,
}
use lidapters.Common.Int.{ℤ, pos, ltb_ℤ}
use lidapters.Common.Str.{Str, lit, eq_str, lt_str}
use lidapters.Common.Text.{has_suffix}
use lidapters.Common.Dict.{Dict, lookup, insert, delete, values}
use lidapters.Common.IntDict.{find_int, eq_ℤ}
use lidapters.Common.Sort.{sort_slice}
use lidapters.Common.Lex.{lex, by_text}
use lidapters.Xdr.{Xdr}
use lidapters.Bindings.State.{ContractDataChange, DirtyPosition, DecodeDiagnostic, upsert, removal}
use lidapters.Blend.Types.{
  UserReservePosition, PendingUserPosition, position_type_supply, position_type_collateral,
  position_type_liability,
}
use lidapters.Blend.Values.{
  sc_int32, sc_int_string, sc_map_fields, field_of, variant_address, decode_sc_val_base64,
}
use lidapters.Blend.Reserves.{PoolBuilder}

pub record PendingUserPositions (V : Type 0) : Type 0 where
  pub pool_contract : Str
  pub user : Str
  pub positions : V
  pub value_xdr : Str
  pub archived : Bool
  pub archived_ledger_seq : ℤ

pub record UserIdentity : Type 0 where
  pub address : Str
  pub pool : Str

unfoldable pub typed_user_entity_key : Str → Str → Str
typed_user_entity_key address pool_id = address ++ (lit "|" ++ pool_id)

unfoldable pub pending_out : {V : Type 0} → PendingUserPositions V → PendingUserPosition
pending_out p = record {
  address = p.user;
  pool_contract_id = p.pool_contract;
  positions_xdr = p.value_xdr;
  archived = p.archived;
  archived_ledger_seq = p.archived_ledger_seq;
}

-- What a walk over a user's amounts gives: the positions, and the reports for the sink.
pub record Block : Type 0 where
  pub positions : List UserReservePosition
  pub diagnostics : List DecodeDiagnostic

abbrev pub no_block : Block
no_block = record { positions = []; diagnostics = [] }

abbrev pub join : Block → Block → Block
join a b = record {
  positions = a.positions ++ b.positions;
  diagnostics = a.diagnostics ++ b.diagnostics;
}

module _ {V : Type 0} where
  unfoldable pub skip : ℤ → PoolBuilder → PendingUserPositions V → Str → ℤ → Str → DecodeDiagnostic
  skip seq pool p kind index amount =
      let diag = λ (code : Str) (ids : List Str).
        (let d : DecodeDiagnostic = record {
          code = code;
          ledger_seq = seq;
          pool_contract_id = p.pool_contract;
          address = p.user;
          position_type = kind;
          reserve_index = index;
          amount_raw = amount;
          candidate_asset_ids = ids;
        } in
          d) in
      elim (find_int index pool.ambiguous_by_index) [
        | some ids ↦ diag (lit "duplicate_reserve_index") ids
        | none ↦ diag (lit "unmapped_reserve_index") pool.unknown_index_assets
      ]

  unfoldable pub position_of : PendingUserPositions V → Str → Str → Str → UserReservePosition
  position_of p kind amount asset =
      let debt = eq_str kind position_type_liability in
      record {
        address = p.user;
        pool_contract_id = p.pool_contract;
        asset_id = asset;
        position_type = kind;
        b_tokens_raw = if debt then [] else amount;
        d_tokens_raw = if debt then amount else [];
        archived = p.archived;
        archived_ledger_seq = p.archived_ledger_seq;
      }

  -- A sink is the ledger that its reports carry; there is none where nothing is reported.
  unfoldable pub add_leg :
      PoolBuilder → PendingUserPositions V → Str → Option ℤ → ℤ → Str → Block → Block
  add_leg pool p kind sink index amount rest = elim (find_int index pool.reserve_by_index) [
    | some asset ↦ record rest { positions = position_of p kind amount asset ∷ rest.positions }
    | none ↦ elim sink [
      | none ↦ rest
      | some seq ↦ record rest {
        diagnostics = skip seq pool p kind index amount ∷ rest.diagnostics;
      }
    ]
  ]

module _ (x : Xdr) where
  open x use {ScVal, get_map}

  abbrev pub Pending : Type 0
  Pending = PendingUserPositions ScVal

  -- The index and the amount of an entry; there are none where it is skipped without a report.
  unfoldable pub leg_of : ScVal × ScVal → Option (ℤ × Str)
  leg_of (k, v) = elim (sc_int32 x k) [
    | none ↦ none
    | some index ↦ elim (sc_int_string x v) [
      | none ↦ none
      | some amount ↦ if eq_str amount (lit "0") then none else some (index, amount)
    ]
  ]

  unfoldable pub add_entry : PoolBuilder → Pending → Str → Option ℤ → ScVal × ScVal → Block → Block
  add_entry pool p kind sink e rest = elim (leg_of e) [
    | none ↦ rest
    | some (index, amount) ↦ add_leg pool p kind sink index amount rest
  ]

  unfoldable pub entry_positions :
      PoolBuilder → Pending → Str → Option ℤ → List (ScVal × ScVal) → Block
  entry_positions pool p kind sink [] = no_block
  entry_positions pool p kind sink (e ∷ es) =
      add_entry pool p kind sink e (entry_positions pool p kind sink es)

  -- The entries of a map; a nil one has none.
  unfoldable pub entries_of : ScVal → List (ScVal × ScVal)
  entries_of v = elim (get_map v) [ some (some es) ↦ es | _ ↦ [] ]

  unfoldable pub positions_from_map : PoolBuilder → Pending → ScVal → Str → Option ℤ → Block
  positions_from_map pool p v kind sink = entry_positions pool p kind sink (entries_of v)

  -- The value of one of the three maps of an entry.
  unfoldable pub part : Pending → Str → ScVal
  part p name = field_of x (sc_map_fields x p.positions) name

  unfoldable pub build_user_positions_for_pending : PoolBuilder → Pending → Option ℤ → Block
  build_user_positions_for_pending pool p sink =
      join (positions_from_map pool p (part p (lit "supply")) position_type_supply sink) (
        join (positions_from_map pool p (part p (lit "collateral")) position_type_collateral sink)
          (positions_from_map pool p (part p (lit "liabilities")) position_type_liability sink))

  -- What `apply` and `applyDelete` write of the builder for an entry `Positions(user)`. The state
  -- deltas that they also append are output only, and are left out.
  pub record Writes : Type 0 where
    pub pending_pos : Dict Pending
    pub dirty_users : Dict UserIdentity

  abbrev pub mark : Str → Str → Writes → Writes
  mark user pool w = record w {
    dirty_users =
        insert (typed_user_entity_key user pool) (record { address = user; pool = pool })
          w.dirty_users;
  }

  unfoldable pub store : Pending → Writes → Writes
  store p w = record w {
    pending_pos = insert (typed_user_entity_key p.user p.pool_contract) p w.pending_pos;
  }

  abbrev pub live_entry : Str → Str → ScVal → Str → Pending
  live_entry user pool value text = record {
    pool_contract = pool;
    user = user;
    positions = value;
    value_xdr = text;
    archived = false;
    archived_ledger_seq = pos 0;
  }

  -- The case "Positions" of `apply`, for the decoded value and its text.
  unfoldable pub apply_positions : Str → List ScVal → ScVal → Str → Writes → Writes
  apply_positions pool args value text w = elim (variant_address x args) [
    | none ↦ w
    | some user ↦ mark user pool (store (live_entry user pool value text) w)
  ]

  unfoldable pub is_explicit_on_chain_delete : Str → Bool
  is_explicit_on_chain_delete type = has_suffix type (lit "Removed")

  -- The zero value of an archived entry, `value` being that of `xdr.ScVal`.
  abbrev pub archive : Str → Str → ℤ → ScVal → Str → Pending
  archive user pool seq value text = record (live_entry user pool value text) {
    archived = true;
    archived_ledger_seq = seq;
  }

  -- The entry that a lapse leaves; there is none where nothing is known of it.
  unfoldable pub archived_entry : Str → Str → ℤ → Option Str → Option Pending → Option Pending
  archived_entry user pool seq (some text) prior = elim (decode_sc_val_base64 x text) [
    | some value ↦ some (archive user pool seq value text)
    | none ↦ elim prior [
      | some old ↦ some (archive user pool seq old.positions old.value_xdr)
      | none ↦ some (archive user pool seq x.nil_val [])
    ]
  ]
  archived_entry user pool seq none prior = elim prior [
    | some old ↦ some (archive user pool seq old.positions old.value_xdr)
    | none ↦ none
  ]

  abbrev pub store_some : Option Pending → Writes → Writes
  store_some none w = w
  store_some (some p) w = store p w

  abbrev pub drop_pending : Str → Writes → Writes
  drop_pending k w = record w { pending_pos = delete k w.pending_pos }

  -- The case "Positions" of `applyDelete` for a user: a real removal purges the entry, and a lapse
  -- or an eviction archives it.
  unfoldable pub lapse_positions : ContractDataChange → Str → ℤ → Writes → Writes
  lapse_positions c user seq w =
      let k = typed_user_entity_key user c.contract_id in
      if is_explicit_on_chain_delete c.change_type
      then drop_pending k (mark user c.contract_id w)
      else store_some (archived_entry user c.contract_id seq c.value_xdr (lookup k w.pending_pos))
          (mark user c.contract_id w)

  unfoldable pub apply_delete_positions : ContractDataChange → List ScVal → ℤ → Writes → Writes
  apply_delete_positions c args seq w = elim (variant_address x args) [
    | none ↦ w
    | some user ↦ lapse_positions c user seq w
  ]

  abbrev pub less_dirty : DirtyPosition → DirtyPosition → Bool
  less_dirty = lex (λ d. d.address) (by_text (λ d. d.pool_contract_id))

  unfoldable pub dirty_position : Dict Pending → Str → UserIdentity → DirtyPosition
  dirty_position pending k i = record {
    address = i.address;
    pool_contract_id = i.pool;
    kind = elim (lookup k pending) [ some p ↦ upsert | none ↦ removal ];
  }

  dirty_positions : Dict Pending → Dict UserIdentity → List DirtyPosition
  dirty_positions pending [] = []
  dirty_positions pending ((k, i) ∷ dirty) =
      dirty_position pending k i ∷ dirty_positions pending dirty

  unfoldable pub finalize_dirty_positions : Dict UserIdentity → Dict Pending → List DirtyPosition
  unfolding dirty_positions
  finalize_dirty_positions dirty pending = sort_slice less_dirty (dirty_positions pending dirty)
