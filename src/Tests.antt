-- ===== src/Tests.antt =====
-- A small codec in place of the Stellar SDK, and the ledgers on which the theorems are applied.
pub mod Pairs
pub mod Rows
pub mod Vaults
pub mod Prices
pub mod Table
pub mod Amm
pub mod Feeds
pub mod Positions
use lidapters.Common.{
  All, ℕ, suc, ◌+◌, ◌<◌, ◌≡◌, Bool, true, false, Option, none, some, List, [], ◌∷◌, arith,
}
use lidapters.Common.Int.{ℤ, pos}
use lidapters.Common.Str.{Str, lit}
use lidapters.Common.Dict.{Dict, lookup}
use lidapters.Xdr.{Xdr, ScAddress, Parts128, ScInstance, EventBody}
use lidapters.Bindings.State.{
  ContractDataChange, LedgerState, AmmPoolState, AmmPositionState, VaultState, empty_state,
  zero_pool, zero_position, zero_vault,
}
use lidapters.Bindings.Rows.{RawEventEnvelope, TransformInput}

mutual
  pub data Val : Type 0 where
    void : Val
    sym_val str_val : Str → Val
    num : ℕ → Val
    i32_val : ℤ → Val
    i128_val u128_val : ℕ → Val
    account_val contract_val : Str → Val
    vec : Vals → Val
    map_val : Entries → Val

  pub data Vals : Type 0 where
    no_more : Vals
    more : Val → Vals → Vals

  pub data Entries : Type 0 where
    no_entry : Entries
    entry : Val → Val → Entries → Entries

abbrev elements : Vals → List Val
elements no_more = []
elements (more v vs) = v ∷ elements vs

abbrev pairs_of : Entries → List (Val × Val)
pairs_of no_entry = []
pairs_of (entry k v es) = (k, v) ∷ pairs_of es

abbrev mutual
  depth_of : Val → ℕ
  depth_of (vec vs) = suc (depths vs)
  depth_of _ = 0

  depths : Vals → ℕ
  depths no_more = 0
  depths (more v vs) = depth_of v + depths vs

abbrev vec_of : Val → Option (Option (List Val))
vec_of (vec vs) = some (some (elements vs))
vec_of _ = none

deeper : (n : ℕ) (vs : Vals) → depths vs < n → All (λ x. depth_of x < n) (elements vs)
deeper n no_more h = tt
deeper n (more w ws) h = (omega (arith, h), deeper n ws (omega (arith, h)))

pub vec_deeper :
    (v : Val) (xs : List Val) → vec_of v ≡ some (some xs) → All (λ x. depth_of x < depth_of v) xs
vec_deeper (vec vs) xs h =
    let e : elements vs ≡ xs = cc in rw (← e) (deeper (suc (depths vs)) vs (omega arith))
vec_deeper void xs h = cc
vec_deeper (sym_val s) xs h = cc
vec_deeper (str_val s) xs h = cc
vec_deeper (num n) xs h = cc
vec_deeper (i32_val n) xs h = cc
vec_deeper (i128_val n) xs h = cc
vec_deeper (u128_val n) xs h = cc
vec_deeper (account_val s) xs h = cc
vec_deeper (contract_val s) xs h = cc
vec_deeper (map_val es) xs h = cc

-- The symbol `tag` and a value, in a vector.
abbrev pub tagged : Str → Val → Val
tagged tag v = vec (more (sym_val tag) (more v no_more))

abbrev pub vault_value : Val
vault_value = map_val (
    entry (sym_val (lit "index")) (u128_val 3) (
      entry (sym_val (lit "total_collateral")) (u128_val 900)
        (entry (sym_val (lit "total_debt")) (u128_val 400) no_entry)))

abbrev pub registry_key : Val
registry_key = tagged (lit "PairAddressesNIndexed") (num 0)

-- What the texts of the ledgers below decode to.
abbrev table : Dict Val
table =
    (lit "registry", registry_key)
    ∷ (lit "pair Q", contract_val (lit "Q"))
    ∷ (lit "balance of ann", tagged (lit "Balance") (account_val (lit "ann")))
    ∷ (lit "ten", i128_val 10)
    ∷ (lit "total", sym_val (lit "TotalShares"))
    ∷ (lit "range of ann", tagged (lit "Position") (account_val (lit "ann")))
    ∷ (
      lit "vault of ann",
      tagged (lit "Vault")
          (vec (more (account_val (lit "ann")) (more (sym_val (lit "USD")) no_more))),
    )
    ∷ (lit "vault", vault_value)
    ∷ []

abbrev events : Dict (EventBody Val)
events =
    (
      lit "swap",
      record {
        topics = str_val (lit "SoroswapPair") ∷ sym_val (lit "swap") ∷ [];
        payload = map_val (entry (sym_val (lit "to")) (account_val (lit "ann")) no_entry);
      },
    )
    ∷ (
      lit "trade",
      record {
        topics =
            sym_val (lit "trade")
            ∷ contract_val (lit "T0")
            ∷ contract_val (lit "T1")
            ∷ account_val (lit "ann")
            ∷ [];
        payload = vec (more (i128_val 5) no_more);
      },
    )
    ∷ (lit "sync of a token", record { topics = sym_val (lit "transfer") ∷ []; payload = void })
    ∷ []

unfoldable pub decode_text : Str → Option Val
unfolding lookup
decode_text s = lookup s table

unfoldable pub decode_event : Str → Option (Option (EventBody Val))
unfolding lookup
decode_event s = elim (lookup s events) [ none ↦ none | some e ↦ some (some e) ]

abbrev pub codec : Xdr
codec = record {
  ScVal = Val;
  nil_val = void;
  get_sym = λ v. elim v [ sym_val s ↦ some s | _ ↦ none ];
  get_str = λ v. elim v [ str_val s ↦ some s | _ ↦ none ];
  get_vec = vec_of;
  get_map = λ v. elim v [ map_val es ↦ some (some (pairs_of es)) | _ ↦ none ];
  get_address = λ v. elim v [
    | account_val s ↦ some (ScAddress.account s)
    | contract_val s ↦ some (ScAddress.contract s)
    | _ ↦ none
  ];
  get_i128 = λ v. elim v [ i128_val n ↦ some (record { hi = 0; lo = n }) | _ ↦ none ];
  get_u128 = λ v. elim v [ u128_val n ↦ some (record { hi = 0; lo = n }) | _ ↦ none ];
  get_u64 = λ v. none;
  get_u32 = λ v. elim v [ num n ↦ some n | _ ↦ none ];
  get_u256 = λ v. none;
  get_i64 = λ v. none;
  get_i32 = λ v. elim v [ i32_val n ↦ some n | _ ↦ none ];
  get_timepoint = λ v. none;
  get_duration = λ v. none;
  get_bool = λ v. none;
  get_bytes = λ v. none;
  has_type = λ v. elim v [ void ↦ false | _ ↦ true ];
  get_instance = λ v. none;
  depth = depth_of;
  depth_elements = vec_deeper;
  base64_decode = λ s. some s;
  unmarshal_val = decode_text;
  unmarshal_event = decode_event;
  encode_contract = λ s. s;
  encode_account = λ s. s;
  hex_string = λ s. s;
  sha256_hex = λ s. s;
}

-- A change of an entry of a contract.
abbrev pub change : Str → Str → Option Str → Str → ContractDataChange
change id key value type = record {
  contract_id = id;
  key_xdr = key;
  value_xdr = value;
  durability = lit "persistent";
  change_type = type;
  live = true;
  live_until_ledger_seq = none;
  last_modified_ledger = 7;
}

abbrev pub pool : AmmPoolState
pool = record zero_pool {
  protocol = lit "soroswap";
  contract_id = lit "P";
  pool_type = lit "constant_product";
  tokens =
      record { asset_id = lit "T0"; decimals = pos 7; reserve_raw = lit "100" }
      ∷ record { asset_id = lit "T1"; decimals = pos 7; reserve_raw = lit "55" }
      ∷ [];
  total_shares_raw = lit "30";
}

abbrev pub position : AmmPositionState
position = record zero_position {
  address = lit "ann";
  pool_contract_id = lit "P";
  shares_raw = lit "20";
  had_shares = true;
}

abbrev pub vault : VaultState
vault = record zero_vault {
  protocol = lit "fxdao";
  contract_id = lit "V";
  account = lit "ann";
  denomination = lit "USD";
  debt_raw = lit "400";
  had_vault = true;
}

abbrev pub before : LedgerState
before = record empty_state {
  amm_pools = pool ∷ [];
  amm_positions = position ∷ [];
  vaults = vault ∷ [];
}

abbrev pub event : Str → Str → RawEventEnvelope
event id raw = record {
  schema_version = [];
  message_type = [];
  subject = [];
  ledger_seq = pos 7;
  tx_hash = lit "tx";
  event_index = pos 0;
  contract_id = id;
  topic = [];
  raw_event = raw;
  source_name = [];
  close_time = pos 1000;
  metadata = [];
}

abbrev pub input : TransformInput
input = record {
  ledger_seq = pos 7;
  close_time = pos 1000;
  events =
      event (lit "P") (lit "swap")
      ∷ event (lit "P") (lit "garbage")
      ∷ event (lit "V") (lit "swap")
      ∷ [];
  state = some before;
}
