-- ===== src/Xdr.antt =====
-- The third-party code that the adapters call: the Stellar SDK's XDR values (`xdr.ScVal` and its
-- accessors), address encoding (`strkey`), and the byte codecs and hash of Go's library that they
-- only pass values through. The adapters take one `Xdr` as a parameter.
use lidapters.Common.{ℕ, ◌<◌, ◌≡◌, Bool, Option, some, List, All}
use lidapters.Common.Int.{ℤ}
use lidapters.Common.Str.{Str}

-- The address kinds that the code tells apart; the payload is the raw 32 bytes.
pub data ScAddress : Type 0 where
  contract account : Str → ScAddress
  other : ScAddress

-- The 64-bit halves of a 128-bit integer. `hi` of a signed one is its bit pattern.
pub record Parts128 : Type 0 where
  pub hi : ℕ
  pub lo : ℕ

-- The 64-bit parts of an unsigned 256-bit integer, the highest first.
pub record Parts256 : Type 0 where
  pub hi_hi : ℕ
  pub hi_lo : ℕ
  pub lo_hi : ℕ
  pub lo_lo : ℕ

-- A contract instance: the hash of its executable, if that is a wasm, and its storage, if there.
pub record ScInstance (V : Type 0) : Type 0 where
  pub wasm_hash : Option Str
  pub storage : Option (List (V × V))

-- The topics and data of a version 0 contract event.
pub record EventBody (V : Type 0) : Type 0 where
  pub topics : List V
  pub payload : V

-- An accessor `v.GetX()` of Go, which returns a value and `ok`, is a function into `Option`. A
-- vector or map behind a nil pointer is `some none`.
pub record Xdr : Type 1 where
  pub ScVal : Type 0
  -- the zero value `xdr.ScVal{}`, which a missing map key gives
  pub nil_val : ScVal
  pub get_sym : ScVal → Option Str
  pub get_str : ScVal → Option Str
  pub get_vec : ScVal → Option (Option (List ScVal))
  pub get_map : ScVal → Option (Option (List (ScVal × ScVal)))
  pub get_address : ScVal → Option ScAddress
  pub get_i128 : ScVal → Option Parts128
  pub get_u128 : ScVal → Option Parts128
  pub get_u64 : ScVal → Option ℕ
  pub get_u32 : ScVal → Option ℕ
  pub get_u256 : ScVal → Option Parts256
  pub get_i64 : ScVal → Option ℤ
  pub get_i32 : ScVal → Option ℤ
  pub get_timepoint : ScVal → Option ℕ
  pub get_duration : ScVal → Option ℕ
  pub get_bool : ScVal → Option Bool
  pub get_bytes : ScVal → Option Str
  -- `v.Type != 0`: whether the type is another than ScvBool, whose tag is 0
  pub has_type : ScVal → Bool
  pub get_instance : ScVal → Option (ScInstance ScVal)
  -- how deep vectors nest in a value; a decoded value is finite
  pub depth : ScVal → ℕ
  pub depth_elements :
      (v : ScVal) (xs : List ScVal) → get_vec v ≡ some (some xs) → All (λ x. depth x < depth v) xs
  -- base64.StdEncoding.DecodeString
  pub base64_decode : Str → Option Str
  -- xdr.SafeUnmarshal into an `ScVal`
  pub unmarshal_val : Str → Option ScVal
  -- xdr.SafeUnmarshal into a `ContractEvent`, and the `V0` body of it
  pub unmarshal_event : Str → Option (Option (EventBody ScVal))
  -- strkey.MustEncode for the two version bytes
  pub encode_contract : Str → Str
  pub encode_account : Str → Str
  -- xdr.Hash.HexString
  pub hex_string : Str → Str
  -- hex.EncodeToString of sha256.Sum256
  pub sha256_hex : Str → Str
