-- ===== src/Bindings/Config.antt =====
-- bindings/config.go: the configuration records that a host stores, and the tables that it declares
-- for them.
use lidapters.Common.{ℕ, Bool, List}
use lidapters.Common.Str.{Str}

-- The payload is the text that the adapter has serialized; it is opaque to the host.
pub record ConfigRecord : Type 0 where
  pub kind : Str
  pub entity_key : Str
  pub ledger : ℕ
  pub payload : Str
  pub removed : Bool

pub record ConfigView : Type 0 where
  pub name : Str
  pub body : Str

pub record ConfigGeneratedColumn : Type 0 where
  pub name : Str
  pub sql_type : Str
  pub expr : Str

pub record ConfigIndex : Type 0 where
  pub name : Str
  pub columns : List Str

pub record ConfigTableSchema : Type 0 where
  pub kind : Str
  pub table : Str
  pub generated : List ConfigGeneratedColumn
  pub indexes : List ConfigIndex
  pub views : List ConfigView
