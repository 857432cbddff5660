-- ===== src/Node/Storage.antt =====
-- packages/node/src/storage/mod.rs: the types of the storage contract.
pub mod Interface
use symantic_weft.Prelude.{ℕ, Option, List, String}
use symantic_weft.Platform.{Platform}
use symantic_weft.Core.Types.{UnitType, Visibility}

pub data StorageError : Type 0 where
  not_found : StorageError
  conflict : String → StorageError
  internal : String → StorageError

pub record UnitFilter : Type 0 where
  pub unit_types : List UnitType
  pub author : Option String
  pub since : Option String
  pub after : Option String
  pub limit : ℕ
  pub visibilities : List Visibility
  pub network_for_authors : List String

pub record ReputationStats (P : Platform) : Type 0 where
  pub mean : P.f32.Carrier
  pub stddev : P.f32.Carrier
