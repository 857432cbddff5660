-- ===== src/Core/Types.antt =====
-- packages/core/src/types.rs: the data of a semantic unit.
pub mod Names
pub mod Equality
use symantic_weft.Prelude.{ℕ, Bool, true, false, Option, none, some, List, String}
use symantic_weft.Prelude.Map.{Map}
use symantic_weft.Platform.{Platform}

pub data UnitType : Type 0 where
  assertion question inference challenge constraint : UnitType

pub data RelType : Type 0 where
  supports rebuts derives_from questions refines notifies : RelType

pub data Visibility : Type 0 where
  public network limited : Visibility

-- `#[derive(PartialEq)]`
abbrev pub unit_type_eq : UnitType → UnitType → Bool
unit_type_eq assertion assertion = true
unit_type_eq question question = true
unit_type_eq inference inference = true
unit_type_eq challenge challenge = true
unit_type_eq constraint constraint = true
unit_type_eq _ _ = false

abbrev pub visibility_eq : Visibility → Visibility → Bool
visibility_eq public public = true
visibility_eq network network = true
visibility_eq limited limited = true
visibility_eq _ _ = false

abbrev pub rel_type_eq : RelType → RelType → Bool
rel_type_eq supports supports = true
rel_type_eq rebuts rebuts = true
rel_type_eq derives_from derives_from = true
rel_type_eq questions questions = true
rel_type_eq refines refines = true
rel_type_eq notifies notifies = true
rel_type_eq _ _ = false

pub record Reference : Type 0 where
  pub id : String
  pub rel : RelType

pub data Source : Type 0 where
  uri : String → Source
  labeled : String → Option String → Source

pub record Proof : Type 0 where
  pub method : String
  pub created : String
  pub value : String

pub record SemanticUnit (P : Platform) : Type 0 where
  pub id : String
  pub unit_type : UnitType
  pub content : String
  pub created_at : String
  pub author : String
  pub confidence : Option P.f64.Carrier
  pub assumptions : Option (List String)
  pub source : Option Source
  pub references : Option (List Reference)
  pub visibility : Option Visibility
  pub audience : Option (List String)
  pub proof : Option Proof
  pub extensions : Map P.Value

module _ {P : Platform} where
  -- `SemanticUnit::new`, given the fresh id and the current time
  unfoldable pub new_unit : String → String → UnitType → String → String → SemanticUnit P
  new_unit fresh_id now unit_type content author = record {
    id = fresh_id;
    unit_type = unit_type;
    content = content;
    created_at = now;
    author = author;
    confidence = none;
    assumptions = none;
    source = none;
    references = none;
    visibility = none;
    audience = none;
    proof = none;
    extensions = List.[];
  }

  -- `unit.visibility.unwrap_or(Visibility::Public)`
  abbrev pub effective_visibility : SemanticUnit P → Visibility
  effective_visibility u = elim u.visibility [ none ↦ public | some v ↦ v ]
