-- ===== src/Manifest/Types.antt =====
-- The manifest types of the wadm_types crate, with the fields that the operator reads.
use wasmcloud_operator.Base.{String, Option, List}
use wasmcloud_operator.Base.HashMap.{HashMap}
use wasmcloud_operator.Base.BTreeMap.{BTreeMap}

pub record ConfigProperty : Type 0 where
  pub name : String
  pub properties : Option (HashMap String String)

pub record ConfigDefinition : Type 0 where
  pub config : List ConfigProperty

pub record LinkProperty : Type 0 where
  pub namespace : String
  pub package_name : String
  pub interfaces : List String
  pub source : Option ConfigDefinition

pub record Spread : Type 0 where
  pub requirements : BTreeMap String

pub record SpreadScalerProperty : Type 0 where
  pub spread : List Spread

pub data TraitProperty : Type 0 where
  link : LinkProperty → TraitProperty
  spread_scaler : SpreadScalerProperty → TraitProperty
  custom : TraitProperty

pub record Trait : Type 0 where
  pub trait_type : String
  pub properties : TraitProperty

-- The image of a component or of a capability.
pub data Properties : Type 0 where
  component : String → Properties
  capability : String → Properties

pub record Component : Type 0 where
  pub name : String
  pub properties : Properties
  pub traits : Option (List Trait)

pub record Manifest : Type 0 where
  pub name : String
  pub annotations : BTreeMap String
  pub components : List Component
