-- ===== src/OpenApi.antt =====
-- The types of src/openapi.rs from which the OpenAPI document of the aggregated API is derived.
use wasmcloud_operator.Base.{ℕ, String, Option, List}
use wasmcloud_operator.Base.BTreeMap.{BTreeMap}
use wasmcloud_operator.Base.HashMap.{HashMap}
use wasmcloud_operator.Json.{Value}

pub record Metadata : Type 0 where
  pub name : String
  pub namespace : String
  pub annotations : BTreeMap String
  pub labels : BTreeMap String

pub record Policy : Type 0 where
  pub name : String
  pub properties : BTreeMap String
  pub policy_type : String

pub record ActorProperties : Type 0 where
  pub image : String

-- The configuration of a provider: a JSON value or a raw text.
pub data CapabilityConfig : Type 0 where
  json : Value → CapabilityConfig
  opaque : String → CapabilityConfig

pub record CapabilityProperties : Type 0 where
  pub image : String
  pub contract : String
  pub link_name : Option String
  pub config : Option CapabilityConfig

-- `Properties`, whose tag is the type of a component.
pub data Properties : Type 0 where
  actor : ActorProperties → Properties
  capability : CapabilityProperties → Properties

pub record LinkdefProperty : Type 0 where
  pub target : String
  pub values : Option (HashMap String String)

pub record Spread : Type 0 where
  pub name : String
  pub requirements : BTreeMap String
  pub weight : Option ℕ

pub record SpreadScalerProperty : Type 0 where
  pub replicas : ℕ
  pub spread : List Spread

-- `TraitProperty`, which has no tag.
pub data TraitProperty : Type 0 where
  linkdef : LinkdefProperty → TraitProperty
  spread_scaler : SpreadScalerProperty → TraitProperty
  custom : Value → TraitProperty

pub record Trait : Type 0 where
  pub trait_type : String
  pub properties : TraitProperty

pub record Component : Type 0 where
  pub name : String
  pub properties : Properties
  pub traits : Option (List Trait)

pub record Specification : Type 0 where
  pub components : List Component
  pub policies : List Policy

-- A manifest of the Open Application Model.
pub record Application : Type 0 where
  pub api_version : String
  pub kind : String
  pub metadata : Metadata
  pub spec : Specification
