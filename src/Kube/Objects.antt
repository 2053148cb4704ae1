-- ===== src/Kube/Objects.antt =====
-- The objects of k8s-openapi with the fields that the operator reads or sets. A field that a
-- literal of the source leaves to `..Default::default()` everywhere is left out.
use wasmcloud_operator.Base.{ℕ, String, Bool, Option, none, List}
use wasmcloud_operator.Base.BTreeMap.{BTreeMap}

-- `controller_owner_ref` of a resource.
pub record OwnerReference : Type 0 where
  pub kind : String
  pub name : String
  pub uid : String

pub record ObjectMeta : Type 0 where
  pub name : Option String
  pub namespace : Option String
  pub labels : Option (BTreeMap String)
  pub finalizers : Option (List String)
  pub managed_fields : Option (List String)
  pub owner_references : Option (List OwnerReference)

-- `ObjectMeta::default()`
abbrev pub default_meta : ObjectMeta
default_meta = record {
  name = none;
  namespace = none;
  labels = none;
  finalizers = none;
  managed_fields = none;
  owner_references = none;
}

pub record ServicePort : Type 0 where
  pub name : Option String
  pub port : ℕ
  pub protocol : Option String

pub record ServiceSpec : Type 0 where
  pub selector : Option (BTreeMap String)
  pub ports : Option (List ServicePort)

-- `owner` is what `controller_owner_ref` gives on the object, which the API server filled in.
pub record Service : Type 0 where
  pub metadata : ObjectMeta
  pub spec : Option ServiceSpec
  pub owner : Option OwnerReference

pub record Endpoint : Type 0 where
  pub addresses : List String
  pub ready : Option Bool
  pub serving : Option Bool

pub record EndpointSlice : Type 0 where
  pub metadata : ObjectMeta
  pub address_type : String
  pub endpoints : List Endpoint
  pub ports : Option (List ServicePort)

-- `pods` lists; a `PodIP` is its optional address.
pub record PodStatus : Type 0 where
  pub phase : Option String
  pub pod_ips : Option (List (Option String))

pub record Pod : Type 0 where
  pub status : Option PodStatus

-- `values` holds each entry's bytes, read as text where they are UTF-8.
pub record Secret : Type 0 where
  pub metadata : ObjectMeta
  pub values : Option (BTreeMap (Option String))

pub record ConfigMap : Type 0 where
  pub metadata : ObjectMeta
  pub values : Option (BTreeMap String)

pub record ServiceAccount : Type 0 where
  pub metadata : ObjectMeta

pub record PolicyRule : Type 0 where
  pub api_groups : Option (List String)
  pub resources : Option (List String)
  pub verbs : List String

pub record Role : Type 0 where
  pub metadata : ObjectMeta
  pub rules : Option (List PolicyRule)

pub record RoleRef : Type 0 where
  pub api_group : String
  pub kind : String
  pub name : String

pub record Subject : Type 0 where
  pub kind : String
  pub name : String
  pub namespace : Option String

pub record RoleBinding : Type 0 where
  pub metadata : ObjectMeta
  pub role_ref : RoleRef
  pub subjects : Option (List Subject)
