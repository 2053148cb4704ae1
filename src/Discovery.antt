-- ===== src/Discovery.antt =====
-- The types of src/discovery.rs.
use wasmcloud_operator.Base.{String, Option, none, List, []}
use wasmcloud_operator.Kube.Objects.{ObjectMeta}

-- `ListMeta` of kube, with the field that the operator sets.
pub record ListMeta : Type 0 where
  pub resource_version : Option String

abbrev pub default_list_meta : ListMeta
default_list_meta = record { resource_version = none }

pub record GroupVersionKind : Type 0 where
  pub group : String
  pub version : String
  pub kind : String

pub data DiscoveryFreshness : Type 0 where
  current stale : DiscoveryFreshness

pub data ResourceScope : Type 0 where
  cluster namespaced : ResourceScope

pub record ApiSubresourceDiscovery : Type 0 where
  pub subresource : String
  pub response_kind : GroupVersionKind
  pub accepted_types : List GroupVersionKind
  pub verbs : List String

pub record ApiResourceDiscovery : Type 0 where
  pub resource : String
  pub response_kind : GroupVersionKind
  pub scope : ResourceScope
  pub singular_resource : String
  pub verbs : List String
  pub short_names : List String
  pub categories : List String
  pub subresources : List ApiSubresourceDiscovery

pub record ApiVersionDiscovery : Type 0 where
  pub version : String
  pub resources : List ApiResourceDiscovery
  pub freshness : DiscoveryFreshness

pub record ApiGroupDiscovery : Type 0 where
  pub kind : Option String
  pub api_version : Option String
  pub metadata : ObjectMeta
  pub versions : List ApiVersionDiscovery

pub record ApiGroupDiscoveryList : Type 0 where
  pub kind : String
  pub api_version : String
  pub metadata : ListMeta
  pub items : List ApiGroupDiscovery

-- `impl Default for APIGroupDiscoveryList`
unfoldable pub default_discovery : ApiGroupDiscoveryList
default_discovery = record {
  api_version = "apidiscovery.k8s.io/v2beta1";
  kind = "APIGroupDiscoveryList";
  metadata = default_list_meta;
  items = [];
}
