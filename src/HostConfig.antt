-- ===== src/HostConfig.antt =====
-- crates/types/src/v1alpha1/wasmcloud_host_config.rs: the custom resource WasmCloudHostConfig.
use wasmcloud_operator.Base.{ℕ, String, Bool, Option, List, unwrap_or, false}
use wasmcloud_operator.Base.BTreeMap.{BTreeMap}
use wasmcloud_operator.Kube.Objects.{OwnerReference}
use wasmcloud_operator.Kube.Pods.{Container, PodSpec, ResourceRequirements, Volume}

pub record PolicyService : Type 0 where
  pub topic : Option String
  pub timeout_ms : Option ℕ
  pub changes_topic : Option String

pub record WasmCloudHostConfigResources : Type 0 where
  pub nats : Option ResourceRequirements
  pub wasmcloud : Option ResourceRequirements

pub record ContainerTemplateAdditions : Type 0 where
  pub nats : Option Container
  pub wasmcloud : Option Container

pub record KubernetesSchedulingOptions : Type 0 where
  pub daemonset : Bool
  pub resources : Option WasmCloudHostConfigResources
  pub pod_template_additions : Option PodSpec
  pub container_template_additions : Option ContainerTemplateAdditions

pub data OtelProtocol : Type 0 where
  grpc http : OtelProtocol

-- `impl Display for OtelProtocol`
unfoldable pub otel_to_string : OtelProtocol → String
otel_to_string grpc = "grpc"
otel_to_string http = "http"

pub record OtelSignalConfiguration : Type 0 where
  pub enable : Option Bool
  pub endpoint : Option String

pub record ObservabilityConfiguration : Type 0 where
  pub enable : Bool
  pub endpoint : String
  pub protocol : Option OtelProtocol
  pub logs : Option OtelSignalConfiguration
  pub metrics : Option OtelSignalConfiguration
  pub traces : Option OtelSignalConfiguration

pub record WasmCloudHostCertificates : Type 0 where
  pub authorities : Option (List Volume)

pub record WasmCloudHostConfigSpec : Type 0 where
  pub host_replicas : ℕ
  pub issuers : Option (List String)
  pub lattice : String
  pub host_labels : Option (BTreeMap String)
  pub version : String
  pub image : Option String
  pub nats_leaf_image : Option String
  pub secret_name : Option String
  pub enable_structured_logging : Option Bool
  pub registry_credentials_secret : Option String
  pub control_topic_prefix : Option String
  pub leaf_node_domain : String
  pub config_service_enabled : Bool
  pub nats_address : String
  pub nats_client_port : ℕ
  pub nats_leafnode_port : ℕ
  pub jetstream_domain : String
  pub allow_latest : Bool
  pub allowed_insecure : Option (List String)
  pub log_level : String
  pub policy_service : Option PolicyService
  pub scheduling_options : Option KubernetesSchedulingOptions
  pub observability : Option ObservabilityConfiguration
  pub certificates : Option WasmCloudHostCertificates
  pub secrets_topic_prefix : Option String
  pub max_linear_memory_bytes : Option ℕ

pub record AppStatus : Type 0 where
  pub name : String
  pub version : String

pub record WasmCloudHostConfigStatus : Type 0 where
  pub apps : List AppStatus
  pub app_count : ℕ

-- The resource that the `CustomResource` derive makes of the specification. `name_any` is what
-- kube's accessor of that name gives, and `owner` what `controller_owner_ref` gives.
pub record WasmCloudHostConfig : Type 0 where
  pub name : Option String
  pub namespace : Option String
  pub name_any : String
  pub owner : Option OwnerReference
  pub is_deleted : Bool
  pub spec : WasmCloudHostConfigSpec
  pub status : Option WasmCloudHostConfigStatus

-- The fields of a specification that may be left out, because serde has a default for them.
pub record OmittedFields : Type 0 where
  pub host_replicas : Option ℕ
  pub leaf_node_domain : Option String
  pub config_service_enabled : Option Bool
  pub nats_address : Option String
  pub nats_client_port : Option ℕ
  pub nats_leafnode_port : Option ℕ
  pub jetstream_domain : Option String
  pub allow_latest : Option Bool
  pub log_level : Option String

abbrev pub default_host_replicas : ℕ
default_host_replicas = 1

abbrev pub default_jetstream_domain : String
default_jetstream_domain = "default"

abbrev pub default_nats_address : String
default_nats_address = "nats://nats.default.svc.cluster.local"

abbrev pub default_leaf_node_domain : String
default_leaf_node_domain = "leaf"

abbrev pub default_log_level : String
default_log_level = "INFO"

abbrev pub default_nats_port : ℕ
default_nats_port = 4222

abbrev pub default_nats_leafnode_port : ℕ
default_nats_leafnode_port = 7422

-- What serde makes of the fields that may be left out; the other fields are those of `spec`.
unfoldable pub with_defaults : OmittedFields → WasmCloudHostConfigSpec → WasmCloudHostConfigSpec
with_defaults fields spec = record spec {
  host_replicas = unwrap_or fields.host_replicas default_host_replicas;
  leaf_node_domain = unwrap_or fields.leaf_node_domain default_leaf_node_domain;
  config_service_enabled = unwrap_or fields.config_service_enabled false;
  nats_address = unwrap_or fields.nats_address default_nats_address;
  nats_client_port = unwrap_or fields.nats_client_port default_nats_port;
  nats_leafnode_port = unwrap_or fields.nats_leafnode_port default_nats_leafnode_port;
  jetstream_domain = unwrap_or fields.jetstream_domain default_jetstream_domain;
  allow_latest = unwrap_or fields.allow_latest false;
  log_level = unwrap_or fields.log_level default_log_level;
}
