-- ===== src/Tests/Samples.antt =====
-- A host configuration, a manifest, and a world that answers every call.
use wasmcloud_operator.Base.{◌==◌, true, false, none, some, [], ◌∷◌, if◌then◌else◌}
use wasmcloud_operator.HostConfig.{WasmCloudHostConfigSpec, WasmCloudHostConfig}
use wasmcloud_operator.Kube.Objects.{OwnerReference, default_meta, Service, Secret, Pod}
use wasmcloud_operator.Kube.World.{ModelSummary, deployed, NatsClient, reply, World, answer}
use wasmcloud_operator.Kube.Pods.{Volume}
use wasmcloud_operator.Manifest.Types.{link, spread_scaler, component, capability, Manifest}
use wasmcloud_operator.Services.Types.{ServiceParams}
use wasmcloud_operator.Controller.Types.{DockerConfigJson, Crates}

abbrev pub client : NatsClient
client = record { address = "nats://nats:4222"; creds = none }

abbrev pub owner : OwnerReference
owner = record { kind = "WasmCloudHostConfig"; name = "hosts"; uid = "1" }

abbrev pub sample_spec : WasmCloudHostConfigSpec
sample_spec = record {
  host_replicas = 2;
  issuers = none;
  lattice = "default";
  host_labels = some (("zone", "a") ∷ ("gpu", "no") ∷ []);
  version = "1.0.4";
  image = none;
  nats_leaf_image = none;
  secret_name = none;
  enable_structured_logging = some true;
  registry_credentials_secret = none;
  control_topic_prefix = none;
  leaf_node_domain = "leaf";
  config_service_enabled = true;
  nats_address = "nats://nats";
  nats_client_port = 4222;
  nats_leafnode_port = 7422;
  jetstream_domain = "default";
  allow_latest = false;
  allowed_insecure = none;
  log_level = "INFO";
  policy_service = none;
  scheduling_options = none;
  observability = none;
  certificates = none;
  secrets_topic_prefix = none;
  max_linear_memory_bytes = none;
}

abbrev pub sample_config : WasmCloudHostConfig
sample_config = record {
  name = some "hosts";
  namespace = some "apps";
  name_any = "hosts";
  owner = some owner;
  is_deleted = true;
  spec = sample_spec;
  status = none;
}

abbrev pub hello : Manifest
hello = record {
  name = "hello";
  annotations = [];
  components =
      record {
        name = "http";
        properties = capability "ghcr.io/wasmcloud/http-server:0.22.0";
        traits = some (
            record {
              trait_type = "link";
              properties = link (record {
                namespace = "wasi";
                package_name = "http";
                interfaces = "incoming-handler" ∷ [];
                source = some (record {
                  config =
                      record { name = "addr"; properties = some (("address", "0.0.0.0:8080") ∷ []) }
                      ∷ [];
                });
              });
            }
            ∷ record {
              trait_type = "daemonscaler";
              properties =
                  spread_scaler
                    (record { spread = record { requirements = ("zone", "a") ∷ [] } ∷ [] });
            }
            ∷ []);
      }
      ∷ record { name = "hello"; properties = component "hello.wasm"; traits = none }
      ∷ [];
}

abbrev pub hello_app : ModelSummary
hello_app = record { name = "hello"; version = "2"; deployed_version = some "1"; status = deployed }

abbrev pub hello_service : Service
hello_service = record {
  metadata = record default_meta {
    name = some "hello";
    namespace = some "apps";
    finalizers = some ("a finalizer" ∷ []);
  };
  spec = none;
  owner = some owner;
}

abbrev pub pull_secret : Secret
pull_secret = record {
  metadata = record default_meta { name = some "pull" };
  values = some ((".dockerconfigjson", some "{}") ∷ ("ca.crt", some "") ∷ []);
}

abbrev pub registries : DockerConfigJson
registries = record {
  auths = ("ghcr.io", record { username = "user"; password = "word"; auth = "" }) ∷ [];
}

abbrev pub sample_crates : Crates
sample_crates = record {
  merge_from = λ a b. b;
  render = λ c. reply "jetstream {}";
  parse_docker_config = λ text. reply registries;
}

abbrev pub cluster : World Manifest
cluster = record {
  host_config = λ h ns name. reply sample_config;
  secret = λ h ns name. reply pull_secret;
  config_map = λ h ns name. reply (record { metadata = default_meta; values = none });
  service = λ h ns name. reply hello_service;
  deleted = λ h ns name. reply tt;
  host_configs = λ h ns. reply (sample_config ∷ []);
  all_host_configs = λ h. reply (sample_config ∷ []);
  pods = λ h ns selector. reply (
      record {
        status = some (record { phase = some "Running"; pod_ips = some (some "10.0.0.7" ∷ []) });
      }
      ∷ []);
  services = λ h ns selector. reply (hello_service ∷ []);
  applied_service = λ h svc. reply svc;
  applied = λ h call. reply tt;
  connected = λ h address creds. reply tt;
  credentials = λ creds. reply tt;
  manifests = λ h lattice_id. reply (hello_app ∷ []);
  socket_port = λ address. if address == "0.0.0.0:8080" then some 8080 else none;
  manifest = λ h lattice_id name version. answer hello;
  manifest_status = λ h lattice_id name. answer (record { version = "2"; status_type = deployed });
  deleted_manifest = λ h lattice_id name. answer tt;
  put = λ h lattice_id manifest. answer (manifest.name, "3");
  kube_client = λ h. reply tt;
}

abbrev pub hello_params : ServiceParams
hello_params = record {
  name = "hello";
  namespaces = "apps" ∷ "more" ∷ [];
  lattice_id = "default";
  port = 8080;
  host_labels = some (("zone", "a") ∷ []);
}

abbrev pub running_pod : Pod
running_pod = record {
  status = some (record { phase = some "Running"; pod_ips = some (some "10.0.0.7" ∷ []) });
}

abbrev pub authority : Volume
authority = record {
  name = "main";
  secret = some (record { secret_name = some "pull" });
  config_map = none;
}
