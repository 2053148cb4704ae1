-- ===== src/Controller/Types.antt =====
-- src/lib.rs, src/docker_secret.rs, and the code of other crates that src/controller.rs calls.
use wasmcloud_operator.Base.{ℕ, String, Bool, none, some, ◌<>◌}
use wasmcloud_operator.Base.Exec.{Exec, map_err}
use wasmcloud_operator.Base.BTreeMap
use wasmcloud_operator.Base.HashMap.{HashMap}
use wasmcloud_operator.Kube.Objects.{Secret}
use wasmcloud_operator.Kube.Pods.{Container}
use wasmcloud_operator.Kube.World.{Net, Reply, failed}
use wasmcloud_operator.Services.Types.{Operator}
use wasmcloud_operator.Services.Watch.{on_calls}

-- `Error` of src/lib.rs; errors of other crates are their text.
pub data Error : Type 0 where
  serialization_error : String → Error
  kube_error : String → Error
  finalizer_error : String → Error
  illegal_document : Error
  nats_error : String → Error
  request_error : String → Error
  secret_error : String → Error
  certificate_error : String → Error
  render_error : String → Error

-- The `#[error(…)]` attributes.
unfoldable pub to_string : Error → String
to_string (serialization_error e) = "SerializationError: " <> e
to_string (kube_error e) = "Kube Error: " <> e
to_string (finalizer_error e) = "Finalizer Error: " <> e
to_string illegal_document = "IllegalDocument"
to_string (nats_error e) = "NATS error: " <> e
to_string (request_error e) = "Request error: " <> e
to_string (secret_error e) = "Error retrieving secrets: " <> e
to_string (certificate_error e) = "Certificate error: " <> e
to_string (render_error e) = "Error rendering template: " <> e

pub record DockerConfigJsonAuth : Type 0 where
  pub username : String
  pub password : String
  pub auth : String

pub record DockerConfigJson : Type 0 where
  pub auths : HashMap String DockerConfigJsonAuth

-- The values that the template of `configmap` is rendered with.
pub record LeafConfig : Type 0 where
  pub jetstream_domain : String
  pub cluster_url : String
  pub leafnode_port : ℕ
  pub use_credentials : Bool

-- Functions of other crates: `DeepMerge::merge_from` of k8s-openapi, the rendering of the template
-- by handlebars, and the reading of a DockerConfigJson by serde_json.
pub record Crates : Type 0 where
  pub merge_from : Container → Container → Container
  pub render : LeafConfig → Reply String
  pub parse_docker_config : String → Reply DockerConfigJson

-- A call of the Kubernetes API under `?`.
abbrev pub kube : {A : Type 0} → Net A → Exec Error Operator A
kube m = map_err kube_error (on_calls m)

-- `DockerConfigJson::from_secret`
unfoldable pub from_secret : Crates → Secret → Reply DockerConfigJson
unfolding BTreeMap.get
from_secret crates secret = elim secret.values [
  | none ↦ failed "No data in secret"
  | some values ↦ elim (BTreeMap.get ".dockerconfigjson" values) [
    | none ↦ failed "No .dockerconfigjson in secret"
    | some bytes ↦ elim bytes [
      | none ↦ failed "Error decoding secret"
      | some text ↦ crates.parse_docker_config text
    ]
  ]
]
