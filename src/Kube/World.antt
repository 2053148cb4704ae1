-- ===== src/Kube/World.antt =====
-- The systems outside the operator: the Kubernetes API server, NATS and wadm. Each answers a call
-- by any function of the calls made so far, newest first, so that what a theorem states holds
-- whatever they answer, failures and the effect of other clients included.
use wasmcloud_operator.Base.{ℕ, String, Bool, Option, List, ◌∷◌}
use wasmcloud_operator.Base.Outcome.{Outcome, ok, err}
use wasmcloud_operator.Base.Exec.{Exec}
use wasmcloud_operator.HostConfig.{WasmCloudHostConfig, WasmCloudHostConfigStatus}
use wasmcloud_operator.Json.{Value}
use wasmcloud_operator.Kube.Objects.{
  Service, EndpointSlice, Pod, Secret, ConfigMap, ServiceAccount, Role, RoleBinding,
}
use wasmcloud_operator.Kube.Pods.{Deployment, DaemonSet}

-- `PatchParams::apply(manager)`, with `.force()` or without.
pub record ApplyParams : Type 0 where
  pub field_manager : String
  pub force : Bool

-- A model summary of wadm, with the fields that the operator reads.
pub data StatusType : Type 0 where
  undeployed reconciling deployed failed : StatusType

pub record ModelSummary : Type 0 where
  pub name : String
  pub version : String
  pub deployed_version : Option String
  pub status : StatusType

-- `Status` of wadm, with the fields that the operator reads.
pub record Status : Type 0 where
  pub version : String
  pub status_type : StatusType

-- A call with its arguments: first the namespace, then the name.
pub data Call : Type 0 where
  get_host_config get_secret get_config_map get_service delete_service : String → String → Call
  list_host_configs : String → Call
  list_all_host_configs : Call
  list_pods list_services : String → String → Call
  apply_service : String → String → ApplyParams → Service → Call
  apply_endpoints : String → String → ApplyParams → EndpointSlice → Call
  apply_config_map : String → String → ApplyParams → ConfigMap → Call
  apply_account : String → String → ApplyParams → ServiceAccount → Call
  apply_role : String → String → ApplyParams → Role → Call
  apply_binding : String → String → ApplyParams → RoleBinding → Call
  apply_deployment : String → String → ApplyParams → Deployment → Call
  apply_daemon_set : String → String → ApplyParams → DaemonSet → Call
  patch_status : String → String → WasmCloudHostConfigStatus → Call
  connect : String → Option String → Call
  list_manifests : String → Call
  get_manifest : String → String → Option String → Call
  get_manifest_status delete_manifest : String → String → Call
  put_manifest : String → Value → Call
  create_stream : String → ℕ → Call
  create_consumer : String → String → Call

-- An answer: a value, or an error in words.
pub data Reply (A : Type 0) : Type 0 where
  reply : A → Reply A
  failed : String → Reply A

-- An answer of wadm's client: `ClientError::NotFound` is told from its other errors.
pub data ClientError : Type 0 where
  not_found other_error : String → ClientError

pub data Answer (A : Type 0) : Type 0 where
  answer : A → Answer A
  refused : ClientError → Answer A

-- `Manifest` is wadm's type, with what the operator reads of it given where it is read.
pub record World (Manifest : Type 0) : Type 0 where
  pub host_config : List Call → String → String → Reply WasmCloudHostConfig
  pub secret : List Call → String → String → Reply Secret
  pub config_map : List Call → String → String → Reply ConfigMap
  pub service : List Call → String → String → Reply Service
  pub deleted : List Call → String → String → Reply (Unit {0})
  pub host_configs : List Call → String → Reply (List WasmCloudHostConfig)
  pub all_host_configs : List Call → Reply (List WasmCloudHostConfig)
  pub pods : List Call → String → String → Reply (List Pod)
  pub services : List Call → String → String → Reply (List Service)
  pub applied_service : List Call → Service → Reply Service
  pub applied : List Call → Call → Reply (Unit {0})
  pub connected : List Call → String → Option String → Reply (Unit {0})
  -- Whether `ConnectOptions::with_credentials` of async-nats accepts a credentials text.
  pub credentials : String → Reply (Unit {0})
  pub manifests : List Call → String → Reply (List ModelSummary)
  -- The port that `parse::<SocketAddr>()` of the standard library reads in an address.
  pub socket_port : String → Option ℕ
  pub manifest : List Call → String → String → Option String → Answer Manifest
  pub manifest_status : List Call → String → String → Answer Status
  pub deleted_manifest : List Call → String → String → Answer (Unit {0})
  -- The name and the version of the application that is put and deployed.
  pub put : List Call → String → Manifest → Answer (String × String)
  -- `Client::try_default` of kube, which reads its configuration and makes no call.
  pub kube_client : List Call → Reply (Unit {0})

-- A connected NATS client: the address, and the credentials it was given.
pub record NatsClient : Type 0 where
  pub address : String
  pub creds : Option String

-- Code that makes calls and keeps no other state.
abbrev pub Net : Type 0 → Type 0
Net A = Exec String (List Call) A

abbrev pub of_reply : {A : Type 0} → Reply A → Outcome String A
of_reply (reply a) = ok a
of_reply (failed e) = err e

-- Makes a call: the answer depends on the calls before it.
unfoldable pub ask : {A : Type 0} → (List Call → Reply A) → Call → Net A
ask asked call calls = (of_reply (asked calls), call ∷ calls)

abbrev pub of_answer : {A : Type 0} → Answer A → Outcome ClientError A
of_answer (answer a) = ok a
of_answer (refused e) = err e

-- A call of wadm.
unfoldable pub ask_wadm :
    {A : Type 0} → (List Call → Answer A) → Call → Exec ClientError (List Call) A
ask_wadm asked call calls = (of_answer (asked calls), call ∷ calls)

abbrev pub client_text : ClientError → String
client_text (not_found e) = e
client_text (other_error e) = e
