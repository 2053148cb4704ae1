-- ===== src/Services/Types.antt =====
-- The types of src/services.rs.
use wasmcloud_operator.Base.{
  ℕ, String, ◌≡◌, ◌↔◌, Bool, true, ◌&&◌, Option, List, [], arith, ◌==◌, eq_iff,
}
use wasmcloud_operator.Base.HashMap.{HashMap, Key}
use wasmcloud_operator.Kube.World.{Call, NatsClient}

pub record ServiceParams : Type 0 where
  pub name : String
  pub namespaces : List String
  pub lattice_id : String
  pub port : ℕ
  pub host_labels : Option (HashMap String String)

pub data WatcherCommand : Type 0 where
  upsert_service : ServiceParams → WatcherCommand
  remove_service : String → List String → WatcherCommand
  remove_services : List String → WatcherCommand

-- `shutdown` identifies the cancellation token, which clones share; `consumer` is the name of the
-- durable consumer. The sending half of the channel is the queue of `ServiceWatcher`.
pub record Watcher : Type 0 where
  pub namespaces : List String
  pub lattice_id : String
  pub nats_client : NatsClient
  pub shutdown : ℕ
  pub consumer : String

-- `watchers` and `stream_replicas` are the source's fields. `queue` is the channel of commands,
-- oldest first, and `is_open` tells whether its receiving task still runs. `tasks` are the clones
-- that the spawned event loops own; a loop runs until its token is among `cancelled`.
pub record ServiceWatcher : Type 0 where
  pub watchers : HashMap String Watcher
  pub stream_replicas : ℕ
  pub queue : List WatcherCommand
  pub is_open : Bool
  pub tasks : List Watcher
  pub cancelled : List ℕ
  pub next_token : ℕ

-- `ServiceWatcher::new`
unfoldable pub new : ℕ → ServiceWatcher
new stream_replicas = record {
  watchers = [];
  stream_replicas = stream_replicas;
  queue = [];
  is_open = true;
  tasks = [];
  cancelled = [];
  next_token = 0;
}

pub record NameNamespace : Type 0 where
  pub name : String
  pub namespace : String

-- The derived equality of `NameNamespace`.
abbrev pub name_namespace_eq : NameNamespace → NameNamespace → Bool
name_namespace_eq a b = a.name == b.name && a.namespace == b.namespace

pub name_namespace_eq_iff : (a b : NameNamespace) → (name_namespace_eq a b ≡ true) ↔ (a ≡ b)
name_namespace_eq_iff a b = (
  (λ h. ground (arith, eq_iff a.name b.name, eq_iff a.namespace b.namespace)),
  (λ h. ground (arith, eq_iff a.name b.name, eq_iff a.namespace b.namespace)),
)

instance abbrev pub name_namespace_key : Key NameNamespace
name_namespace_key = record { beq = name_namespace_eq; beq_iff = name_namespace_eq_iff }

-- The state of the operator that its methods share: the calls made, the service watcher, and the
-- credentials by name and namespace of a host configuration.
pub record Operator : Type 0 where
  pub calls : List Call
  pub services : ServiceWatcher
  pub nats_creds : HashMap NameNamespace String
