-- ===== src/Controller/Reconcile.antt =====
-- `reconcile_crd`, `cleanup`, `reconcile` and `error_policy` of src/controller.rs, with `list_apps`
-- and `get_nats_client` of src/resources/application.rs, which they call.
use wasmcloud_operator.Base.{
  ℕ, String, Bool, Option, none, some, List, map, if◌then◌else◌, ◌<>◌, is_some, length, to_string,
  ◌%◌,
}
use wasmcloud_operator.Base.Outcome.{Outcome, ok, err, panic}
use wasmcloud_operator.Base.Exec.{Exec, pure, fail, lift, unwrap, ◌>>=◌, ◌>>◌, map_err}
use wasmcloud_operator.Base.BTreeMap
use wasmcloud_operator.Base.HashMap
use wasmcloud_operator.HostConfig.{
  WasmCloudHostConfig, WasmCloudHostConfigSpec, WasmCloudHostConfigStatus,
}
use wasmcloud_operator.Kube.Objects.{Secret}
use wasmcloud_operator.Kube.World.{
  get_host_config, get_secret, connect, list_manifests, patch_status, ModelSummary, NatsClient,
  World, Net, of_reply, ask,
}
use wasmcloud_operator.Manifest.Types.{Manifest}
use wasmcloud_operator.Services.Types.{NameNamespace, name_namespace_key, Operator}
use wasmcloud_operator.Services.Watch.{on_calls, on_services, watch, stop_watch}
use wasmcloud_operator.Services.Events.{reconcile_services}
use wasmcloud_operator.Controller.Types.{
  finalizer_error, Error, nats_error, secret_error, Crates, kube,
}
use wasmcloud_operator.Controller.Apply.{
  configure_hosts, configure_service, configure_auth, configmap, store_nats_creds,
}

-- kube's `Action`: when to reconcile again.
pub data Action : Type 0 where
  requeue : ℕ → Action
  await_change : Action

-- Whether and how a secret gives credentials: `Secrets::from_k8s_secret`. The outer `none` is the
-- error for a secret with no data.
unfoldable pub from_k8s_secret : Secret → Option (Option String)
unfolding BTreeMap.get
from_k8s_secret secret = elim secret.values [
  | none ↦ none
  | some values ↦ elim (BTreeMap.get "nats.creds" values) [
    | none ↦ some none
    | some bytes ↦ some bytes
  ]
]

abbrev pub nats_address : WasmCloudHostConfigSpec → String
nats_address spec = spec.nats_address <> ":" <> to_string spec.nats_client_port

-- What `unwrap` of the name in the messages about a bad secret gives, before the error itself.
unfoldable pub read_creds : Secret → Exec Error Operator (Option String)
unfolding from_k8s_secret
read_creds secret = elim (from_k8s_secret secret) [
  | some creds ↦ pure creds
  | none ↦ do
    name ← unwrap secret.metadata.name
    fail (
        secret_error
          ("Failed to read all secrets from " <> name <> ": Secret " <> name <> " has no data"))
]

unfoldable pub status_of : List ModelSummary → WasmCloudHostConfigStatus
status_of apps = record {
  apps = map (λ (a : ModelSummary). record { name = a.name; version = a.version }) apps;
  app_count = length apps % 4_294_967_296;
}

unfoldable pub error_policy : WasmCloudHostConfig → Error → Action
error_policy config e = requeue 1

-- `ctx.nats_creds.write().await.remove(&nst)`
unfoldable pub forget_creds : NameNamespace → Exec Error Operator (Unit {0})
unfolding HashMap.remove
forget_creds key op = (ok tt, record op { nats_creds = HashMap.remove key op.nats_creds })

module _ (w : World Manifest) (crates : Crates) where
  -- `ConnectOptions::with_credentials`, if there are credentials.
  unfoldable pub checked_creds : Option String → Outcome String (Unit {0})
  checked_creds none = ok tt
  checked_creds (some creds) = of_reply (w.credentials creds)

  unfoldable pub list_apps : String → Option String → String → Net (List ModelSummary)
  unfolding checked_creds
  list_apps address creds lattice_id = do
    lift (checked_creds creds)
    ask (λ h. w.connected h address creds) (connect address creds)
    ask (λ h. w.manifests h lattice_id) (list_manifests lattice_id)

  -- `expect` on the credentials: a text that is no credentials panics.
  unfoldable pub expected_creds : Option String → Outcome String (Unit {0})
  unfolding checked_creds
  expected_creds creds = elim (checked_creds creds) [ ok a ↦ ok a | err e ↦ panic | panic ↦ panic ]

  -- `get_nats_client`, which looks the credentials up in the shared map.
  unfoldable pub get_nats_client : String → NameNamespace → Exec String Operator NatsClient
  unfolding HashMap.get expected_creds
  get_nats_client address key op =
      (do
        let creds = HashMap.get key op.nats_creds
        lift (expected_creds creds)
        on_calls (ask (λ h. w.connected h address creds) (connect address creds))
        pure (record { address = address; creds = creds }))
        op

  -- The credentials of a configuration: its secret is read, and what it holds is stored.
  unfoldable pub load_creds : WasmCloudHostConfig → String → Exec Error Operator (Option String)
  unfolding read_creds store_nats_creds
  load_creds cfg ns = elim cfg.spec.secret_name [
    | none ↦ pure none
    | some secret_name ↦ do
      secret ← kube (ask (λ h. w.secret h ns secret_name) (get_secret ns secret_name))
      creds ← read_creds secret
      elim creds [
        | none ↦ pure none
        | some text ↦ (do store_nats_creds w crates cfg text; pure (some text))
      ]
  ]

  -- The objects of a configuration, in the order in which they are applied.
  unfoldable pub configure : WasmCloudHostConfig → Bool → Exec Error Operator (Unit {0})
  unfolding configmap configure_auth configure_hosts configure_service
  configure cfg use_creds = do
    configmap w crates cfg use_creds
    configure_auth w crates cfg
    configure_hosts w crates cfg
    configure_service w crates cfg

  -- The status of a configuration: the apps that wadm lists.
  unfoldable pub update_status :
      WasmCloudHostConfig
      → String
      → String
      → Option String
      → Exec Error Operator (List ModelSummary)
  unfolding list_apps status_of
  update_status cfg ns name creds = do
    apps ←
        map_err (λ e. nats_error ("Failed to list apps: " <> e))
          (on_calls (list_apps (nats_address cfg.spec) creds cfg.spec.lattice))
    let status = patch_status ns name (status_of apps)
    kube (ask (λ h. w.applied h status) status)
    pure apps

  -- The end of `reconcile_crd`: the lattice is watched, and its apps are reconciled.
  unfoldable pub start_services :
      WasmCloudHostConfig → String → String → List ModelSummary → Exec Error Operator (Unit {0})
  unfolding get_nats_client watch reconcile_services
  start_services cfg ns name apps = do
    client ←
        map_err (λ e. nats_error ("Failed to get nats client: " <> e))
          (get_nats_client (nats_address cfg.spec) (record { name = name; namespace = ns }))
    map_err (λ e. nats_error ("Failed to watch services: " <> e))
        (watch w client ns cfg.spec.lattice)
    map_err nats_error (reconcile_services w apps cfg.spec.lattice)

  unfoldable pub reconcile_crd : WasmCloudHostConfig → Exec Error Operator Action
  unfolding load_creds configure update_status start_services
  reconcile_crd config = do
    ns ← unwrap config.namespace
    let name = config.name_any
    cfg ← kube (ask (λ h. w.host_config h ns name) (get_host_config ns name))
    creds ← load_creds cfg ns
    configure cfg (is_some creds)
    apps ← update_status cfg ns name creds
    start_services cfg ns name apps
    pure (requeue 300)

  unfoldable pub cleanup : WasmCloudHostConfig → Exec Error Operator Action
  unfolding forget_creds stop_watch
  cleanup config = do
    ns ← unwrap config.namespace
    if config.is_deleted
        then forget_creds (record { name = config.name_any; namespace = ns })
        else pure tt
    map_err (λ e. nats_error ("Failed to stop service watcher: " <> e))
        (on_services (stop_watch config.spec.lattice ns))
    pure await_change

-- The event that kube's `finalizer` passes to `reconcile`.
pub data Finalizer : Type 0 where
  apply cleanup_event : WasmCloudHostConfig → Finalizer

unfoldable pub reconcile_event : World Manifest → Crates → Finalizer → Exec Error Operator Action
unfolding reconcile_crd cleanup
reconcile_event w crates (apply config) = reconcile_crd w crates config
reconcile_event w crates (cleanup_event config) = cleanup w crates config

-- `finalizer` of kube's runtime: it is given the configuration and the function for its events.
abbrev pub Runtime : Type 0
Runtime =
    WasmCloudHostConfig → (Finalizer → Exec Error Operator Action) → Exec String Operator Action

unfoldable pub reconcile :
    World Manifest → Crates → Runtime → WasmCloudHostConfig → Exec Error Operator Action
unfolding reconcile_event
reconcile w crates finalizer cluster = do
  namespace ← unwrap cluster.namespace
  map_err finalizer_error (finalizer cluster (reconcile_event w crates))
