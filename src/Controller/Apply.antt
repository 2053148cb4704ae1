-- ===== src/Controller/Apply.antt =====
-- The functions of src/controller.rs that apply the objects of a host configuration.
use wasmcloud_operator.Base.{
  String, Bool, false, Option, none, some, List, [], ◌∷◌, ◌++◌, if◌then◌else◌, ◌<>◌, ltb, length,
  to_string,
}
use wasmcloud_operator.Base.Outcome.{ok}
use wasmcloud_operator.Base.Exec.{Exec, pure, fail, unwrap, ◌>>=◌, ◌>>◌}
use wasmcloud_operator.Base.BTreeMap
use wasmcloud_operator.Base.BTreeMap.{BTreeMap}
use wasmcloud_operator.Base.HashMap
use wasmcloud_operator.Base.HashMap.{HashMap, Key, string_key}
use wasmcloud_operator.HostConfig.{WasmCloudHostConfig}
use wasmcloud_operator.Kube.Objects.{ObjectMeta, default_meta, Service, Secret, PolicyRule}
use wasmcloud_operator.Kube.Pods.{EnvVar, PodTemplateSpec}
use wasmcloud_operator.Kube.World.{
  ApplyParams, Call, get_secret, apply_service, apply_config_map, apply_account, apply_role,
  apply_binding, apply_deployment, apply_daemon_set, Reply, reply, failed, World, ask,
}
use wasmcloud_operator.Services.Types.{NameNamespace, name_namespace_key, Operator}
use wasmcloud_operator.Controller.Types.{
  Error, secret_error, render_error, DockerConfigJson, Crates, kube, from_secret,
}
use wasmcloud_operator.Controller.Labels.{cluster_config_finalizer, common_labels}
use wasmcloud_operator.Controller.Env.{env}
use wasmcloud_operator.Controller.Pod.{deployment_spec, daemonset_spec}

abbrev pub manager : ApplyParams
manager = record { field_manager = cluster_config_finalizer; force = false }

-- The metadata that the objects of a configuration share: its name and namespace, and a reference
-- to it as their owner. The unwraps panic where the API server left a field out.
unfoldable pub owned_meta : WasmCloudHostConfig → Exec Error Operator ObjectMeta
owned_meta config = do
  namespace ← unwrap config.namespace
  owner ← unwrap config.owner
  pure (record default_meta {
    name = some config.name_any;
    namespace = some namespace;
    owner_references = some (owner ∷ []);
  })

-- The variables for a registry: the first entry of `auths`, which must be there.
unfoldable pub registry_env : DockerConfigJson → Option (List EnvVar)
registry_env docker_config = elim docker_config.auths [
  | [] ↦ none
  | entry ∷ _ ↦ some (
      env "WASMCLOUD_OCI_REGISTRY_USER" entry.1.username
      ∷ env "WASMCLOUD_OCI_REGISTRY_PASSWORD" entry.1.password
      ∷ env "WASMCLOUD_OCI_REGISTRY" entry.0
      ∷ [])
]

-- `containers[1].env.as_mut().unwrap().append(&mut env_vars)`, with `none` for a panic.
unfoldable pub append_env : List EnvVar → PodTemplateSpec → Option PodTemplateSpec
append_env vars template = elim template.spec [
  | none ↦ none
  | some spec ↦ elim spec.containers [
    | [] ↦ none
    | leaf ∷ rest ↦ elim rest [
      | [] ↦ none
      | host ∷ others ↦ elim host.env [
        | none ↦ none
        | some vars' ↦ some (record template {
          spec = some (record spec {
            containers = leaf ∷ record host { env = some (vars' ++ vars) } ∷ others;
          });
        })
      ]
    ]
  ]
]

unfoldable pub is_daemonset : WasmCloudHostConfig → Bool
is_daemonset config = elim config.spec.scheduling_options [ none ↦ false | some so ↦ so.daemonset ]

-- The labels of the service of `configure_service`, which are its selector but for the last.
unfoldable pub route_selector : WasmCloudHostConfig → BTreeMap String
unfolding BTreeMap.insert
route_selector config =
    BTreeMap.insert "app.kubernetes.io/instance" config.name_any
      (BTreeMap.insert "app.kubernetes.io/name" "wasmcloud" [])

unfoldable pub route_labels : WasmCloudHostConfig → BTreeMap String
unfolding BTreeMap.insert route_selector
route_labels config = BTreeMap.insert "wasmcloud.dev/route-to" "true" (route_selector config)

-- The rules of the role in `configure_auth`.
abbrev pub service_rule : PolicyRule
service_rule = record {
  api_groups = some ("" ∷ []);
  resources = some ("services" ∷ []);
  verbs = "get" ∷ "list" ∷ "create" ∷ "update" ∷ "patch" ∷ "delete" ∷ [];
}

-- The error of handlebars under `?`.
unfoldable pub rendered : Reply String → Exec Error Operator String
rendered (reply text) = pure text
rendered (failed e) = fail (render_error e)

module _ {M : Type 0} (w : World M) (crates : Crates) where
  -- The checks of an image pull secret that has been read.
  unfoldable pub checked_registry : Secret → Exec Error Operator (List EnvVar)
  unfolding from_secret registry_env
  checked_registry secret = elim (from_secret crates secret) [
    | failed e ↦ do
      name ← unwrap secret.metadata.name
      fail (secret_error ("Failed to convert image pull secret " <> name <> ": " <> e))
    | reply docker_config ↦
        if ltb 1 (length docker_config.auths)
        then (do
          name ← unwrap secret.metadata.name
          fail (
              secret_error (
                "Only one registry is supported: the secret named "
                <> name
                <> " contains "
                <> to_string (length docker_config.auths))))
        else unwrap (registry_env docker_config)
  ]

  unfoldable pub registry_vars : WasmCloudHostConfig → Exec Error Operator (List EnvVar)
  unfolding checked_registry
  registry_vars config = elim config.spec.registry_credentials_secret [
    | none ↦ pure []
    | some credentials ↦ do
      namespace ← unwrap config.namespace
      secret ← kube (ask (λ h. w.secret h namespace credentials) (get_secret namespace credentials))
      checked_registry secret
  ]

  unfoldable pub apply : Call → Exec Error Operator (Unit {0})
  apply call = kube (ask (λ h. w.applied h call) call)

  unfoldable pub put_daemon_set : WasmCloudHostConfig → List EnvVar → Exec Error Operator (Unit {0})
  unfolding daemonset_spec append_env owned_meta apply common_labels
  put_daemon_set config vars = do
    spec ← daemonset_spec w crates config
    template ← unwrap (append_env vars spec.template)
    meta ← owned_meta config
    namespace ← unwrap config.namespace
    apply (
        apply_daemon_set namespace config.name_any manager (record {
          metadata = record meta { labels = some common_labels };
          spec = some (record spec { template = template });
        }))

  unfoldable pub put_deployment : WasmCloudHostConfig → List EnvVar → Exec Error Operator (Unit {0})
  unfolding deployment_spec append_env owned_meta apply common_labels
  put_deployment config vars = do
    spec ← deployment_spec w crates config
    template ← unwrap (append_env vars spec.template)
    meta ← owned_meta config
    namespace ← unwrap config.namespace
    apply (
        apply_deployment namespace config.name_any manager (record {
          metadata = record meta { labels = some common_labels };
          spec = some (record spec { template = template });
        }))

  unfoldable pub configure_hosts : WasmCloudHostConfig → Exec Error Operator (Unit {0})
  unfolding registry_vars put_daemon_set put_deployment is_daemonset
  configure_hosts config = do
    vars ← registry_vars config
    if is_daemonset config then put_daemon_set config vars else put_deployment config vars

  unfoldable pub configure_service : WasmCloudHostConfig → Exec Error Operator (Unit {0})
  unfolding owned_meta apply route_selector route_labels
  configure_service config = do
    meta ← owned_meta config
    namespace ← unwrap config.namespace
    let svc : Service = record {
      metadata = record meta { labels = some (route_labels config) };
      spec = some (record {
        selector = some (route_selector config);
        ports = some (record { name = none; port = 4222; protocol = none } ∷ []);
      });
      owner = none;
    }
    apply (apply_service namespace config.name_any manager svc)

  unfoldable pub configure_auth : WasmCloudHostConfig → Exec Error Operator (Unit {0})
  unfolding owned_meta apply
  configure_auth config = do
    meta ← owned_meta config
    namespace ← unwrap config.namespace
    apply (apply_account namespace config.name_any manager (record { metadata = meta }))
    apply (
        apply_role namespace config.name_any manager
          (record { metadata = meta; rules = some (service_rule ∷ []) }))
    apply (
        apply_binding namespace config.name_any manager (record {
          metadata = meta;
          role_ref = record {
            api_group = "rbac.authorization.k8s.io";
            kind = "Role";
            name = config.name_any;
          };
          subjects = some (
              record { kind = "ServiceAccount"; name = config.name_any; namespace = some namespace }
              ∷ []);
        }))

  unfoldable pub configmap : WasmCloudHostConfig → Bool → Exec Error Operator (Unit {0})
  unfolding owned_meta apply rendered
  configmap config use_nats_creds = do
    text ← rendered (
        crates.render (record {
          jetstream_domain = config.spec.leaf_node_domain;
          cluster_url = config.spec.nats_address;
          leafnode_port = config.spec.nats_leafnode_port;
          use_credentials = use_nats_creds;
        }))
    meta ← owned_meta config
    namespace ← unwrap config.namespace
    apply (
        apply_config_map namespace config.name_any manager
          (record { metadata = meta; values = some (("nats.conf", text) ∷ []) }))

  unfoldable pub store_nats_creds : WasmCloudHostConfig → String → Exec Error Operator (Unit {0})
  unfolding HashMap.insert
  store_nats_creds config creds op =
      (do
        namespace ← unwrap config.namespace
        let key : NameNamespace = record { name = config.name_any; namespace = namespace }
        λ o. (ok tt, record o { nats_creds = HashMap.insert key creds o.nats_creds }))
        op
