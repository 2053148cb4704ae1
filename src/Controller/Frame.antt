-- ===== src/Controller/Frame.antt =====
-- The parts of src/controller.rs that only read from the cluster: a property of the operator that
-- reads do not disturb is kept by them.
pub mod Applying
use wasmcloud_operator.Base.{
  String, ◌≡◌, refl, Bool, Option, none, some, List, inl, inr, Option-cases, unwrap_or, is_empty,
  ◌<>◌, true,
}
use wasmcloud_operator.Base.Exec.{Exec, fail, map_err}
use wasmcloud_operator.Base.Keeps.{
  Keeps, Keeps-bind, Keeps-pure, Keeps-unwrap, Keeps-if, Keeps-fold_each, Keeps-continue,
}
use wasmcloud_operator.Base.HashMap
use wasmcloud_operator.Base.HashMap.{string_key, HashMap}
use wasmcloud_operator.HostConfig.{WasmCloudHostConfig}
use wasmcloud_operator.Kube.Objects.{Secret}
use wasmcloud_operator.Kube.Pods.{Volume, EnvVar}
use wasmcloud_operator.Kube.World.{
  patch_status, Call, Reply, reply, failed, World, Net, ask, get_secret, get_config_map, connect,
  list_manifests,
}
use wasmcloud_operator.Manifest.Types.{Manifest}
use wasmcloud_operator.Services.Types.{name_namespace_key, ServiceWatcher, Operator, NameNamespace}
use wasmcloud_operator.Services.Watch.{on_calls}
use wasmcloud_operator.Controller.Types.{
  Error, Crates, kube, from_secret, DockerConfigJson, nats_error,
}
use wasmcloud_operator.Controller.Certificates.{
  Mounts, Progress, skipped, found, add_authority, add_authorities, secret_part, configmap_part,
  then_configmap, discover_secret_certificates, discover_configmap_certificates,
}
use wasmcloud_operator.Controller.Pod.{pod_template, deployment_spec, daemonset_spec}
use wasmcloud_operator.Services.Frame.{Undisturbed, is_read, Keeps-request, Keeps-ask, with_calls}
use wasmcloud_operator.Controller.Apply.{
  owned_meta, rendered, checked_registry, registry_vars, apply, put_daemon_set, put_deployment,
  configure_hosts, configure_service, configure_auth, configmap, store_nats_creds, is_daemonset,
}
use wasmcloud_operator.Controller.Reconcile.{
  read_creds, load_creds, configure, list_apps, update_status, from_k8s_secret, nats_address,
  status_of, get_nats_client, expected_creds,
}

module _ (P : Operator → Type 0) where
  fail-Keeps : {A : Type 0} (e : Error) → Keeps P (fail {A = A} e)
  fail-Keeps e = record { after = λ op h. h }

  pub owned_meta-Keeps : (config : WasmCloudHostConfig) → Keeps P (owned_meta config)
  unfolding owned_meta
  owned_meta-Keeps config =
      Keeps-bind _ _ (Keeps-unwrap config.namespace)
        λ n. Keeps-bind _ _ (Keeps-unwrap config.owner) λ o. Keeps-pure _

  pub rendered-Keeps : (r : Reply String) → Keeps P (rendered r)
  unfolding rendered
  rendered-Keeps (reply text) = Keeps-pure text
  rendered-Keeps (failed e) = fail-Keeps _

  pub read_creds-Keeps : (secret : Secret) → Keeps P (read_creds secret)
  unfolding read_creds
  read_creds-Keeps secret = elim (Option-cases (from_k8s_secret secret)) [
    | inl e ↦
        rw (e, read_creds) (Keeps-bind _ _ (Keeps-unwrap secret.metadata.name) λ n. fail-Keeps _)
    | inr (c, e) ↦ rw (e, read_creds) (Keeps-pure c)
  ]

module _ (P : Operator → Type 0) (r : Undisturbed (λ c. is_read c ≡ true) P) (w : World Manifest)
    (crates : Crates) where
  registry_path :
      (secret : Secret) (r : Reply DockerConfigJson)
      → from_secret crates secret ≡ r
      → Keeps P (checked_registry w crates secret)
  unfolding checked_registry
  registry_path secret (failed e) p =
      rw (p, checked_registry)
        (Keeps-bind _ _ (Keeps-unwrap secret.metadata.name) λ n. fail-Keeps P _)
  registry_path secret (reply d) p =
      rw (p, checked_registry)
        (Keeps-if _ _ _ (Keeps-bind _ _ (Keeps-unwrap secret.metadata.name) λ n. fail-Keeps P _)
          (Keeps-unwrap _))

  checked_registry-Keeps : (secret : Secret) → Keeps P (checked_registry w crates secret)
  unfolding checked_registry
  checked_registry-Keeps secret = registry_path secret (from_secret crates secret) refl

  secret_keys-Keeps : (n name : String) → Keeps P (discover_secret_certificates w n name)
  unfolding discover_secret_certificates
  secret_keys-Keeps n name =
      Keeps-bind _ _ (Keeps-request P r _ _ (get_secret n name) refl) λ secret. Keeps-pure _

  configmap_keys-Keeps : (n name : String) → Keeps P (discover_configmap_certificates w n name)
  unfolding discover_configmap_certificates
  configmap_keys-Keeps n name =
      Keeps-bind _ _ (Keeps-request P r _ _ (get_config_map n name) refl) λ config_map. Keeps-pure _

  secret_part-Keeps : (n : String) (a : Volume) (m : Mounts) → Keeps P (secret_part w n a m)
  unfolding secret_part
  secret_part-Keeps n a m = elim (Option-cases a.secret) [
    | inl e ↦ rw (e, secret_part) (Keeps-pure _)
    | inr (source, e) ↦ elim (Option-cases source.secret_name) [
      | inl f ↦ rw (e, f, secret_part) (fail-Keeps P _)
      | inr (name, f) ↦
          rw (e, f, secret_part)
            (Keeps-bind (discover_secret_certificates w n name) _ (secret_keys-Keeps n name)
              λ items. Keeps-if (is_empty items) _ _ (Keeps-pure _) (Keeps-pure _))
    ]
  ]

  configmap_part-Keeps :
      (n : String) (a : Volume) (items : List String) (m : Mounts)
      → Keeps P (configmap_part w n a items m)
  unfolding configmap_part
  configmap_part-Keeps n a before m = elim (Option-cases a.config_map) [
    | inl e ↦ rw (e, configmap_part) (Keeps-pure _)
    | inr (source, e) ↦ elim (Option-cases source.name) [
      | inl f ↦ rw (e, f, configmap_part) (fail-Keeps P _)
      | inr (name, f) ↦
          rw (e, f, configmap_part)
            (Keeps-bind (discover_configmap_certificates w n name) _ (configmap_keys-Keeps n name)
              λ items. Keeps-if (is_empty items) _ _ (Keeps-pure _) (Keeps-pure _))
    ]
  ]

  then_configmap-Keeps : (n : String) (a : Volume) (p : Progress) → Keeps P (then_configmap w n a p)
  unfolding then_configmap
  then_configmap-Keeps n a (skipped m) = Keeps-pure m
  then_configmap-Keeps n a (found items m) =
      Keeps-bind _ _ (configmap_part-Keeps n a items m) λ p. Keeps-pure _

  add_authority-Keeps : (n : String) (m : Mounts) (a : Volume) → Keeps P (add_authority w n m a)
  unfolding add_authority
  add_authority-Keeps n m a =
      Keeps-if _ _ _ (fail-Keeps P _)
        (Keeps-bind _ _ (secret_part-Keeps n a m) λ p. then_configmap-Keeps n a p)

  pub pod_template-Keeps : (cfg : WasmCloudHostConfig) → Keeps P (pod_template w crates cfg)
  unfolding pod_template add_authorities
  pod_template-Keeps cfg =
      Keeps-bind _ _
        (Keeps-fold_each (add_authority w (unwrap_or cfg.namespace ""))
          (λ m a. add_authority-Keeps (unwrap_or cfg.namespace "") m a) _ _)
        λ m. Keeps-pure _

  pub registry_vars-Keeps : (cfg : WasmCloudHostConfig) → Keeps P (registry_vars w crates cfg)
  unfolding registry_vars
  registry_vars-Keeps cfg = elim (Option-cases cfg.spec.registry_credentials_secret) [
    | inl e ↦ rw (e, registry_vars) (Keeps-pure _)
    | inr (credentials, e) ↦
        rw (e, registry_vars)
          (Keeps-bind _ _ (Keeps-unwrap cfg.namespace) λ n.
            Keeps-bind _ _ (Keeps-request P r _ _ (get_secret n credentials) refl)
              λ secret. checked_registry-Keeps secret)
  ]

  pub list_apps-Keeps :
      (op : Operator) (address : String) (creds : Option String) (l : String)
      → Keeps (λ calls. P (with_calls op calls)) (list_apps w crates address creds l)
  unfolding list_apps
  list_apps-Keeps op address creds l =
      Keeps-bind _ _ (record { after = λ s h. h })
        λ _.
          Keeps-bind _ _ (Keeps-ask P r op _ (connect address creds) refl)
            λ _. Keeps-ask P r op _ (list_manifests l) refl

  pub get_nats_client-Keeps :
      (address : String) (key : NameNamespace) → Keeps P (get_nats_client w crates address key)
  unfolding get_nats_client ask
  get_nats_client-Keeps address key = record {
    after = λ op h.
        let creds = HashMap.get key op.nats_creds in
        Keeps-continue (expected_creds w crates creds) _
          (λ _.
            Keeps-bind _ _ (record { after = λ op' h'. r op' (connect address creds) refl h' })
              λ _. Keeps-pure (record { address = address; creds = creds }))
          op h;
  }

module _ (P : Operator → Type 0) (r : Undisturbed (λ c. is_read c ≡ true) P)
    (k : (op : Operator) (creds : HashMap NameNamespace String)
      → P op
      → P (record op { nats_creds = creds }))
    (w : World Manifest) (crates : Crates) where
  store_nats_creds-Keeps :
      (cfg : WasmCloudHostConfig) (creds : String) → Keeps P (store_nats_creds w crates cfg creds)
  unfolding store_nats_creds
  store_nats_creds-Keeps cfg creds = record {
    after = λ op h. elim (Option-cases cfg.namespace) [
      | inl e ↦ rw (e, store_nats_creds) h
      | inr (n, e) ↦ rw (e, store_nats_creds) (k op _ h)
    ];
  }

  pub load_creds-Keeps :
      (cfg : WasmCloudHostConfig) (ns : String) → Keeps P (load_creds w crates cfg ns)
  unfolding load_creds
  load_creds-Keeps cfg ns = elim (Option-cases cfg.spec.secret_name) [
    | inl e ↦ rw (e, load_creds) (Keeps-pure _)
    | inr (name, e) ↦
        rw (e, load_creds)
          (Keeps-bind _ _ (Keeps-request P r _ _ (get_secret ns name) refl) λ secret.
            Keeps-bind (read_creds secret) _ (read_creds-Keeps P secret) (elim [
              | none ↦ Keeps-pure _
              | some text ↦ Keeps-bind _ _ (store_nats_creds-Keeps cfg text) λ _. Keeps-pure _
            ]))
  ]
