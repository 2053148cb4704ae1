-- ===== src/Controller/Frame/Applying.antt =====
-- The parts of src/controller.rs that apply objects: a property of the operator that no call disturbs
-- is kept by them.
use wasmcloud_operator.Base.{String, ◌≡◌, Bool, Option, List, ◌<>◌, true}
use wasmcloud_operator.Base.Exec.{map_err}
use wasmcloud_operator.Base.Keeps.{Keeps, Keeps-bind, Keeps-pure, Keeps-unwrap, Keeps-if}
use wasmcloud_operator.Base.HashMap.{string_key}
use wasmcloud_operator.HostConfig.{WasmCloudHostConfig}
use wasmcloud_operator.Kube.Pods.{EnvVar}
use wasmcloud_operator.Kube.World.{patch_status, Call, World, ask}
use wasmcloud_operator.Manifest.Types.{Manifest}
use wasmcloud_operator.Services.Types.{Operator}
use wasmcloud_operator.Services.Watch.{on_calls}
use wasmcloud_operator.Controller.Types.{kube_error, Crates, kube, nats_error}
use wasmcloud_operator.Controller.Pod.{deployment_spec, daemonset_spec}
use wasmcloud_operator.Services.Frame.{Undisturbed, is_read, Keeps-on_calls}
use wasmcloud_operator.Controller.Frame.{
  list_apps-Keeps, rendered-Keeps, owned_meta-Keeps, pod_template-Keeps, registry_vars-Keeps,
  Keeps-request,
}
use wasmcloud_operator.Controller.Apply.{
  apply, put_daemon_set, put_deployment, configure_hosts, configure_service, configure_auth,
  configmap, is_daemonset,
}
use wasmcloud_operator.Controller.Reconcile.{
  configure, list_apps, update_status, nats_address, status_of,
}

module _ (P : Operator → Type 0) (u : Undisturbed (λ _. Unit {0}) P) (w : World Manifest)
    (crates : Crates) where
  still : Undisturbed (λ c. is_read c ≡ true) P
  still op c h = u op c tt

  apply-Keeps : (c : Call) → Keeps P (apply w crates c)
  unfolding apply
  apply-Keeps c = Keeps-request P u _ _ c tt

  configmap-Keeps : (cfg : WasmCloudHostConfig) (b : Bool) → Keeps P (configmap w crates cfg b)
  unfolding configmap
  configmap-Keeps cfg b = Keeps-bind _ _ (rendered-Keeps P _) λ text.
      Keeps-bind _ _ (owned_meta-Keeps P cfg)
        λ meta. Keeps-bind _ _ (Keeps-unwrap cfg.namespace) λ n. apply-Keeps _

  configure_auth-Keeps : (cfg : WasmCloudHostConfig) → Keeps P (configure_auth w crates cfg)
  unfolding configure_auth
  configure_auth-Keeps cfg = Keeps-bind _ _ (owned_meta-Keeps P cfg) λ meta.
      Keeps-bind _ _ (Keeps-unwrap cfg.namespace)
        λ n. Keeps-bind _ _ (apply-Keeps _) λ _. Keeps-bind _ _ (apply-Keeps _) λ _. apply-Keeps _

  configure_service-Keeps : (cfg : WasmCloudHostConfig) → Keeps P (configure_service w crates cfg)
  unfolding configure_service
  configure_service-Keeps cfg =
      Keeps-bind _ _ (owned_meta-Keeps P cfg)
        λ meta. Keeps-bind _ _ (Keeps-unwrap cfg.namespace) λ n. apply-Keeps _

  put_daemon_set-Keeps :
      (cfg : WasmCloudHostConfig) (vars : List EnvVar) → Keeps P (put_daemon_set w crates cfg vars)
  unfolding put_daemon_set daemonset_spec
  put_daemon_set-Keeps cfg vars =
      Keeps-bind _ _ (Keeps-bind _ _ (pod_template-Keeps P still w crates cfg) λ t. Keeps-pure _)
        λ spec. Keeps-bind _ _ (Keeps-unwrap _) λ t.
          Keeps-bind _ _ (owned_meta-Keeps P cfg)
            λ meta. Keeps-bind _ _ (Keeps-unwrap cfg.namespace) λ n. apply-Keeps _

  put_deployment-Keeps :
      (cfg : WasmCloudHostConfig) (vars : List EnvVar) → Keeps P (put_deployment w crates cfg vars)
  unfolding put_deployment deployment_spec
  put_deployment-Keeps cfg vars =
      Keeps-bind _ _ (Keeps-bind _ _ (pod_template-Keeps P still w crates cfg) λ t. Keeps-pure _)
        λ spec. Keeps-bind _ _ (Keeps-unwrap _) λ t.
          Keeps-bind _ _ (owned_meta-Keeps P cfg)
            λ meta. Keeps-bind _ _ (Keeps-unwrap cfg.namespace) λ n. apply-Keeps _

  configure_hosts-Keeps : (cfg : WasmCloudHostConfig) → Keeps P (configure_hosts w crates cfg)
  unfolding configure_hosts
  configure_hosts-Keeps cfg = Keeps-bind _ _ (registry_vars-Keeps P still w crates cfg) λ vars.
      Keeps-if (is_daemonset cfg) _ _ (put_daemon_set-Keeps cfg vars)
        (put_deployment-Keeps cfg vars)

  pub configure-Keeps : (cfg : WasmCloudHostConfig) (b : Bool) → Keeps P (configure w crates cfg b)
  unfolding configure
  configure-Keeps cfg b = Keeps-bind _ _ (configmap-Keeps cfg b) λ _.
      Keeps-bind _ _ (configure_auth-Keeps cfg)
        λ _. Keeps-bind _ _ (configure_hosts-Keeps cfg) λ _. configure_service-Keeps cfg

  pub update_status-Keeps :
      (cfg : WasmCloudHostConfig) (ns name : String) (creds : Option String)
      → Keeps P (update_status w crates cfg ns name creds)
  unfolding update_status
  update_status-Keeps cfg ns name creds =
      Keeps-bind
        (map_err (λ e. nats_error ("Failed to list apps: " <> e))
          (on_calls (list_apps w crates (nats_address cfg.spec) creds cfg.spec.lattice)))
        _
        (Keeps-on_calls P (λ e. nats_error ("Failed to list apps: " <> e))
          (list_apps w crates (nats_address cfg.spec) creds cfg.spec.lattice)
          λ op. list_apps-Keeps P still w crates op (nats_address cfg.spec) creds cfg.spec.lattice)
        λ apps.
          let status = patch_status ns name (status_of apps) in
          Keeps-bind (kube (ask (λ h. w.applied h status) status)) _
            (Keeps-request P u kube_error (λ h. w.applied h status) status tt) λ _. Keeps-pure apps
