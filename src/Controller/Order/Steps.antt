-- ===== src/Controller/Order/Steps.antt =====
-- The objects of a configuration: the parts of `configure_*`, `update_status` and `start_services`
-- of src/controller.rs, each with the objects that it applies.
use wasmcloud_operator.Controller.Pod.{daemonset_spec, deployment_spec}
use wasmcloud_operator.Base.{
  String, ◌≡◌, refl, Bool, true, false, some, List, [], ◌∷◌, if◌then◌else◌, arith, true,
}
use wasmcloud_operator.Base.Exec.{Exec}
use wasmcloud_operator.Base.Keeps.{Keeps-unwrap}
use wasmcloud_operator.Base.Post.{Post-intro}
use wasmcloud_operator.HostConfig.{WasmCloudHostConfig}
use wasmcloud_operator.Kube.World.{World, Call, ask}
use wasmcloud_operator.Kube.Pods.{EnvVar}
use wasmcloud_operator.Manifest.Types.{Manifest}
use wasmcloud_operator.Services.Types.{Operator}
use wasmcloud_operator.Services.Frame.{Undisturbed, is_read}
use wasmcloud_operator.Controller.Types.{Crates}
use wasmcloud_operator.Controller.Frame.{
  owned_meta-Keeps, rendered-Keeps, pod_template-Keeps, registry_vars-Keeps,
}
use wasmcloud_operator.Controller.Apply.{
  apply, configmap, configure_auth, configure_hosts, configure_service, put_daemon_set,
  put_deployment, is_daemonset,
}
use wasmcloud_operator.Controller.Reconcile.{configure}
use wasmcloud_operator.Controller.Order.{
  Kind, Target, config_map, service_account, role, role_binding, deployment, daemon_set, service,
  targets, cons_target, Applies, Applies-bind, Applies-quiet, Applies-unwrap, AllApplied,
  PartApplied, Applies-pure,
}

-- The list of targets is what it was.
abbrev pub At : List Target → Operator → Type 0
At ts op = targets op.calls ≡ ts

pub At-is_read : (ts : List Target) → Undisturbed (λ c. is_read c ≡ true) (At ts)
unfolding targets
At-is_read ts op call c h = ground (arith, c, h)

-- The kind of the object that runs the hosts of a configuration.
abbrev pub host_kind : Bool → Kind
host_kind is_daemonset = if is_daemonset then daemon_set else deployment

by_kind :
    {E A : Type 0} (ns name : String) (b : Bool) (m n : Exec E Operator A)
    → Applies (cons_target daemon_set ns name []) m
    → Applies (cons_target deployment ns name []) n
    → Applies (cons_target (host_kind b) ns name []) (if b then m else n)
by_kind ns name true m n h k = h
by_kind ns name false m n h k = k

-- The objects of a configuration, the newest first.
abbrev pub objects : WasmCloudHostConfig → String → List Target
objects cfg ns = cons_target service ns cfg.name_any (
    cons_target (host_kind (is_daemonset cfg)) ns cfg.name_any (
      cons_target role_binding ns cfg.name_any (
        cons_target role ns cfg.name_any (
          cons_target service_account ns cfg.name_any
            (cons_target config_map ns cfg.name_any [])))))

module _ (w : World Manifest) (crates : Crates) where
  -- A call that applies one object: it counts whatever the answer is.
  pub answered :
      (call : Call) (kind : Kind) (ns name : String)
      → ((calls : List Call) → targets (call ∷ calls) ≡ cons_target kind ns name (targets calls))
      → Applies (cons_target kind ns name []) (apply w crates call)
  unfolding apply ask
  answered call kind ns name h = record {
    run = λ op.
        Post-intro (λ _ op'. AllApplied (cons_target kind ns name []) (targets op.calls) op')
          (PartApplied (cons_target kind ns name []) (targets op.calls)) (apply w crates call op).0
          (apply w crates call op).1 (λ _. h op.calls)
          (cons_target kind ns name [], ([], refl), h op.calls);
  }

  module _ (cfg : WasmCloudHostConfig) (ns : String) (e : cfg.namespace ≡ some ns) where
    configmap-Applies :
        (b : Bool) → Applies (cons_target config_map ns cfg.name_any []) (configmap w crates cfg b)
    unfolding configmap targets
    configmap-Applies b =
        Applies-bind [] _ _ _ (Applies-quiet _ λ ts. rendered-Keeps (At ts) _) λ text.
          Applies-bind [] _ _ _ (Applies-quiet _ λ ts. owned_meta-Keeps (At ts) cfg) λ meta.
            Applies-unwrap _ cfg.namespace ns _ e
              (answered _ config_map ns cfg.name_any (λ calls. refl))

    configure_auth-Applies :
        Applies
          (cons_target role_binding ns cfg.name_any
            (cons_target role ns cfg.name_any (cons_target service_account ns cfg.name_any [])))
          (configure_auth w crates cfg)
    unfolding configure_auth targets
    configure_auth-Applies =
        Applies-bind [] _ _ _ (Applies-quiet _ λ ts. owned_meta-Keeps (At ts) cfg) λ meta.
          Applies-unwrap _ cfg.namespace ns _ e (
            Applies-bind _ _ _ _ (answered _ service_account ns cfg.name_any (λ calls. refl)) λ _.
              Applies-bind _ _ _ _ (answered _ role ns cfg.name_any (λ calls. refl))
                λ _. answered _ role_binding ns cfg.name_any (λ calls. refl))

    configure_service-Applies :
        Applies (cons_target service ns cfg.name_any []) (configure_service w crates cfg)
    unfolding configure_service targets
    configure_service-Applies =
        Applies-bind [] _ _ _ (Applies-quiet _ λ ts. owned_meta-Keeps (At ts) cfg) λ meta.
          Applies-unwrap _ cfg.namespace ns _ e (answered _ service ns cfg.name_any (λ calls. refl))

    daemonset_spec-quiet : Applies [] (daemonset_spec w crates cfg)
    unfolding daemonset_spec
    daemonset_spec-quiet =
        Applies-bind [] [] _ _
          (Applies-quiet _ λ ts. pod_template-Keeps (At ts) (At-is_read ts) w crates cfg)
          λ t. Applies-pure _

    put_daemon_set-Applies :
        (vars : List EnvVar)
        → Applies (cons_target daemon_set ns cfg.name_any []) (put_daemon_set w crates cfg vars)
    unfolding put_daemon_set targets
    put_daemon_set-Applies vars =
        Applies-bind [] _ (daemonset_spec w crates cfg) _ daemonset_spec-quiet λ spec.
          Applies-bind [] _ _ _ (Applies-quiet _ λ ts. Keeps-unwrap _) λ t.
            Applies-bind [] _ _ _ (Applies-quiet _ λ ts. owned_meta-Keeps (At ts) cfg) λ meta.
              Applies-unwrap _ cfg.namespace ns _ e
                (answered _ daemon_set ns cfg.name_any (λ calls. refl))

    deployment_spec-quiet : Applies [] (deployment_spec w crates cfg)
    unfolding deployment_spec
    deployment_spec-quiet =
        Applies-bind [] [] _ _
          (Applies-quiet _ λ ts. pod_template-Keeps (At ts) (At-is_read ts) w crates cfg)
          λ t. Applies-pure _

    put_deployment-Applies :
        (vars : List EnvVar)
        → Applies (cons_target deployment ns cfg.name_any []) (put_deployment w crates cfg vars)
    unfolding put_deployment targets
    put_deployment-Applies vars =
        Applies-bind [] _ (deployment_spec w crates cfg) _ deployment_spec-quiet λ spec.
          Applies-bind [] _ _ _ (Applies-quiet _ λ ts. Keeps-unwrap _) λ t.
            Applies-bind [] _ _ _ (Applies-quiet _ λ ts. owned_meta-Keeps (At ts) cfg) λ meta.
              Applies-unwrap _ cfg.namespace ns _ e
                (answered _ deployment ns cfg.name_any (λ calls. refl))

    configure_hosts-Applies :
        Applies
          (cons_target (host_kind (is_daemonset cfg)) ns cfg.name_any [])
          (configure_hosts w crates cfg)
    unfolding configure_hosts
    configure_hosts-Applies =
        Applies-bind [] _ _ _
          (Applies-quiet _ λ ts. registry_vars-Keeps (At ts) (At-is_read ts) w crates cfg)
          λ vars.
            by_kind ns cfg.name_any (is_daemonset cfg) _ _ (put_daemon_set-Applies vars)
              (put_deployment-Applies vars)

    pub configure-Applies : (b : Bool) → Applies (objects cfg ns) (configure w crates cfg b)
    unfolding configure
    configure-Applies b = Applies-bind _ _ _ _ (configmap-Applies b) λ _.
        Applies-bind _ _ _ _ configure_auth-Applies
          λ _. Applies-bind _ _ _ _ configure_hosts-Applies λ _. configure_service-Applies
