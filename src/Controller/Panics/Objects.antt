-- ===== src/Controller/Panics/Objects.antt =====
-- The panics of src/controller.rs: the functions that apply the objects of a configuration.
use wasmcloud_operator.Base.{
  String, ◌≡◌, ◌≢◌, refl, Bool, true, Option, none, some, List, [], ◌∷◌, is_some, unwrap_or,
  Option-cases, inl, inr, arith,
}
use wasmcloud_operator.Base.Exec.{Exec, unwrap, ◌>>=◌}
use wasmcloud_operator.Base.Runs.{Runs, Any, Runs-pure, Runs-if, Runs-unwrap, Runs-bind}
use wasmcloud_operator.HostConfig.{WasmCloudHostConfig}
use wasmcloud_operator.Kube.Objects.{Secret}
use wasmcloud_operator.Kube.Pods.{Volume, EnvVar, Container, PodTemplateSpec, PodSpec}
use wasmcloud_operator.Kube.World.{World, Call, Reply, reply, failed, ask, get_secret}
use wasmcloud_operator.Manifest.Types.{Manifest}
use wasmcloud_operator.Services.Types.{Operator}
use wasmcloud_operator.Controller.Types.{
  Error, Crates, kube, kube_error, from_secret, DockerConfigJson,
}
use wasmcloud_operator.Controller.Certificates.{Mounts, add_authorities}
use wasmcloud_operator.Controller.Pod.{
  pod_template, assemble, authorities, initial_mounts, containers, pod_spec, host_container,
  additions_of, merged, deployment_spec, daemonset_spec,
}
use wasmcloud_operator.Controller.Apply.{
  owned_meta, rendered, apply, configmap, configure_auth, configure_hosts, configure_service,
  put_daemon_set, put_deployment, is_daemonset, registry_vars, checked_registry, append_env,
  registry_env,
}
use wasmcloud_operator.Controller.Reconcile.{configure}
use wasmcloud_operator.Controller.Panics.{ask_gives, Runs-ask, Runs-fail, add_authorities-Runs}

-- What `merge_from` of k8s-openapi does with variables: a container that has some keeps some.
abbrev pub KeepsEnv : Crates → Type 0
KeepsEnv crates =
    (additions c : Container)
    → is_some c.env ≡ true
    → is_some (crates.merge_from additions c).env ≡ true

-- The API server gives each secret its name.
abbrev pub IsNaming : {M : Type 0} → World M → Type 0
IsNaming w =
    (calls : List Call) (namespace name : String) (secret : Secret)
    → w.secret calls namespace name ≡ reply secret
    → is_some secret.metadata.name ≡ true

-- The image pull secret of a configuration names a registry, if it can be read.
abbrev pub HasRegistry : {M : Type 0} → World M → Crates → WasmCloudHostConfig → Type 0
HasRegistry w crates cfg =
    (calls : List Call) (namespace credentials : String) (secret : Secret)
    (docker : DockerConfigJson)
    → cfg.spec.registry_credentials_secret ≡ some credentials
    → w.secret calls namespace credentials ≡ reply secret
    → from_secret crates secret ≡ reply docker
    → docker.auths ≢ []

-- A template that variables can be appended to.
abbrev IsReady : PodTemplateSpec → Type 0
IsReady t = (vars : List EnvVar) → is_some (append_env vars t) ≡ true

module _ (cfg : WasmCloudHostConfig) (ns : String) where
  -- The API server gives the configuration its namespace and what refers to it as an owner.
  pub record IsStored : Type 0 where
    pub namespace : cfg.namespace ≡ some ns
    pub owner : is_some cfg.owner ≡ true

module _ (w : World Manifest) (crates : Crates) (cfg : WasmCloudHostConfig) (ns : String)
    (st : IsStored cfg ns) where
  owned_meta-Runs : Runs Any (owned_meta cfg)
  unfolding owned_meta
  owned_meta-Runs =
      Runs-bind Any _ _ (Runs-unwrap cfg.namespace (rw st.namespace refl))
        λ n _. Runs-bind Any _ _ (Runs-unwrap cfg.owner st.owner) λ o _. Runs-pure _ tt

  rendered-Runs : (r : Reply String) → Runs Any (rendered r)
  unfolding rendered
  rendered-Runs (reply text) = Runs-pure text tt
  rendered-Runs (failed e) = Runs-fail Any _

  apply-Runs : (call : Call) → Runs Any (apply w crates call)
  unfolding apply
  apply-Runs call = Runs-ask kube_error (λ h. w.applied h call) call

  in_namespace :
      {A : Type 0} (f : String → Exec Error Operator A)
      → ((n : String) → Runs Any (f n))
      → Runs Any (unwrap cfg.namespace >>= f)
  in_namespace f h =
      Runs-bind Any (unwrap cfg.namespace) f (Runs-unwrap cfg.namespace (rw st.namespace refl))
        λ n _. h n

  configmap-Runs : (b : Bool) → Runs Any (configmap w crates cfg b)
  unfolding configmap
  configmap-Runs b =
      Runs-bind Any
        (rendered (
          crates.render (record {
            jetstream_domain = cfg.spec.leaf_node_domain;
            cluster_url = cfg.spec.nats_address;
            leafnode_port = cfg.spec.nats_leafnode_port;
            use_credentials = b;
          })))
        _ (rendered-Runs _)
        λ text _.
          Runs-bind Any (owned_meta cfg) _ owned_meta-Runs
            λ meta _. in_namespace _ λ n. apply-Runs _

  configure_auth-Runs : Runs Any (configure_auth w crates cfg)
  unfolding configure_auth
  configure_auth-Runs = Runs-bind Any (owned_meta cfg) _ owned_meta-Runs λ meta _.
      in_namespace _ λ n.
        Runs-bind Any _ _ (apply-Runs _) λ _ _. Runs-bind Any _ _ (apply-Runs _) λ _ _. apply-Runs _

  configure_service-Runs : Runs Any (configure_service w crates cfg)
  unfolding configure_service
  configure_service-Runs =
      Runs-bind Any (owned_meta cfg) _ owned_meta-Runs λ meta _. in_namespace _ λ n. apply-Runs _

  module _ (k : KeepsEnv crates) where
    merged_env :
        (o : Option Container) (c : Container)
        → is_some c.env ≡ true
        → is_some (merged crates o c).env ≡ true
    merged_env none c h = h
    merged_env (some a) c h = k a c h

    append_host :
        (vars : List EnvVar) (leaf host : Container) (t : PodTemplateSpec) (spec : PodSpec)
        → t.spec ≡ some spec
        → spec.containers ≡ leaf ∷ host ∷ []
        → is_some host.env ≡ true
        → is_some (append_env vars t) ≡ true
    unfolding append_env
    append_host vars leaf host t spec e f h = elim (Option-cases host.env) [
      | inl g ↦ absurd (ground (arith, g, h))
      | inr (vars', g) ↦ rw (e, append_env) (rw (f, g) refl)
    ]

    pod_spec-containers :
        (cs : List Container) (volumes : List Volume) → (pod_spec cfg cs volumes).containers ≡ cs
    unfolding pod_spec
    pod_spec-containers cs volumes = ground arith

    assemble-IsReady : (m : Mounts) → IsReady (assemble crates cfg m)
    unfolding assemble containers host_container
    assemble-IsReady m vars =
        append_host vars _ _ (assemble crates cfg m) _ refl (pod_spec-containers _ _)
          (merged_env (additions_of (λ a. a.wasmcloud) cfg.spec) (host_container cfg.spec m) refl)

    pod_template-IsReady : Runs IsReady (pod_template w crates cfg)
    unfolding pod_template
    pod_template-IsReady =
        Runs-bind Any
          (add_authorities w (unwrap_or cfg.namespace "") (initial_mounts cfg)
            (authorities cfg.spec))
          _
          (add_authorities-Runs w (unwrap_or cfg.namespace "") (initial_mounts cfg)
            (authorities cfg.spec))
          λ m _. Runs-pure (assemble crates cfg m) (assemble-IsReady m)

    put_daemon_set-Runs : (vars : List EnvVar) → Runs Any (put_daemon_set w crates cfg vars)
    unfolding put_daemon_set daemonset_spec
    put_daemon_set-Runs vars =
        Runs-bind (λ spec. IsReady spec.template) (daemonset_spec w crates cfg) _
          (Runs-bind IsReady (pod_template w crates cfg) _ pod_template-IsReady
            λ t r. Runs-pure _ r)
          λ spec r.
            Runs-bind Any (unwrap (append_env vars spec.template)) _ (Runs-unwrap _ (r vars)) λ t _.
              Runs-bind Any (owned_meta cfg) _ owned_meta-Runs
                λ meta _. in_namespace _ λ n. apply-Runs _

    put_deployment-Runs : (vars : List EnvVar) → Runs Any (put_deployment w crates cfg vars)
    unfolding put_deployment deployment_spec
    put_deployment-Runs vars =
        Runs-bind (λ spec. IsReady spec.template) (deployment_spec w crates cfg) _
          (Runs-bind IsReady (pod_template w crates cfg) _ pod_template-IsReady
            λ t r. Runs-pure _ r)
          λ spec r.
            Runs-bind Any (unwrap (append_env vars spec.template)) _ (Runs-unwrap _ (r vars)) λ t _.
              Runs-bind Any (owned_meta cfg) _ owned_meta-Runs
                λ meta _. in_namespace _ λ n. apply-Runs _

    registry_env-some :
        (docker : DockerConfigJson) → docker.auths ≢ [] → is_some (registry_env docker) ≡ true
    unfolding registry_env
    registry_env-some docker h = ground (arith, h)

    module _ (named : IsNaming w) (full : HasRegistry w crates cfg) where
      checked_registry-Runs :
          (secret : Secret)
          → is_some secret.metadata.name ≡ true
          → ((docker : DockerConfigJson)
              → from_secret crates secret ≡ reply docker
              → docker.auths ≢ [])
          → (r : Reply DockerConfigJson) → from_secret crates secret ≡ r
          → Runs Any (checked_registry w crates secret)
      unfolding checked_registry
      checked_registry-Runs secret h f (failed e) p =
          rw (p, checked_registry)
            (Runs-bind Any _ _ (Runs-unwrap secret.metadata.name h) λ n _. Runs-fail Any _)
      checked_registry-Runs secret h f (reply d) p =
          rw (p, checked_registry)
            (Runs-if _ _ _
              (Runs-bind Any _ _ (Runs-unwrap secret.metadata.name h) λ n _. Runs-fail Any _)
              (Runs-unwrap (registry_env d) (registry_env-some d (f d p))))

      registry_vars-Runs : Runs Any (registry_vars w crates cfg)
      unfolding registry_vars
      registry_vars-Runs = elim (Option-cases cfg.spec.registry_credentials_secret) [
        | inl e ↦ rw (e, registry_vars) (Runs-pure _ tt)
        | inr (credentials, e) ↦
            rw (e, registry_vars)
              (in_namespace _ λ n.
                Runs-bind
                  (λ secret.
                    (is_some secret.metadata.name ≡ true)
                    × ((docker : DockerConfigJson)
                        → from_secret crates secret ≡ reply docker
                        → docker.auths ≢ []))
                  (kube (ask (λ h. w.secret h n credentials) (get_secret n credentials))) _
                  (ask_gives _ kube_error (λ h. w.secret h n credentials) (get_secret n credentials)
                    λ calls secret r. (
                      named calls n credentials secret r,
                      λ docker p. full calls n credentials secret docker e r p,
                    ))
                  λ secret (h, f).
                    checked_registry-Runs secret h f (from_secret crates secret) refl)
      ]

      configure_hosts-Runs : Runs Any (configure_hosts w crates cfg)
      unfolding configure_hosts
      configure_hosts-Runs =
          Runs-bind Any (registry_vars w crates cfg) _ registry_vars-Runs λ vars _.
            Runs-if (is_daemonset cfg) _ _ (put_daemon_set-Runs vars) (put_deployment-Runs vars)

      pub configure-Runs : (b : Bool) → Runs Any (configure w crates cfg b)
      unfolding configure
      configure-Runs b = Runs-bind Any (configmap w crates cfg b) _ (configmap-Runs b) λ _ _.
          Runs-bind Any (configure_auth w crates cfg) _ configure_auth-Runs λ _ _.
            Runs-bind Any (configure_hosts w crates cfg) _ configure_hosts-Runs
              λ _ _. configure_service-Runs
