-- ===== src/Controller/Pod.antt =====
-- `pod_template` of src/controller.rs, and the specifications of the Deployment and the DaemonSet.
use wasmcloud_operator.Base.{
  String, true, Option, none, some, List, [], ◌∷◌, ◌++◌, ◌<>◌, unwrap_or, as_i32,
}
use wasmcloud_operator.Base.Exec.{Exec, pure, ◌>>=◌}
use wasmcloud_operator.HostConfig.{
  WasmCloudHostConfig, WasmCloudHostConfigSpec, KubernetesSchedulingOptions,
  WasmCloudHostConfigResources, ContainerTemplateAdditions, WasmCloudHostCertificates,
}
use wasmcloud_operator.Kube.Pods.{
  Volume, VolumeMount, ResourceRequirements, Container, PodSpec, PodTemplateSpec, DeploymentSpec,
  DaemonSetSpec,
}
use wasmcloud_operator.Kube.World.{World}
use wasmcloud_operator.Services.Types.{Operator}
use wasmcloud_operator.Controller.Types.{Error, Crates}
use wasmcloud_operator.Controller.Labels.{selector_labels, pod_labels}
use wasmcloud_operator.Controller.Observability.{configure_observability}
use wasmcloud_operator.Controller.Env.{wasmcloud_env}
use wasmcloud_operator.Controller.Certificates.{Mounts, add_authorities}

-- `as_ref().and_then(f)`
abbrev pub and_then : {A B : Type 0} → Option A → (A → Option B) → Option B
and_then none f = none
and_then (some a) f = f a

unfoldable pub host_image : WasmCloudHostConfigSpec → String
host_image spec = unwrap_or spec.image ("ghcr.io/wasmcloud/wasmcloud:" <> spec.version)

unfoldable pub leaf_image : WasmCloudHostConfigSpec → String
leaf_image spec = unwrap_or spec.nats_leaf_image "nats:2.10-alpine"

-- The resources of a container: those of the NATS leaf, or of the host.
unfoldable pub resources_of :
    (WasmCloudHostConfigResources → Option ResourceRequirements)
    → WasmCloudHostConfigSpec
    → Option ResourceRequirements
resources_of pick spec =
    and_then (and_then spec.scheduling_options (λ (so : KubernetesSchedulingOptions). so.resources))
      pick

-- The lists at the start of the loop over the authorities.
unfoldable pub initial_mounts : WasmCloudHostConfig → Mounts
unfolding configure_observability
initial_mounts config = record {
  volumes =
      record {
        name = "nats-config";
        secret = none;
        config_map = some (record { name = some config.name_any });
      }
      ∷ [];
  volume_mounts = [];
  args = configure_observability config.spec;
}

unfoldable pub authorities : WasmCloudHostConfigSpec → List Volume
authorities spec =
    unwrap_or (and_then spec.certificates (λ (c : WasmCloudHostCertificates). c.authorities)) []

abbrev pub nats_config_mount : VolumeMount
nats_config_mount = record {
  name = "nats-config";
  mount_path = "/nats/nats.conf";
  read_only = some true;
  sub_path = some "nats.conf";
}

-- The volume and the mount of the NATS credentials, if a secret is named.
unfoldable pub creds_volume : WasmCloudHostConfigSpec → List Volume
creds_volume spec = elim spec.secret_name [
  | none ↦ []
  | some secret_name ↦
      record {
        name = "nats-creds";
        secret = some (record { secret_name = some secret_name });
        config_map = none;
      }
      ∷ []
]

unfoldable pub nats_volume_mounts : WasmCloudHostConfigSpec → List VolumeMount
nats_volume_mounts spec = nats_config_mount ∷ (elim spec.secret_name [
  | none ↦ []
  | some _ ↦
      record {
        name = "nats-creds";
        mount_path = "/nats/nats.creds";
        read_only = some true;
        sub_path = some "nats.creds";
      }
      ∷ []
])

unfoldable pub leaf_container : WasmCloudHostConfigSpec → Container
unfolding leaf_image resources_of nats_volume_mounts
leaf_container spec = record {
  name = "nats-leaf";
  image = some (leaf_image spec);
  command = none;
  args = some ("-js" ∷ "--config" ∷ "/nats/nats.conf" ∷ []);
  env = none;
  image_pull_policy = some "IfNotPresent";
  ports = some (4222 ∷ []);
  pre_stop = some ("sleep" ∷ "10" ∷ []);
  resources = resources_of (λ r. r.nats) spec;
  volume_mounts = some (nats_volume_mounts spec);
  other = "";
}

unfoldable pub host_container : WasmCloudHostConfigSpec → Mounts → Container
unfolding host_image resources_of wasmcloud_env
host_container spec m = record {
  name = "wasmcloud-host";
  image = some (host_image spec);
  command = some ("wasmcloud" ∷ []);
  args = some m.args;
  env = some (wasmcloud_env spec);
  image_pull_policy = none;
  ports = none;
  pre_stop = none;
  resources = resources_of (λ r. r.wasmcloud) spec;
  volume_mounts = some m.volume_mounts;
  other = "";
}

-- `additions.merge_from(container)`, if there are additions.
abbrev pub merged : Crates → Option Container → Container → Container
merged crates none c = c
merged crates (some additions) c = crates.merge_from additions c

abbrev pub additions_of :
    (ContainerTemplateAdditions → Option Container) → WasmCloudHostConfigSpec → Option Container
additions_of pick spec =
    and_then
      (and_then spec.scheduling_options
        (λ (so : KubernetesSchedulingOptions). so.container_template_additions))
      pick

unfoldable pub containers : Crates → WasmCloudHostConfigSpec → Mounts → List Container
unfolding leaf_container host_container
containers crates spec m =
    merged crates (additions_of (λ a. a.nats) spec) (leaf_container spec)
    ∷ merged crates (additions_of (λ a. a.wasmcloud) spec) (host_container spec m)
    ∷ []

-- The pod's specification: the additions of the configuration, with the operator's account,
-- containers and volumes, or a plain one.
unfoldable pub pod_spec : WasmCloudHostConfig → List Container → List Volume → PodSpec
pod_spec config cs volumes =
    elim (and_then config.spec.scheduling_options
      (λ (so : KubernetesSchedulingOptions). so.pod_template_additions)) [
        | none ↦ record {
          service_account = some config.name_any;
          service_account_name = none;
          containers = cs;
          volumes = some volumes;
          other = "";
        }
        | some overrides ↦ record overrides {
          service_account_name = some config.name_any;
          containers = cs;
          volumes = some (volumes ++ unwrap_or overrides.volumes []);
        }
      ]

unfoldable pub assemble : Crates → WasmCloudHostConfig → Mounts → PodTemplateSpec
unfolding containers pod_spec creds_volume pod_labels
assemble crates config m = record {
  labels = some (pod_labels config);
  spec =
      some
        (pod_spec config (containers crates config.spec m) (m.volumes ++ creds_volume config.spec));
}

module _ {M : Type 0} (w : World M) (crates : Crates) where
  unfoldable pub pod_template : WasmCloudHostConfig → Exec Error Operator PodTemplateSpec
  unfolding add_authorities authorities initial_mounts assemble
  pod_template config = do
    m ←
        add_authorities w (unwrap_or config.namespace "") (initial_mounts config)
          (authorities config.spec)
    pure (assemble crates config m)

  unfoldable pub deployment_spec : WasmCloudHostConfig → Exec Error Operator DeploymentSpec
  unfolding pod_template selector_labels as_i32
  deployment_spec config = do
    template ← pod_template config
    pure (record {
      replicas = some (as_i32 config.spec.host_replicas);
      match_labels = some (selector_labels config);
      template = template;
    })

  unfoldable pub daemonset_spec : WasmCloudHostConfig → Exec Error Operator DaemonSetSpec
  unfolding pod_template selector_labels
  daemonset_spec config = do
    template ← pod_template config
    pure (record { match_labels = some (selector_labels config); template = template })
