-- ===== src/Tests/ControllerRuns.antt =====
-- src/controller.rs at a host configuration.
use wasmcloud_operator.Manifest.HttpServer.{http_server_component}
use wasmcloud_operator.Services.Types.{new}
use wasmcloud_operator.Kube.World.{ask, ask_wadm}
use wasmcloud_operator.Controller.Types.{from_secret}
use wasmcloud_operator.Base.{◌≡◌, refl, length, [], some, ◌∷◌, none, true}
use wasmcloud_operator.Base.Outcome.{ok}
use wasmcloud_operator.Services.Reach.{initial}
use wasmcloud_operator.Controller.Apply.{checked_registry}
use wasmcloud_operator.Controller.Reconcile.{requeue, reconcile_crd, cleanup}
use wasmcloud_operator.Controller.Registry.{IsVerdict, checked_registry-IsVerdict}
use wasmcloud_operator.Controller.Watched.{Joins, reconcile_crd-Joins}
use wasmcloud_operator.Controller.Cleanup.{IsCleaned, cleanup-IsCleaned}
use wasmcloud_operator.Controller.Certificates.{Mounts}
use wasmcloud_operator.Controller.Volumes.{IsWhole, pod_template-IsWhole}
use wasmcloud_operator.Controller.Order.{targets, status, cons_target, AllApplied, PartApplied}
use wasmcloud_operator.Controller.Order.Steps.{objects}
use wasmcloud_operator.Controller.Order.Sequence.{reconcile_crd-Applies}
use wasmcloud_operator.Controller.Panics.Objects.{IsNaming, HasRegistry}
use wasmcloud_operator.Controller.Panics.Whole.{panic-reconcile_crd}
use wasmcloud_operator.Base.Post.{Post}
use wasmcloud_operator.Base.Outcome.{panic}
use wasmcloud_operator.HostConfig.{WasmCloudHostConfig}
use wasmcloud_operator.Kube.World.{World, reply}
use wasmcloud_operator.Manifest.Types.{Manifest}
use wasmcloud_operator.Base.{◌≢◌, ap, ◌∙◌}
use wasmcloud_operator.Base.BTreeMap
use wasmcloud_operator.Base.{as_i32, pos, ◌<◌, ◌↔◌}
use wasmcloud_operator.Controller.Replicas.{replicas-deployment_spec}
use wasmcloud_operator.Kube.Pods.{DeploymentSpec}
use wasmcloud_operator.Controller.Labels.{selector_labels, pod_labels}
use wasmcloud_operator.Controller.Pod.{pod_template, assemble, initial_mounts, deployment_spec}
use wasmcloud_operator.Controller.Template.{selected-deployment_spec}
use wasmcloud_operator.Tests.Samples.{
  authority, sample_config, sample_crates, cluster, pull_secret, registries,
}

reconciled : (reconcile_crd cluster sample_crates sample_config (initial 1)).0 ≡ ok (requeue 300)
unfolding reconcile_crd ask new http_server_component ask_wadm
reconciled = refl

reconcile_crd-Joins_example :
    Joins "default" "apps"
      (initial 1).services
      (reconcile_crd cluster sample_crates sample_config (initial 1)).0
      (reconcile_crd cluster sample_crates sample_config (initial 1)).1.services
reconcile_crd-Joins_example =
    reconcile_crd-Joins cluster sample_crates sample_config sample_config "apps" (initial 1) refl
      refl

cleanup-IsCleaned_example :
    IsCleaned sample_config "apps"
      (initial 1)
      (cleanup cluster sample_crates sample_config (initial 1)).1
cleanup-IsCleaned_example =
    cleanup-IsCleaned cluster sample_crates sample_config "apps" (initial 1) refl

checked_registry-IsVerdict_example :
    IsVerdict
      (length registries.auths)
      (checked_registry cluster sample_crates pull_secret (initial 1)).0
unfolding from_secret
checked_registry-IsVerdict_example =
    checked_registry-IsVerdict cluster sample_crates pull_secret registries "pull" (initial 1) refl
      refl

-- A configuration with a secret of NATS credentials and a certificate authority.
abbrev mounted_config : WasmCloudHostConfig
mounted_config = record sample_config {
  spec = record (sample_config.spec) {
    secret_name = some "nats";
    registry_credentials_secret = some "pull";
    certificates = some (record { authorities = some (authority ∷ []) });
  };
}

-- A cluster that answers with it.
abbrev mounted_cluster : World Manifest
mounted_cluster = record cluster { host_config = λ h ns name. reply mounted_config }

reply_inj : {A : Type 0} (a b : A) → reply a ≡ reply b → a ≡ b
reply_inj a b e = cc

named : IsNaming mounted_cluster
named calls n name secret e = rw (← reply_inj pull_secret secret e) refl

full : HasRegistry mounted_cluster sample_crates mounted_config
unfolding from_secret
full calls n credentials secret docker e f g =
    let p : from_secret sample_crates pull_secret ≡ reply docker =
      ap (from_secret sample_crates) (reply_inj pull_secret secret f) ∙ g in
    rw (← reply_inj registries docker p) (λ q. cc)

abbrev one_mount : Mounts
one_mount = record (initial_mounts mounted_config) {
  volumes =
      record {
        name = "nats-config";
        secret = none;
        config_map = some (record { name = some "hosts" });
      }
      ∷ record {
        name = "ca-main";
        secret = some (record { secret_name = some "pull" });
        config_map = none;
      }
      ∷ [];
  volume_mounts =
      record {
        name = "ca-main";
        mount_path = "/wasmcloud/certificates/ca-main";
        read_only = some true;
        sub_path = none;
      }
      ∷ [];
  args = "--tls-ca-path" ∷ "/wasmcloud/certificates/ca-main/ca.crt" ∷ [];
}

template_made :
    (pod_template cluster sample_crates mounted_config (initial 1)).0
    ≡ ok (assemble sample_crates mounted_config one_mount)
unfolding pod_template ask
template_made = refl

pod_template-IsWhole_example : IsWhole (assemble sample_crates mounted_config one_mount)
pod_template-IsWhole_example =
    pod_template-IsWhole sample_crates (λ volumes additions c h k. k) cluster mounted_config
      (initial 1) (assemble sample_crates mounted_config one_mount) (λ a e. cc) (λ a e. cc)
      template_made

mounted_reconciled :
    (reconcile_crd mounted_cluster sample_crates sample_config (initial 1)).0 ≡ ok (requeue 300)
unfolding reconcile_crd ask new http_server_component ask_wadm
mounted_reconciled = refl

reconcile_crd-Applies_example :
    Post
      (λ _ op'.
        AllApplied (cons_target status "apps" "hosts" (objects mounted_config "apps")) [] op')
      (PartApplied (cons_target status "apps" "hosts" (objects mounted_config "apps")) [])
      (reconcile_crd mounted_cluster sample_crates sample_config (initial 1))
unfolding targets
reconcile_crd-Applies_example =
    reconcile_crd-Applies mounted_cluster sample_crates sample_config mounted_config "apps"
      (initial 1) refl refl refl

panic-reconcile_crd_example :
    (reconcile_crd mounted_cluster sample_crates sample_config (initial 1)).0 ≢ panic
panic-reconcile_crd_example =
    panic-reconcile_crd mounted_cluster sample_crates sample_config mounted_config "apps"
      (initial 1) refl refl refl (record { namespace = refl; owner = refl }) named full
      (λ additions c h. h) (λ text e. cc)

abbrev sample_deployment : DeploymentSpec
sample_deployment = record {
  replicas = some (as_i32 2);
  match_labels = some (selector_labels sample_config);
  template = assemble sample_crates sample_config (initial_mounts sample_config);
}

deployment_made :
    (deployment_spec cluster sample_crates sample_config (initial 1)).0 ≡ ok sample_deployment
unfolding deployment_spec
deployment_made = refl

selected-deployment_spec_example :
    BTreeMap.get "app.kubernetes.io/name" (pod_labels sample_config) ≡ some "wasmcloud"
unfolding assemble selector_labels BTreeMap.get
selected-deployment_spec_example =
    selected-deployment_spec cluster sample_crates sample_config (initial 1) sample_deployment
      (selector_labels sample_config) (pod_labels sample_config) "app.kubernetes.io/name"
      "wasmcloud" deployment_made refl refl refl

replicas-deployment_spec_example :
    (sample_deployment.replicas ≡ some (pos sample_config.spec.host_replicas))
    ↔ (sample_config.spec.host_replicas < 2_147_483_648)
replicas-deployment_spec_example =
    replicas-deployment_spec cluster sample_crates sample_config (initial 1) sample_deployment
      deployment_made
