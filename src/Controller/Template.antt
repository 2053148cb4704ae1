-- ===== src/Controller/Template.antt =====
-- The selectors of the Deployment and the DaemonSet of src/controller.rs against the labels of the
-- pod template that they hold.
use wasmcloud_operator.Base.{String, ◌≡◌, refl, some, unwrap_or}
use wasmcloud_operator.Base.BTreeMap
use wasmcloud_operator.Base.BTreeMap.{BTreeMap}
use wasmcloud_operator.Base.Outcome.{ok}
use wasmcloud_operator.HostConfig.{WasmCloudHostConfig}
use wasmcloud_operator.Kube.Pods.{PodTemplateSpec, DeploymentSpec}
use wasmcloud_operator.Kube.World.{World}
use wasmcloud_operator.Services.Types.{Operator}
use wasmcloud_operator.Services.Selection.{selector_labels-Selects}
use wasmcloud_operator.Controller.Types.{Crates}
use wasmcloud_operator.Controller.Labels.{selector_labels, pod_labels}
use wasmcloud_operator.Controller.Certificates.{add_authorities}
use wasmcloud_operator.Controller.Pod.{
  pod_template, deployment_spec, assemble, authorities, initial_mounts,
}
use wasmcloud_operator.Controller.Mounting.{Yields, Yields-bind, any_value}

abbrev IsLabelled : WasmCloudHostConfig → PodTemplateSpec → Type 0
IsLabelled config t = t.labels ≡ some (pod_labels config)

module _ {M : Type 0} (w : World M) (crates : Crates) (config : WasmCloudHostConfig) where
  pod_template-IsLabelled : Yields (IsLabelled config) (pod_template w crates config)
  unfolding pod_template assemble
  pod_template-IsLabelled =
      let loop =
        add_authorities w (unwrap_or config.namespace "") (initial_mounts config)
          (authorities config.spec) in
      Yields-bind (λ m. Unit {0}) (IsLabelled config) loop _ (any_value loop) λ m _ op. refl

  deployment_spec-labels :
      Yields
        (λ (spec : DeploymentSpec).
          (spec.match_labels ≡ some (selector_labels config)) × IsLabelled config spec.template)
        (deployment_spec w crates config)
  unfolding deployment_spec
  deployment_spec-labels =
      Yields-bind (IsLabelled config) _ (pod_template w crates config) _ pod_template-IsLabelled
        λ t h op. (refl, h)

-- If a Deployment's specification can be made, then each entry of its selector is among the labels
-- of its pod template, as the API server demands.
pub selected-deployment_spec :
    {M : Type 0} (w : World M) (crates : Crates) (config : WasmCloudHostConfig) (op : Operator)
    (spec : DeploymentSpec) (selector labels : BTreeMap String) (k v : String)
    → (deployment_spec w crates config op).0 ≡ ok spec
    → spec.match_labels ≡ some selector
    → spec.template.labels ≡ some labels
    → BTreeMap.get k selector ≡ some v
    → BTreeMap.get k labels ≡ some v
selected-deployment_spec w crates config op spec selector labels k v e s l g =
    let (p, q) = rw e at (deployment_spec-labels w crates config op) in
    let same : selector ≡ selector_labels config = cc (p, s) in
    let other : labels ≡ pod_labels config = cc (q, l) in
    rw other (selector_labels-Selects config k v (rw same at g))
