-- ===== src/Controller/Replicas.antt =====
-- The number of replicas in `deployment_spec` of src/controller.rs, a 32-bit unsigned number cast to
-- a signed one.
use wasmcloud_operator.Base.{ℕ, ◌<◌, pos, as_i32, ◌≡◌, refl, some, ◌↔◌, arith}
use wasmcloud_operator.Base.Outcome.{ok}
use wasmcloud_operator.HostConfig.{WasmCloudHostConfig}
use wasmcloud_operator.Kube.Pods.{DeploymentSpec}
use wasmcloud_operator.Kube.World.{World}
use wasmcloud_operator.Services.Types.{Operator}
use wasmcloud_operator.Controller.Types.{Crates}
use wasmcloud_operator.Controller.Pod.{pod_template, deployment_spec}
use wasmcloud_operator.Controller.Mounting.{Yields, Yields-bind, any_value}

as_i32_iff : (n : ℕ) → (some (as_i32 n) ≡ some (pos n)) ↔ (n < 2_147_483_648)
unfolding as_i32
as_i32_iff n = ((λ h. ground (arith, h)), (λ h. ground (arith, h)))

module _ {M : Type 0} (w : World M) (crates : Crates) (config : WasmCloudHostConfig) where
  deployment_spec-cast :
      Yields
        (λ (spec : DeploymentSpec). spec.replicas ≡ some (as_i32 config.spec.host_replicas))
        (deployment_spec w crates config)
  unfolding deployment_spec
  deployment_spec-cast =
      Yields-bind (λ _. Unit {0}) _ (pod_template w crates config) _
        (any_value (pod_template w crates config)) λ t h op. refl

-- If a Deployment's specification can be made, it asks for as many replicas as the configuration
-- exactly if those are fewer than 2 ^ 31.
pub replicas-deployment_spec :
    {M : Type 0} (w : World M) (crates : Crates) (config : WasmCloudHostConfig) (op : Operator)
    (spec : DeploymentSpec)
    → (deployment_spec w crates config op).0 ≡ ok spec
    → (spec.replicas ≡ some (pos config.spec.host_replicas))
      ↔ (config.spec.host_replicas < 2_147_483_648)
replicas-deployment_spec w crates config op spec e =
    let same = rw e at (deployment_spec-cast w crates config op) in
    rw same (as_i32_iff config.spec.host_replicas)
