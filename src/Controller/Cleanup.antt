-- ===== src/Controller/Cleanup.antt =====
-- `cleanup` of src/controller.rs: what becomes of the service watcher and of the credentials.
use wasmcloud_operator.Base.{
  String, ◌≡◌, refl, false, ◌&&◌, ◌==◌, some, if◌then◌else◌, inl, inr, ◌<>◌, Bool-cases, ap, ◌∙◌,
  none,
}
use wasmcloud_operator.Base.Outcome.{Outcome, ok, err, panic}
use wasmcloud_operator.Base.Exec.{Exec, continue, ◌>>◌, map_err, map_error, pure}
use wasmcloud_operator.Base.HashMap
use wasmcloud_operator.Base.HashMap.{string_key, get-remove}
use wasmcloud_operator.HostConfig.{WasmCloudHostConfig}
use wasmcloud_operator.Kube.World.{World}
use wasmcloud_operator.Manifest.Types.{Manifest}
use wasmcloud_operator.Services.Types.{
  name_namespace_key, Operator, NameNamespace, name_namespace_eq,
}
use wasmcloud_operator.Services.Watch.{on_services, stop_watch}
use wasmcloud_operator.Services.Watching.{watches-stop_watch, watches}
use wasmcloud_operator.Controller.Types.{Error, Crates, nats_error}
use wasmcloud_operator.Controller.Reconcile.{Action, cleanup, forget_creds, await_change}

abbrev pub key_of : WasmCloudHostConfig → String → NameNamespace
key_of config ns = record { name = config.name_any; namespace = ns }

-- What a clean-up leaves.
pub record IsCleaned (config : WasmCloudHostConfig) (ns : String) (op op' : Operator) : Type 0 where
  pub pairs :
      (l n : String)
      → watches op'.services l n
        ≡ (if config.spec.lattice == l && ns == n then false else watches op.services l n)
  pub creds :
      (key : NameNamespace)
      → HashMap.get key op'.nats_creds ≡ (
          if config.is_deleted && name_namespace_eq (key_of config ns) key
          then none
          else HashMap.get key op.nats_creds)

-- The end of `cleanup`, whatever `stop_watch` reports.
abbrev stop_and_wait : String → String → Exec Error Operator Action
stop_and_wait l n =
    map_err (λ e. nats_error ("Failed to stop service watcher: " <> e))
      (on_services (stop_watch l n))
    >> pure await_change

after_stop :
    (f : String → Error) (r : Outcome String (Unit {0})) (op : Operator)
    → (continue (map_error f r) (λ _. pure await_change) op).1 ≡ op
after_stop f (ok a) op = refl
after_stop f (err e) op = refl
after_stop f panic op = refl

stop_and_wait_lem :
    (l n : String) (op : Operator)
    → (stop_and_wait l n op).1 ≡ record op { services = (stop_watch l n op.services).1 }
stop_and_wait_lem l n op =
    after_stop (λ e. nats_error ("Failed to stop service watcher: " <> e))
      (stop_watch l n op.services).0 (record op { services = (stop_watch l n op.services).1 })

stopped :
    (l n : String) (op : Operator) (l' n' : String)
    → watches (stop_and_wait l n op).1.services l' n'
      ≡ (if l == l' && n == n' then false else watches op.services l' n')
stopped l n op l' n' =
    ap (λ o. watches (o.services) l' n') (stop_and_wait_lem l n op)
    ∙ watches-stop_watch l n op.services l' n'

module _ (w : World Manifest) (crates : Crates) where
  -- What `cleanup` leaves for a configuration with a namespace, also if it reports an error: the
  -- lattice of the configuration is not watched for its namespace and every other pair is watched
  -- as before, and the credentials are forgotten exactly for a configuration that is deleted.
  pub cleanup-IsCleaned :
      (config : WasmCloudHostConfig) (ns : String) (op : Operator)
      → config.namespace ≡ some ns
      → IsCleaned config ns op (cleanup w crates config op).1
  unfolding cleanup forget_creds
  cleanup-IsCleaned config ns op e = record {
    pairs = λ l n.
        rw (e, cleanup)
          (elim (Bool-cases config.is_deleted) [
            | inl d ↦ rw d (
                stopped config.spec.lattice ns
                  (record op { nats_creds = HashMap.remove (key_of config ns) op.nats_creds }) l n)
            | inr d ↦ rw d (stopped config.spec.lattice ns op l n)
          ]);
    creds = λ key.
        rw (e, cleanup)
          (elim (Bool-cases config.is_deleted) [
            | inl d ↦ rw d (
                ap (λ o. HashMap.get key (o.nats_creds))
                  (stop_and_wait_lem config.spec.lattice ns
                    (record op { nats_creds = HashMap.remove (key_of config ns) op.nats_creds }))
                ∙ get-remove {V = String} (key_of config ns) key op.nats_creds)
            | inr d ↦ rw d (
                ap (λ o. HashMap.get key (o.nats_creds))
                  (stop_and_wait_lem config.spec.lattice ns op))
          ]);
  }
