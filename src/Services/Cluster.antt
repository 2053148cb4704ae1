-- ===== src/Services/Cluster.antt =====
-- The functions of src/services.rs that change services in the cluster, and the loop that
-- `ServiceWatcher::new` spawns to carry out commands.
use wasmcloud_operator.Base.{
  String, Bool, true, false, Option, none, some, List, [], ◌∷◌, ◌++◌, map, ◌==◌, if◌then◌else◌,
  ◌<>◌, is_empty, is_some,
}
use wasmcloud_operator.Base.Outcome.{ok, err, panic}
use wasmcloud_operator.Base.Exec.{pure, unwrap, ◌>>=◌, ignore_error, for_each, fold_each}
use wasmcloud_operator.Base.BTreeMap
use wasmcloud_operator.Base.BTreeMap.{BTreeMap}
use wasmcloud_operator.HostConfig.{WasmCloudHostConfig}
use wasmcloud_operator.Kube.Objects.{
  OwnerReference, default_meta, ServicePort, Service, Endpoint, EndpointSlice, Pod,
}
use wasmcloud_operator.Kube.World.{
  Call, get_service, delete_service as delete_service_call, list_host_configs, list_pods,
  list_services, apply_service, apply_endpoints, World, Net, ask,
}
use wasmcloud_operator.Controller.Labels.{
  cluster_config_finalizer, service_finalizer, managed_by_requirement, common_labels,
  format_service_selector,
}
use wasmcloud_operator.Services.Types.{
  WatcherCommand, upsert_service, remove_service, remove_services, ServiceParams, Operator,
}

unfoldable pub service_labels : ServiceParams → BTreeMap String
unfolding BTreeMap.extend common_labels
service_labels params = BTreeMap.extend common_labels (("app.kubernetes.io/name", params.name) ∷ [])

-- The selector: empty if the parameters name no host labels.
unfoldable pub service_selector : ServiceParams → BTreeMap String
unfolding BTreeMap.extend BTreeMap.insert format_service_selector
service_selector params = elim params.host_labels [
  | none ↦ []
  | some host_labels ↦
      BTreeMap.extend (BTreeMap.insert "app.kubernetes.io/name" "wasmcloud" [])
        (map (λ (kv : String × String). (format_service_selector kv.0, kv.1)) host_labels)
]

unfoldable pub create_endpoints : ServiceParams → Bool
create_endpoints params = if is_some params.host_labels then false else true

abbrev pub http_port : ServiceParams → ServicePort
http_port params = record { name = some "http"; port = params.port; protocol = some "TCP" }

unfoldable pub service_object : ServiceParams → Option OwnerReference → String → Service
unfolding service_labels service_selector
service_object params owner_ref namespace = record {
  metadata = record {
    name = some params.name;
    namespace = some namespace;
    labels = some (service_labels params);
    finalizers = some (service_finalizer ∷ []);
    managed_fields = none;
    owner_references = elim owner_ref [ none ↦ none | some o ↦ some (o ∷ []) ];
  };
  spec =
      some (record {
        selector = some (service_selector params);
        ports = some (http_port params ∷ []);
      });
  owner = none;
}

-- The addresses of the pods that run.
unfoldable pub pod_ips : List Pod → List (Option String)
pod_ips [] = []
pod_ips (pod ∷ pods) =
    let rest = pod_ips pods in
    elim pod.status [
      | none ↦ rest
      | some status ↦ elim status.phase [
        | none ↦ rest
        | some phase ↦
            if phase == "Running"
            then elim status.pod_ips [ none ↦ rest | some ips ↦ ips ++ rest ]
            else rest
      ]
    ]

unfoldable pub endpoints_of : List (Option String) → List Endpoint
endpoints_of [] = []
endpoints_of (none ∷ ips) = endpoints_of ips
endpoints_of (some i ∷ ips) =
    record { addresses = i ∷ []; ready = some true; serving = some true } ∷ endpoints_of ips

unfoldable pub endpoint_slice :
    ServiceParams → OwnerReference → List (Option String) → EndpointSlice
unfolding service_labels BTreeMap.insert endpoints_of
endpoint_slice params owner ips = record {
  metadata = record default_meta {
    name = some params.name;
    labels =
        some (BTreeMap.insert "kubernetes.io/service-name" params.name (service_labels params));
    owner_references = some (owner ∷ []);
  };
  address_type = "IPv4";
  endpoints = endpoints_of ips;
  ports = some (http_port params ∷ []);
}

abbrev pub pod_selector : String → String
pod_selector name = "app.kubernetes.io/name=wasmcloud,app.kubernetes.io/instance=" <> name

-- `svc.metadata.finalizers = None; svc.metadata.managed_fields = None`
abbrev pub without_finalizers : Service → Service
without_finalizers svc = record svc {
  metadata = record (svc.metadata) { finalizers = none; managed_fields = none };
}

module _ {M : Type 0} (w : World M) where
  -- The pods of one host configuration, if it is of the lattice.
  unfoldable pub config_ips :
      String → String → List (Option String) → WasmCloudHostConfig → Net (List (Option String))
  unfolding pod_ips
  config_ips lattice_id namespace ips cfg =
      if cfg.spec.lattice == lattice_id
      then (do
        name ← unwrap cfg.name
        pods ←
            ask (λ h. w.pods h namespace (pod_selector name))
              (list_pods namespace (pod_selector name))
        pure (ips ++ pod_ips pods))
      else pure ips

  unfoldable pub lattice_ips : String → String → Net (List (Option String))
  unfolding config_ips fold_each
  lattice_ips lattice_id namespace = do
    configs ← ask (λ h. w.host_configs h namespace) (list_host_configs namespace)
    fold_each (config_ips lattice_id namespace) [] configs

  unfoldable pub put_endpoints : ServiceParams → String → Service → Net (Unit {0})
  unfolding lattice_ips endpoint_slice
  put_endpoints params namespace svc = do
    ips ← lattice_ips params.lattice_id namespace
    if is_empty ips then pure tt else do
      owner ← unwrap svc.owner
      let call =
          apply_endpoints namespace params.name
            (record { field_manager = cluster_config_finalizer; force = false })
            (endpoint_slice params owner ips)
      ask (λ h. w.applied h call) call

  -- One namespace of the loop in `create_or_update_service`.
  unfoldable pub put_service : ServiceParams → Option OwnerReference → String → Net (Unit {0})
  unfolding service_object put_endpoints create_endpoints
  put_service params owner_ref namespace = do
    let svc = service_object params owner_ref namespace
    created ←
        ask (λ h. w.applied_service h svc)
          (apply_service namespace params.name
            (record { field_manager = service_finalizer; force = false }) svc)
    if create_endpoints params then put_endpoints params namespace created else pure tt

  unfoldable pub create_or_update_service : ServiceParams → Option OwnerReference → Net (Unit {0})
  unfolding put_service for_each
  create_or_update_service params owner_ref =
      for_each (put_service params owner_ref) params.namespaces

  -- `delete_service` once it has the service.
  unfoldable pub clear_and_delete : String → String → Service → Net (Unit {0})
  clear_and_delete namespace name svc = do
    patched ←
        ask (λ h. w.applied_service h (without_finalizers svc))
          (apply_service namespace name (record { field_manager = service_finalizer; force = true })
            (without_finalizers svc))
    ask (λ h. w.deleted h namespace name) (delete_service_call namespace name)

  unfoldable pub delete_service : String → String → Net (Unit {0})
  unfolding clear_and_delete
  delete_service namespace name = do
    svc ← ask (λ h. w.service h namespace name) (get_service namespace name)
    clear_and_delete namespace name svc

  -- One service of the loop in `delete_services`.
  unfoldable pub delete_listed : String → Service → Net (Unit {0})
  unfolding delete_service
  delete_listed namespace svc = do name ← unwrap svc.metadata.name; delete_service namespace name

  unfoldable pub delete_services : String → Net (Unit {0})
  unfolding delete_listed for_each
  delete_services namespace = do
    services ←
        ask (λ h. w.services h namespace managed_by_requirement)
          (list_services namespace managed_by_requirement)
    for_each (delete_listed namespace) services

  -- One command of the loop in `ServiceWatcher::new`.
  unfoldable pub run_command : WatcherCommand → Net (Unit {0})
  unfolding create_or_update_service delete_service delete_services ignore_error for_each
  run_command (upsert_service params) = ignore_error (create_or_update_service params none)
  run_command (remove_service name namespaces) =
      for_each (λ namespace. ignore_error (delete_service namespace name)) namespaces
  run_command (remove_services namespaces) =
      for_each (λ namespace. ignore_error (delete_services namespace)) namespaces

  -- The commands that are in the channel, oldest first. A panic ends the receiving task.
  unfoldable pub run_commands : List WatcherCommand → List Call → Bool × List Call
  unfolding run_command
  run_commands [] calls = (true, calls)
  run_commands (cmd ∷ cmds) calls =
      let (r, calls') = run_command cmd calls in
      elim r [
        | ok _ ↦ run_commands cmds calls'
        | err _ ↦ run_commands cmds calls'
        | panic ↦ (false, calls')
      ]

  -- A task that has panicked takes nothing more from the channel.
  unfoldable pub drain : Operator → Operator
  unfolding run_commands
  drain op =
      let (alive, calls) = run_commands op.services.queue op.calls in
      if op.services.is_open
      then record op {
        calls = calls;
        services = record (op.services) { queue = []; is_open = alive };
      }
      else op
