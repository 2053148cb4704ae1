-- ===== src/Services/Calls.antt =====
-- Properties of the calls made that hold whatever code of src/services.rs makes more of them.
use wasmcloud_operator.Base.{String, Option, none, List, [], ◌∷◌}
use wasmcloud_operator.Base.Keeps.{
  Keeps, Keeps-bind, Keeps-pure, Keeps-unwrap, Keeps-if, Keeps-for_each, Keeps-fold_each,
  Keeps-ignore,
}
use wasmcloud_operator.HostConfig.{WasmCloudHostConfig}
use wasmcloud_operator.Kube.Objects.{OwnerReference, Service}
use wasmcloud_operator.Kube.World.{
  Call, get_service, delete_service as deletes, list_host_configs, list_pods, list_services,
  apply_service, apply_endpoints, Reply, World, ask,
}
use wasmcloud_operator.Services.Types.{
  WatcherCommand, upsert_service, remove_service, remove_services, ServiceParams,
}
use wasmcloud_operator.Services.Cluster.{
  config_ips, lattice_ips, put_endpoints, put_service, create_or_update_service, delete_service,
  delete_listed, delete_services, run_command, service_object, pod_selector, endpoint_slice,
  clear_and_delete,
}

-- Calls that delete nothing.
abbrev pub IsMild : Call → Type 0
IsMild (deletes ns name) = ⊥
IsMild _ = Unit

-- `P` survives every call that deletes nothing, and the end of `delete_service`.
module _ {M : Type 0} (w : World M) (P : List Call → Type 0)
    (mild : (c : Call) (calls : List Call) → IsMild c → P calls → P (c ∷ calls))
    (deletion : (n name : String) (svc : Service) → Keeps P (clear_and_delete w n name svc)) where
  Keeps-ask : {A : Type 0} (f : List Call → Reply A) (c : Call) → IsMild c → Keeps P (ask f c)
  unfolding ask
  Keeps-ask f c m = record { after = λ s h. mild c s m h }

  config_ips-Keeps :
      (l n : String) (ips : List (Option String)) (cfg : WasmCloudHostConfig)
      → Keeps P (config_ips w l n ips cfg)
  unfolding config_ips
  config_ips-Keeps l n ips cfg =
      Keeps-if _ _ _
        (Keeps-bind _ _ (Keeps-unwrap cfg.name) λ name.
          Keeps-bind _ _ (Keeps-ask _ (list_pods n (pod_selector name)) tt) λ pods. Keeps-pure _)
        (Keeps-pure ips)

  pub delete_service-Keeps : (n name : String) → Keeps P (delete_service w n name)
  unfolding delete_service
  delete_service-Keeps n name =
      Keeps-bind _ _ (Keeps-ask _ (get_service n name) tt) (deletion n name)

  lattice_ips-Keeps : (l n : String) → Keeps P (lattice_ips w l n)
  unfolding lattice_ips
  lattice_ips-Keeps l n =
      Keeps-bind _ _ (Keeps-ask _ (list_host_configs n) tt)
        λ configs. Keeps-fold_each (config_ips w l n) (config_ips-Keeps l n) [] configs

  pub put_endpoints-Keeps :
      (params : ServiceParams) (n : String) (svc : Service) → Keeps P (put_endpoints w params n svc)
  unfolding put_endpoints
  put_endpoints-Keeps params n svc = Keeps-bind _ _ (lattice_ips-Keeps params.lattice_id n) λ ips.
      Keeps-if _ _ _ (Keeps-pure tt) (
        Keeps-bind _ _ (Keeps-unwrap svc.owner) λ owner.
          Keeps-ask _ (apply_endpoints n params.name _ (endpoint_slice params owner ips)) tt)

  pub put_service-Keeps :
      (params : ServiceParams) (o : Option OwnerReference) (n : String)
      → Keeps P (put_service w params o n)
  unfolding put_service
  put_service-Keeps params o n =
      Keeps-bind _ _ (Keeps-ask _ (apply_service n params.name _ (service_object params o n)) tt)
        λ svc. Keeps-if _ _ _ (put_endpoints-Keeps params n svc) (Keeps-pure tt)

  delete_services-Keeps : (n : String) → Keeps P (delete_services w n)
  unfolding delete_services delete_listed
  delete_services-Keeps n = Keeps-bind _ _ (Keeps-ask _ (list_services n _) tt) λ services.
      Keeps-for_each (delete_listed w n)
        (λ svc. Keeps-bind _ _ (Keeps-unwrap svc.metadata.name) λ name. delete_service-Keeps n name)
        services

  pub run_command-Keeps : (cmd : WatcherCommand) → Keeps P (run_command w cmd)
  unfolding run_command create_or_update_service
  run_command-Keeps (upsert_service params) =
      Keeps-ignore _ (
        Keeps-for_each (put_service w params none) (put_service-Keeps params none)
          params.namespaces)
  run_command-Keeps (remove_service name ns) =
      Keeps-for_each _ (λ n. Keeps-ignore _ (delete_service-Keeps n name)) ns
  run_command-Keeps (remove_services ns) =
      Keeps-for_each _ (λ n. Keeps-ignore _ (delete_services-Keeps n)) ns
