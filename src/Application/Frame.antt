-- ===== src/Application/Frame.antt =====
-- What the handlers of src/resources/application.rs leave as it was: rules for a property of the
-- operator that calls do not disturb.
pub mod Handlers
use wasmcloud_operator.Base.{
  String, ◌≡◌, refl, Bool, true, false, Option, List, [], ◌∷◌, Option-cases, inl, inr, ◌<>◌, ◌++◌,
  if◌then◌else◌,
}
use wasmcloud_operator.Base.Outcome.{Outcome, ok, err, panic}
use wasmcloud_operator.Base.Exec.{map_err}
use wasmcloud_operator.Base.Keeps.{Keeps, Keeps-bind, Keeps-continue, Keeps-pure}
use wasmcloud_operator.Base.HashMap
use wasmcloud_operator.Base.HashSet
use wasmcloud_operator.HostConfig.{WasmCloudHostConfig}
use wasmcloud_operator.Kube.World.{
  Call, list_host_configs, list_all_host_configs, connect, list_manifests, get_manifest,
  get_manifest_status, NatsClient, World, Net, Reply, ask,
}
use wasmcloud_operator.Manifest.Types.{Manifest}
use wasmcloud_operator.Services.Types.{NameNamespace, name_namespace_key, Operator}
use wasmcloud_operator.Services.Watch.{on_calls}
use wasmcloud_operator.Controller.Types.{Crates}
use wasmcloud_operator.Controller.Reconcile.{
  list_apps, get_nats_client, nats_address, expected_creds,
}
use wasmcloud_operator.Http.{internal_error, Response}
use wasmcloud_operator.Services.Frame.{
  is_read, Undisturbed, after_if, Keeps-on_calls, Keeps-ask, with_calls,
}
use wasmcloud_operator.Controller.Frame.{list_apps-Keeps, get_nats_client-Keeps}
use wasmcloud_operator.Application.Listing.{Handler, Listing, kube_client, configs_in, list_round}
use wasmcloud_operator.Application.Connection.{get_lattice_connection}

module _ (P : Operator → Type 0) (r : Undisturbed (λ c. is_read c ≡ true) P) where
  pub kube_client-Keeps : (w : World Manifest) → Keeps P (kube_client w)
  unfolding kube_client
  kube_client-Keeps w = record { after = λ op h. h }

  pub configs_in-Keeps :
      (w : World Manifest) (message namespace : String) → Keeps P (configs_in w message namespace)
  unfolding configs_in
  configs_in-Keeps w message namespace =
      Keeps-on_calls P _ _ λ op. Keeps-ask P r op _ (list_host_configs namespace) refl

  module _ (w : World Manifest) (crates : Crates) where
    pub list_round-Keeps :
        (b : Listing) (cfg : WasmCloudHostConfig) (key : NameNamespace)
        → Keeps P (list_round w crates b cfg key)
    unfolding list_round
    list_round-Keeps b cfg key = record {
      after = λ op h.
          after_if P (HashSet.contains cfg.spec.lattice b.lattices) (ok b, op) _ h
            ((Keeps-bind
                (map_err (λ e. internal_error ("unable to list applications: " <> e))
                  (on_calls (
                    list_apps w crates (nats_address cfg.spec) (HashMap.get key op.nats_creds)
                      cfg.spec.lattice)))
                _
                (Keeps-on_calls P _ _ λ op'.
                  list_apps-Keeps P r w crates op' (nats_address cfg.spec)
                    (HashMap.get key op.nats_creds) cfg.spec.lattice)
                λ apps. Keeps-pure (record {
                  apps = b.apps ++ apps;
                  lattices = HashSet.insert cfg.spec.lattice b.lattices;
                })).after
              op h);
    }

    by_client :
        (res : Outcome String NatsClient) (lattice : String) (rest : Handler (NatsClient × String))
        (op : Operator)
        → P op
        → Keeps P rest
        → P
            (elim res as (λ _. Outcome Response (NatsClient × String) × Operator) [
              | ok client ↦ (ok (client, lattice), op)
              | err e ↦ rest op
              | panic ↦ (panic, op)
            ]).1
    by_client (ok client) lattice rest op h k = h
    by_client (err e) lattice rest op h k = k.after op h
    by_client panic lattice rest op h k = h

    pub get_lattice_connection-Keeps :
        (namespace : String) (configs : List WasmCloudHostConfig)
        → Keeps P (get_lattice_connection w crates namespace configs)
    unfolding get_lattice_connection
    get_lattice_connection-Keeps namespace [] = record { after = λ op h. h }
    get_lattice_connection-Keeps namespace (cfg ∷ cfgs) = elim (Option-cases cfg.name) [
      | inl e ↦ rw (e, get_lattice_connection) (get_lattice_connection-Keeps namespace cfgs)
      | inr (name, e) ↦
          rw (e, get_lattice_connection)
            (record {
              after = λ op h.
                  let key : NameNamespace = record { name = name; namespace = namespace } in
                  by_client (get_nats_client w crates (nats_address cfg.spec) key op).0
                    cfg.spec.lattice _ _
                    ((get_nats_client-Keeps P r w crates (nats_address cfg.spec) key).after op h)
                    (get_lattice_connection-Keeps namespace cfgs);
            })
    ]
