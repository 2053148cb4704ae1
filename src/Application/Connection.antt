-- ===== src/Application/Connection.antt =====
-- `get_lattice_connection` of src/resources/application.rs.
use wasmcloud_operator.Base.{String, Option, none, some, List, [], ◌∷◌}
use wasmcloud_operator.Base.Outcome.{Outcome, ok, err, panic}
use wasmcloud_operator.Base.Exec.{Exec, fail}
use wasmcloud_operator.HostConfig.{WasmCloudHostConfig}
use wasmcloud_operator.Kube.World.{NatsClient, World}
use wasmcloud_operator.Manifest.Types.{Manifest}
use wasmcloud_operator.Services.Types.{NameNamespace, Operator}
use wasmcloud_operator.Controller.Types.{Crates}
use wasmcloud_operator.Controller.Reconcile.{get_nats_client, nats_address}
use wasmcloud_operator.Http.{Response, internal_error}
use wasmcloud_operator.Application.Listing.{Handler}
pub mod First

module _ (w : World Manifest) (crates : Crates) where
  -- The first configuration with a name whose connection succeeds. Credentials that are none panic.
  unfoldable pub get_lattice_connection :
      String → List WasmCloudHostConfig → Handler (NatsClient × String)
  unfolding get_nats_client internal_error
  get_lattice_connection namespace [] = fail (internal_error "unable to initialize nats client")
  get_lattice_connection namespace (cfg ∷ cfgs) =
      let rest = get_lattice_connection namespace cfgs in
      elim cfg.name [
        | none ↦ rest
        | some name ↦ λ op.
            let key : NameNamespace = record { name = name; namespace = namespace } in
            let (r, op') = get_nats_client w crates (nats_address cfg.spec) key op in
            elim r [
              | ok client ↦ (ok (client, cfg.spec.lattice), op')
              | err e ↦ rest op'
              | panic ↦ (panic, op')
            ]
      ]
