-- ===== src/Application/Listing.antt =====
-- `list_all_applications` and `list_applications` of src/resources/application.rs.
use wasmcloud_operator.Base.{
  ℕ, String, Bool, true, false, Option, none, some, List, [], ◌∷◌, ◌++◌, map, if◌then◌else◌, ◌<>◌,
}
use wasmcloud_operator.Base.HashMap
use wasmcloud_operator.Base.HashSet
use wasmcloud_operator.Base.Outcome.{Outcome, ok, err, panic}
use wasmcloud_operator.Base.Exec.{
  Exec, pure, fail, unwrap, ◌>>=◌, ◌>>◌, map_err, map_error, fold_each,
}
use wasmcloud_operator.HostConfig.{WasmCloudHostConfig}
use wasmcloud_operator.Kube.World.{
  list_host_configs, list_all_host_configs, ModelSummary, World, Reply, reply, failed, of_reply,
  ask,
}
use wasmcloud_operator.Manifest.Types.{Manifest}
use wasmcloud_operator.Services.Types.{NameNamespace, name_namespace_key, Operator}
use wasmcloud_operator.Services.Watch.{on_calls}
use wasmcloud_operator.Controller.Types.{Crates}
use wasmcloud_operator.Controller.Reconcile.{list_apps, nats_address}
use wasmcloud_operator.Header.{
  As, table, not_specified, api_group_discovery_list, partial_object_metadata_list,
}
use wasmcloud_operator.Http.{
  Response, internal_error, success, application_list, application_table, json_text,
}
use wasmcloud_operator.Application.Types.{
  ApplicationPartial, partial_of_summary, list_of_partials, table_of_summaries,
}
pub mod Rounds
pub mod Once

-- A handler: an early `return` of a response is an error. The state's `nats_creds` is the map that
-- the controller fills.
abbrev pub Handler : Type 0 → Type 0
Handler A = Exec Response Operator A

-- The functions of the uuid and serde_json crates that a list needs.
pub record Encoder : Type 0 where
  pub new_v5 : String → String
  pub partials_text : List ApplicationPartial → String

pub record Listing : Type 0 where
  pub apps : List ModelSummary
  pub lattices : List String

-- The answer by the kind of response that was asked for.
unfoldable pub shown : Encoder → As → List ModelSummary → Response
unfolding table_of_summaries partial_of_summary list_of_partials
shown e table apps = success (application_table (table_of_summaries apps))
shown e not_specified apps = success (
    application_list
      (list_of_partials e.new_v5 e.partials_text (map (partial_of_summary e.new_v5) apps)))
shown e api_group_discovery_list apps = success (json_text "")
shown e partial_object_metadata_list apps = success (json_text "")

module _ (w : World Manifest) where
  unfoldable pub kube_client : Handler (Unit {0})
  unfolding internal_error
  kube_client op = (
    map_error (λ e. internal_error ("unable to initialize kubernetes client: " <> e))
        (of_reply (w.kube_client op.calls)),
    op,
  )

  -- The host configurations of a namespace; the handlers differ in a letter of the message.
  unfoldable pub configs_in : String → String → Handler (List WasmCloudHostConfig)
  unfolding internal_error
  configs_in message namespace =
      map_err (λ e. internal_error (message <> e))
        (on_calls (ask (λ h. w.host_configs h namespace) (list_host_configs namespace)))

module _ (w : World Manifest) (crates : Crates) where
  -- A round of the loop, from the check of the lattice on.
  unfoldable pub list_round : Listing → WasmCloudHostConfig → NameNamespace → Handler Listing
  unfolding HashSet.contains HashSet.insert HashMap.get list_apps internal_error
  list_round l cfg key op =
      let lattice_id = cfg.spec.lattice in
      let again =
        (do
          apps ←
              map_err (λ e. internal_error ("unable to list applications: " <> e))
                (on_calls (
                  list_apps w crates (nats_address cfg.spec) (HashMap.get key op.nats_creds)
                    lattice_id))
          pure (record { apps = l.apps ++ apps; lattices = HashSet.insert lattice_id l.lattices }))
          op in
      if HashSet.contains lattice_id l.lattices then (ok l, op) else again

  unfoldable pub list_in : String → Listing → WasmCloudHostConfig → Handler Listing
  unfolding list_round
  list_in namespace l cfg = do
    name ← unwrap cfg.name
    list_round l cfg (record { name = name; namespace = namespace })

  unfoldable pub list_anywhere : Listing → WasmCloudHostConfig → Handler Listing
  unfolding list_round
  list_anywhere l cfg = do
    name ← unwrap cfg.name
    namespace ← unwrap cfg.namespace
    list_round l cfg (record { name = name; namespace = namespace })

  unfoldable pub list_applications : Encoder → As → String → Handler Response
  unfolding kube_client configs_in list_in shown fold_each
  list_applications e accept namespace = do
    kube_client w
    configs ← configs_in w "Unable to list cosmonic host configs: " namespace
    l ← fold_each (list_in namespace) (record { apps = []; lattices = [] }) configs
    pure (shown e accept l.apps)

  unfoldable pub list_all_applications : Encoder → As → Handler Response
  unfolding kube_client list_anywhere shown fold_each internal_error
  list_all_applications e accept = do
    kube_client w
    configs ←
        map_err (λ (e : String). internal_error ("Unable to list cosmonic host configs: " <> e))
          (on_calls (ask (λ h. w.all_host_configs h) list_all_host_configs))
    l ← fold_each list_anywhere (record { apps = []; lattices = [] }) configs
    pure (shown e accept l.apps)
