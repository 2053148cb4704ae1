-- ===== src/Services/Events.antt =====
-- The event loop of a `Watcher` of src/services.rs, and `ServiceWatcher::reconcile_services`.
use wasmcloud_operator.Base.{ℕ, String, none, some, List}
use wasmcloud_operator.Base.Outcome.{ok, err, panic}
use wasmcloud_operator.Base.Exec.{Exec, ◌>>=◌, map_err, ignore_error, for_each}
use wasmcloud_operator.Base.HashMap
use wasmcloud_operator.Base.HashMap.{string_key}
use wasmcloud_operator.Kube.World.{get_manifest, ModelSummary, World, ask_wadm, client_text}
use wasmcloud_operator.Manifest.Types.{Manifest}
use wasmcloud_operator.Manifest.HttpServer.{HttpServerComponent, http_server_component}
use wasmcloud_operator.Services.Types.{
  Watcher, WatcherCommand, upsert_service, remove_service, ServiceWatcher, Operator,
}
use wasmcloud_operator.Services.Watch.{on_calls, on_services, send}

-- A message of the stream, as the decoders of the cloudevents and wadm crates read it: no cloud
-- event, one that is no wadm event, or a wadm event.
pub data Message : Type 0 where
  malformed : String → Message
  unconvertible : Message
  published : Manifest → Message
  unpublished : String → Message
  other_event : Message

pub data Acknowledgement : Type 0 where
  ack nak : Acknowledgement

module _ (w : World Manifest) where
  -- `UpsertService` with the details that a watcher fills in.
  unfoldable pub upsert : Watcher → Manifest → HttpServerComponent → ℕ → WatcherCommand
  upsert self manifest service port = upsert_service (record {
    name = manifest.name;
    namespaces = self.namespaces;
    lattice_id = self.lattice_id;
    port = port;
    host_labels = service.labels;
  })

  unfoldable pub handle_manifest_published :
      Watcher → Manifest → Exec String ServiceWatcher (Unit {0})
  unfolding upsert send
  handle_manifest_published self manifest s = elim (http_server_component manifest) [
    | none ↦ (ok tt, s)
    | some service ↦ elim (w.socket_port service.address) [
      | none ↦ (ok tt, s)
      | some port ↦ send (upsert self manifest service port) s
    ]
  ]

  unfoldable pub handle_manifest_unpublished :
      Watcher → String → Exec String ServiceWatcher (Unit {0})
  unfolding send
  handle_manifest_unpublished self name = send (remove_service name self.namespaces)

  unfoldable pub handle_event : Watcher → Message → Exec String ServiceWatcher (Unit {0})
  unfolding handle_manifest_published handle_manifest_unpublished
  handle_event self (malformed e) s = (err e, s)
  handle_event self unconvertible s = (ok tt, s)
  handle_event self (published manifest) s = handle_manifest_published self manifest s
  handle_event self (unpublished name) s = handle_manifest_unpublished self name s
  handle_event self other_event s = (ok tt, s)

  -- One round of `watch_events`: the answer to the message. A failure to send it is only logged.
  unfoldable pub watch_event : Watcher → Message → ServiceWatcher → Acknowledgement × ServiceWatcher
  unfolding handle_event
  watch_event self message s =
      let (r, s') = handle_event self message s in
      elim r [ ok _ ↦ (ack, s') | err _ ↦ (nak, s') | panic ↦ (nak, s') ]

  -- The round of an app in `reconcile_services`, its errors logged and dropped.
  unfoldable pub reconcile_app : Watcher → String → ModelSummary → Exec String Operator (Unit {0})
  unfolding handle_manifest_published ignore_error
  reconcile_app watcher lattice_id app op = elim app.deployed_version [
    | none ↦ (ok tt, op)
    | some version ↦
        ignore_error
          (do
            manifest ← on_calls (
                map_err client_text (
                  ask_wadm (λ h. w.manifest h lattice_id app.name (some version))
                    (get_manifest lattice_id app.name (some version))))
            on_services (handle_manifest_published watcher manifest))
          op
  ]

  unfoldable pub reconcile_services : List ModelSummary → String → Exec String Operator (Unit {0})
  unfolding reconcile_app for_each
  reconcile_services apps lattice_id op = elim (HashMap.get lattice_id op.services.watchers) [
    | none ↦ (ok tt, op)
    | some watcher ↦ for_each (reconcile_app watcher lattice_id) apps op
  ]
