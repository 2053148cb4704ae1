-- ===== src/Services/EventLaws.antt =====
-- What an event loop of src/services.rs makes of a message, and what `reconcile_services` asks.
use wasmcloud_operator.Base.Exec.{for_each}
use wasmcloud_operator.Base.{
  String, ◌≡◌, refl, Option, none, some, List, [], ◌∷◌, ◌++◌, arith, if◌then◌else◌, Option-cases,
  ◌∙◌, inl, ap, inr, sym,
}
use wasmcloud_operator.Base.Outcome.{ok}
use wasmcloud_operator.Base.HashMap
use wasmcloud_operator.Base.HashMap.{string_key}
use wasmcloud_operator.Kube.World.{Call, get_manifest, ModelSummary, World, ask_wadm}
use wasmcloud_operator.Manifest.Types.{Manifest}
use wasmcloud_operator.Manifest.HttpServer.{http_server_component}
use wasmcloud_operator.Services.Types.{
  Watcher, WatcherCommand, upsert_service, remove_service, ServiceWatcher, Operator,
}
use wasmcloud_operator.Services.Watching.{KeepsWatchers}
use wasmcloud_operator.Services.Events.{
  Message, malformed, unconvertible, published, unpublished, other_event, Acknowledgement, ack, nak,
  watch_event, reconcile_app, upsert, reconcile_services,
}

-- The answer to a message, by the command that it calls for.
abbrev pub answered : Option WatcherCommand → ServiceWatcher → Acknowledgement × ServiceWatcher
answered none s = (ack, s)
answered (some c) s = if s.is_open then (ack, record s { queue = s.queue ++ c ∷ [] }) else (nak, s)

module _ (w : World Manifest) where
  -- The command that a published manifest calls for: none without an http server, or if its
  -- address is no socket address.
  abbrev pub service_wanted : Watcher → Manifest → Option WatcherCommand
  service_wanted self manifest = elim (http_server_component manifest) [
    | none ↦ none
    | some service ↦ elim (w.socket_port service.address) [
      | none ↦ none
      | some port ↦ some (
          upsert_service (record {
            name = manifest.name;
            namespaces = self.namespaces;
            lattice_id = self.lattice_id;
            port = port;
            host_labels = service.labels;
          }))
    ]
  ]

  abbrev pub command_wanted : Watcher → Message → Option WatcherCommand
  command_wanted self (published manifest) = service_wanted self manifest
  command_wanted self (unpublished name) = some (remove_service name self.namespaces)
  command_wanted self _ = none

  abbrev pub expected : Watcher → Message → ServiceWatcher → Acknowledgement × ServiceWatcher
  expected self (malformed e) s = (nak, s)
  expected self m s = answered (command_wanted self m) s

  -- A message is answered by a nak exactly if it is no cloud event, or if it calls for a command
  -- and the channel is closed; its command, if any, is the one change of the state.
  pub watch_event_lem :
      (self : Watcher) (m : Message) (s : ServiceWatcher)
      → watch_event w self m s ≡ expected self m s
  unfolding watch_event upsert
  watch_event_lem self (malformed e) s = refl
  watch_event_lem self unconvertible s = refl
  watch_event_lem self (published manifest) s = ground arith
  watch_event_lem self (unpublished name) s = ground arith
  watch_event_lem self other_event s = refl

  -- The calls for the manifests of the apps that are deployed, newest first.
  abbrev pub asked : String → List ModelSummary → List Call → List Call
  asked lattice_id [] calls = calls
  asked lattice_id (app ∷ apps) calls = elim app.deployed_version [
    | none ↦ asked lattice_id apps calls
    | some version ↦ asked lattice_id apps (get_manifest lattice_id app.name (some version) ∷ calls)
  ]

  -- A round asks for the manifest of a deployed app, and changes the queue of commands at most.
  record IsRound (l : String) (app : ModelSummary) (op op' : Operator) : Type 0 where
    calls : op'.calls ≡ asked l (app ∷ []) op.calls
    kept : KeepsWatchers op.services op'.services
    creds : op'.nats_creds ≡ op.nats_creds

  reconcile_app-ok :
      (x : Watcher) (l : String) (app : ModelSummary) (op : Operator)
      → (reconcile_app w x l app op).0 ≡ ok tt
  unfolding reconcile_app ask_wadm
  reconcile_app-ok x l app op = ground arith

  reconcile_app-IsRound :
      (x : Watcher) (l : String) (app : ModelSummary) (op : Operator)
      → IsRound l app op (reconcile_app w x l app op).1
  unfolding reconcile_app ask_wadm
  reconcile_app-IsRound x l app op = record {
    calls = ground arith;
    kept = record {
      watchers = ground arith;
      tasks = ground arith;
      cancelled = ground arith;
      next_token = ground arith;
    };
    creds = ground arith;
  }

  asked-cons :
      (l : String) (app : ModelSummary) (apps : List ModelSummary) (calls : List Call)
      → asked l (app ∷ apps) calls ≡ asked l apps (asked l (app ∷ []) calls)
  asked-cons l app apps calls = elim (Option-cases app.deployed_version) [
    | inl e ↦ rw e
    | inr (v, e) ↦ rw e
  ]

  -- A whole reconciliation.
  pub record IsReconciled (l : String) (apps : List ModelSummary) (op op' : Operator) : Type 0 where
    pub calls : op'.calls ≡ asked l apps op.calls
    pub kept : KeepsWatchers op.services op'.services
    pub creds : op'.nats_creds ≡ op.nats_creds

  IsRound-trans :
      (l : String) (app : ModelSummary) (apps : List ModelSummary) (a b c : Operator)
      → IsRound l app a b
      → IsReconciled l apps b c
      → IsReconciled l (app ∷ apps) a c
  IsRound-trans l app apps a b c f g = record {
    calls = g.calls ∙ ap (asked l apps) f.calls ∙ sym (asked-cons l app apps a.calls);
    kept = record {
      watchers = g.kept.watchers ∙ f.kept.watchers;
      tasks = g.kept.tasks ∙ f.kept.tasks;
      cancelled = g.kept.cancelled ∙ f.kept.cancelled;
      next_token = g.kept.next_token ∙ f.kept.next_token;
    };
    creds = g.creds ∙ f.creds;
  }

  reconcile_loop :
      (x : Watcher) (l : String) (apps : List ModelSummary) (op : Operator)
      → ((for_each (reconcile_app w x l) apps op).0 ≡ ok tt)
        × IsReconciled l apps op (for_each (reconcile_app w x l) apps op).1
  unfolding for_each
  reconcile_loop x l [] op = (
    refl,
    record {
      calls = refl;
      kept = record { watchers = refl; tasks = refl; cancelled = refl; next_token = refl };
      creds = refl;
    },
  )
  reconcile_loop x l (app ∷ apps) op =
      let op' = (reconcile_app w x l app op).1 in
      let (done, rest) = reconcile_loop x l apps op' in
      rw (reconcile_app-ok x l app op, for_each)
        (done, IsRound-trans l app apps op op' _ (reconcile_app-IsRound x l app op) rest)

  -- On a watched lattice, `reconcile_services` succeeds whatever wadm answers; it asks for the
  -- deployed version of every deployed app, once and in order, and leaves the watchers alone.
  pub reconcile_services-IsReconciled :
      (apps : List ModelSummary) (l : String) (op : Operator) (x : Watcher)
      → HashMap.get l op.services.watchers ≡ some x
      → ((reconcile_services w apps l op).0 ≡ ok tt)
        × IsReconciled l apps op (reconcile_services w apps l op).1
  unfolding reconcile_services
  reconcile_services-IsReconciled apps l op x e =
      rw (e, reconcile_services) (reconcile_loop x l apps op)

  -- On any other lattice it does nothing.
  pub reconcile_services_unwatched :
      (apps : List ModelSummary) (l : String) (op : Operator)
      → HashMap.get l op.services.watchers ≡ none
      → reconcile_services w apps l op ≡ (ok tt, op)
  unfolding reconcile_services
  reconcile_services_unwatched apps l op e = rw (e, reconcile_services)
