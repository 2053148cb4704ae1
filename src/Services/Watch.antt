-- ===== src/Services/Watch.antt =====
-- `ServiceWatcher::watch` and `stop_watch`, `Watcher::new` and the drop of a `Watcher`.
use wasmcloud_operator.Base.{
  ℕ, ◌+◌, String, Bool, true, false, none, some, [], ◌∷◌, ◌++◌, any, nat_eq, is_empty,
  if◌then◌else◌, ◌<>◌,
}
use wasmcloud_operator.Base.Outcome.{ok, err}
use wasmcloud_operator.Base.Exec.{Exec, ◌>>=◌, ◌>>◌}
use wasmcloud_operator.Base.HashMap
use wasmcloud_operator.Base.HashMap.{HashMap, string_key}
use wasmcloud_operator.Base.HashSet
use wasmcloud_operator.Kube.World.{create_stream, create_consumer, NatsClient, World, Net, ask}
use wasmcloud_operator.Services.Types.{
  Watcher, WatcherCommand, remove_services, ServiceWatcher, Operator,
}

-- Calls made by a method of the operator.
abbrev pub on_calls : {A : Type 0} → Net A → Exec String Operator A
on_calls m op = let (r, calls) = m op.calls in (r, record op { calls = calls })

-- Code that changes the service watcher only.
abbrev pub on_services : {E A : Type 0} → Exec E ServiceWatcher A → Exec E Operator A
on_services m op = let (r, s) = m op.services in (r, record op { services = s })

-- `UnboundedSender::send`, which fails once the receiver is gone.
unfoldable pub send : WatcherCommand → Exec String ServiceWatcher (Unit {0})
send cmd s =
    if s.is_open
    then (ok tt, record s { queue = s.queue ++ cmd ∷ [] })
    else (err "Error sending command to watcher: channel closed", s)

-- `Watcher::new`: a new token, and a clone that the event loop owns.
unfoldable pub new_watcher :
    String → String → NatsClient → String → Exec String ServiceWatcher Watcher
new_watcher namespace lattice_id client consumer s =
    let watcher : Watcher = record {
      namespaces = namespace ∷ [];
      lattice_id = lattice_id;
      nats_client = client;
      shutdown = s.next_token;
      consumer = consumer;
    } in
    (ok watcher, record s { tasks = s.tasks ++ watcher ∷ []; next_token = s.next_token + 1 })

-- `impl Drop for Watcher`
unfoldable pub drop_watcher : Watcher → ServiceWatcher → ServiceWatcher
drop_watcher w s = record s { cancelled = w.shutdown ∷ s.cancelled }

unfoldable pub is_running : ServiceWatcher → Watcher → Bool
is_running s t = if any (nat_eq t.shutdown) s.cancelled then false else true

-- `self.watchers.insert(lattice_id, watcher)`
unfoldable pub put_watcher : String → Watcher → Exec String ServiceWatcher (Unit {0})
put_watcher lattice_id w s = (ok tt, record s { watchers = HashMap.insert lattice_id w s.watchers })

-- `watcher.namespaces.insert(namespace)`, through the mutable borrow of the entry.
unfoldable pub add_namespace : String → Watcher → Watcher
add_namespace namespace w = record w { namespaces = HashSet.insert namespace w.namespaces }

unfoldable pub remove_namespace : String → Watcher → Watcher
remove_namespace namespace w = record w { namespaces = HashSet.remove namespace w.namespaces }

-- `OPERATOR_STREAM_SUBJECT.replacen('*', lattice_id, 1)`
abbrev pub filter_subject : String → String
filter_subject lattice_id = "wadm_operator_events." <> lattice_id <> ".>"

abbrev pub consumer_name : String → String
consumer_name lattice_id = "wadm_operator_service-" <> lattice_id

module _ {M : Type 0} (w : World M) where
  -- `get_or_create_stream`, then `get_or_create_consumer`.
  unfoldable pub prepare_consumer : ℕ → String → Net (Unit {0})
  prepare_consumer replicas lattice_id = do
    let stream = create_stream "wadm_operator_events" replicas
    ask (λ h. w.applied h stream) stream
    let consumer = create_consumer (consumer_name lattice_id) (filter_subject lattice_id)
    ask (λ h. w.applied h consumer) consumer

  -- The part of `watch` after the early return.
  unfoldable pub start_watch : NatsClient → String → String → Exec String Operator (Unit {0})
  unfolding prepare_consumer new_watcher put_watcher
  start_watch client namespace lattice_id op =
      (do
        on_calls (prepare_consumer op.services.stream_replicas lattice_id)
        watcher ← on_services (new_watcher namespace lattice_id client (consumer_name lattice_id))
        on_services (put_watcher lattice_id watcher))
        op

  unfoldable pub watch : NatsClient → String → String → Exec String Operator (Unit {0})
  unfolding start_watch add_namespace
  watch client namespace lattice_id op = elim (HashMap.get lattice_id op.services.watchers) [
    | some watcher ↦ on_services (put_watcher lattice_id (add_namespace namespace watcher)) op
    | none ↦ start_watch client namespace lattice_id op
  ]

-- The entry of a lattice after a namespace has left it; an entry with none left is dropped.
unfoldable pub leave : String → String → Watcher → ServiceWatcher → ServiceWatcher
unfolding remove_namespace drop_watcher
leave lattice_id namespace watcher s =
    let w = remove_namespace namespace watcher in
    if is_empty w.namespaces
    then drop_watcher w (record s { watchers = HashMap.remove lattice_id s.watchers })
    else record s { watchers = HashMap.insert lattice_id w s.watchers }

unfoldable pub stop_watch : String → String → Exec String ServiceWatcher (Unit {0})
unfolding leave send
stop_watch lattice_id namespace s = elim (HashMap.get lattice_id s.watchers) [
  | some watcher ↦ send (remove_services (namespace ∷ [])) (leave lattice_id namespace watcher s)
  | none ↦ (ok tt, s)
]
