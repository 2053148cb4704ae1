-- ===== src/System.antt =====
-- The operator as a whole: what runs in one process after src/main.rs has started it.
pub mod Invariant
use wasmcloud_operator.Base.{String, ◌≡◌, true, List, Exists}
use wasmcloud_operator.Json.{Value}
use wasmcloud_operator.Kube.World.{World}
use wasmcloud_operator.Manifest.Types.{Manifest}
use wasmcloud_operator.Services.Types.{Watcher, Operator}
use wasmcloud_operator.Services.Watch.{is_running}
use wasmcloud_operator.Services.Events.{Message, watch_event}
use wasmcloud_operator.Services.Cluster.{drain}
use wasmcloud_operator.Controller.Types.{Crates}
use wasmcloud_operator.Controller.Reconcile.{Finalizer, reconcile_event}
use wasmcloud_operator.Application.Listing.{Encoder}
use wasmcloud_operator.Application.Handlers.{Serde}
use wasmcloud_operator.Router.{Request, Route, setup}

module _ (w : World Manifest) (crates : Crates) (e : Encoder) (s : Serde) (document : Value)
    (v2 : String) where
  -- What may happen, one whole call at a time: an event of the finalizer, a request to a route, an
  -- event in a loop that runs, and the receiving task carrying out what is in the channel.
  pub data Move : Operator → Operator → Type 0 where
    reconciled : (event : Finalizer) (op : Operator) → Move op (reconcile_event w crates event op).1
    requested :
        (r : Route) (q : Request) (op : Operator)
        → Exists (λ r'. r' ≡ r) (setup w crates e s document v2)
        → Move op (r.handler q op).1
    received :
        (t : Watcher) (m : Message) (op : Operator)
        → Exists (λ u. u ≡ t) op.services.tasks
        → is_running op.services t ≡ true
        → Move op (record op { services = (watch_event w t m op.services).1 })
    drained : (op : Operator) → Move op (drain w op)

  pub data Moves (start : Operator) : Operator → Type 0 where
    started : Moves start start
    moved : {op op' : Operator} → Moves start op → Move op op' → Moves start op'
