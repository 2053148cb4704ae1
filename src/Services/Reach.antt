-- ===== src/Services/Reach.antt =====
-- The service watcher of src/services.rs over any sequence of its operations.
use wasmcloud_operator.Services.Validity.{
  IsValid, is_cancelled, IsValid-new, IsBacked, HasLoop, IsValid-keeps,
}
use wasmcloud_operator.Services.Validity.Steps.{watch-IsValid, stop_watch-IsValid}
use wasmcloud_operator.Base.{
  ℕ, String, ◌≡◌, refl, true, Option, none, some, List, [], arith, Exists, Option-cases, All, ◌↔◌,
  length, inl, false, inr, ◌∷◌, All-append,
}
use wasmcloud_operator.Base.HashMap
use wasmcloud_operator.Base.HashMap.{string_key}
use wasmcloud_operator.Kube.World.{ModelSummary, NatsClient, World}
use wasmcloud_operator.Manifest.Types.{Manifest}
use wasmcloud_operator.Services.Types.{Watcher, ServiceWatcher, Operator, new, WatcherCommand}
use wasmcloud_operator.Services.Watch.{watch, stop_watch, is_running}
use wasmcloud_operator.Services.Watching.{KeepsWatchers, watch_again, watch_first}
use wasmcloud_operator.Services.Events.{
  Message, watch_event, reconcile_services, malformed, published, unpublished, unconvertible,
  other_event,
}
use wasmcloud_operator.Services.EventLaws.{
  expected, answered, command_wanted, watch_event_lem, reconcile_services_unwatched,
  reconcile_services-IsReconciled,
}
use wasmcloud_operator.Services.Cluster.{drain}

abbrev pub initial : ℕ → Operator
initial replicas = record { calls = []; services = new replicas; nats_creds = [] }

-- What may happen: calls of the methods, an event in a loop that runs, and the receiving task
-- carrying out what is in the channel. A loop whose stream of messages ends is not among it.
pub data Step (w : World Manifest) : Operator → Operator → Type 0 where
  watching :
      (client : NatsClient) (n l : String) (op : Operator) → Step w op (watch w client n l op).1
  stopping :
      (l n : String) (op : Operator)
      → Step w op (record op { services = (stop_watch l n op.services).1 })
  event :
      (t : Watcher) (m : Message) (op : Operator)
      → Exists (λ u. u ≡ t) op.services.tasks
      → is_running op.services t ≡ true
      → Step w op (record op { services = (watch_event w t m op.services).1 })
  reconciling :
      (apps : List ModelSummary) (l : String) (op : Operator)
      → Step w op (reconcile_services w apps l op).1
  draining : (op : Operator) → Step w op (drain w op)

pub data Reach (w : World Manifest) (start : Operator) : Operator → Type 0 where
  here : Reach w start start
  next : {op op' : Operator} → Reach w start op → Step w op op' → Reach w start op'

answered-keeps : (o : Option WatcherCommand) (s : ServiceWatcher) → KeepsWatchers s (answered o s).1
answered-keeps none s = record {
  watchers = refl;
  tasks = refl;
  cancelled = refl;
  next_token = refl;
}
answered-keeps (some c) s = record {
  watchers = ground arith;
  tasks = ground arith;
  cancelled = ground arith;
  next_token = ground arith;
}

expected-keeps :
    (w : World Manifest) (t : Watcher) (m : Message) (s : ServiceWatcher)
    → KeepsWatchers s (expected w t m s).1
expected-keeps w t (malformed e) s = record {
  watchers = refl;
  tasks = refl;
  cancelled = refl;
  next_token = refl;
}
expected-keeps w t unconvertible s = answered-keeps none s
expected-keeps w t (published m) s = answered-keeps (command_wanted w t (published m)) s
expected-keeps w t (unpublished n) s = answered-keeps (command_wanted w t (unpublished n)) s
expected-keeps w t other_event s = answered-keeps none s

pub watch_event-keeps :
    (w : World Manifest) (t : Watcher) (m : Message) (s : ServiceWatcher)
    → KeepsWatchers s (watch_event w t m s).1
watch_event-keeps w t m s = rw (watch_event_lem w t m s) (expected-keeps w t m s)

pub drain-keeps :
    (w : World Manifest) (op : Operator) → KeepsWatchers op.services (drain w op).services
unfolding drain
drain-keeps w op = record {
  watchers = ground arith;
  tasks = ground arith;
  cancelled = ground arith;
  next_token = ground arith;
}

pub reconcile-keeps :
    (w : World Manifest) (apps : List ModelSummary) (l : String) (op : Operator)
    → KeepsWatchers op.services (reconcile_services w apps l op).1.services
reconcile-keeps w apps l op = elim (Option-cases (HashMap.get l op.services.watchers)) [
  | inl e ↦
      rw (reconcile_services_unwatched w apps l op e)
        (record { watchers = refl; tasks = refl; cancelled = refl; next_token = refl })
  | inr (x, e) ↦ (reconcile_services-IsReconciled w apps l op x e).1.kept
]

Step-IsValid :
    {w : World Manifest} {op op' : Operator}
    → Step w op op'
    → IsValid op.services
    → IsValid op'.services
Step-IsValid {w} (watching client n l op) v = watch-IsValid w client n l op v
Step-IsValid (stopping l n op) v = stop_watch-IsValid l n op.services v
Step-IsValid {w} (event t m op _ _) v = IsValid-keeps (watch_event-keeps w t m op.services) v
Step-IsValid {w} (reconciling apps l op) v = IsValid-keeps (reconcile-keeps w apps l op) v
Step-IsValid {w} (draining op) v = IsValid-keeps (drain-keeps w op) v

-- After any sequence of the steps of `Step`, the watchers and the event loops are valid: each watcher
-- stands under its own lattice, names a namespace and has an event loop that runs, each event loop
-- that runs belongs to the watcher of its lattice, and no two lattices share a token.
pub Reach-IsValid :
    (replicas : ℕ) {w : World Manifest} {op : Operator}
    → Reach w (initial replicas) op
    → IsValid op.services
Reach-IsValid replicas here = IsValid-new replicas
Reach-IsValid replicas (next r st) = Step-IsValid st (Reach-IsValid replicas r)

-- An event loop for the lattice runs.
abbrev pub HasRunning : ServiceWatcher → String → Type 0
HasRunning s l = Exists (λ t. (t.lattice_id ≡ l) × (is_running s t ≡ true)) s.tasks

running_of_alive :
    (s : ServiceWatcher) (l : String) (k : ℕ) (tasks : List Watcher)
    → is_cancelled k s.cancelled ≡ false
    → HasLoop tasks l k
    → Exists (λ t. (t.lattice_id ≡ l) × (is_running s t ≡ true)) tasks
unfolding is_running
running_of_alive s l k [] alive h = elim h [ ]
running_of_alive s l k (t ∷ ts) alive (inl (p, q)) = inl (q, rw (p, alive))
running_of_alive s l k (t ∷ ts) alive (inr h) = inr (running_of_alive s l k ts alive h)

watched_of_running :
    (s : ServiceWatcher) (l : String) (tasks : List Watcher)
    → All (IsBacked s) tasks
    → Exists (λ t. (t.lattice_id ≡ l) × (is_running s t ≡ true)) tasks
    → (w : Watcher) × (HashMap.get l s.watchers ≡ some w)
unfolding is_running
watched_of_running s l [] b h = elim h [ ]
watched_of_running s l (t ∷ ts) (b, _) (inl (p, q)) =
    let (w, at, _) = b (ground (arith, q)) in (w, rw (← p) at)
watched_of_running s l (t ∷ ts) (_, b) (inr h) = watched_of_running s l ts b h

-- In a valid state, an event loop runs for a lattice exactly if the map of watchers has it.
pub running_iff :
    (s : ServiceWatcher)
    → IsValid s
    → (l : String) → HasRunning s l ↔ ((x : Watcher) × (HashMap.get l s.watchers ≡ some x))
running_iff s v l = (
  (λ h. watched_of_running s l s.tasks v.backed h),
  (λ (x, e). let z = v.at_key l x e in running_of_alive s l x.shutdown s.tasks z.alive z.loop),
)

-- After any sequence of the steps of `Step`, an event loop runs for a lattice exactly if the lattice
-- is in the map of watchers.
pub Reach-running_iff :
    (replicas : ℕ) {w : World Manifest} {op : Operator}
    → Reach w (initial replicas) op
    → (l : String)
    → HasRunning op.services l ↔ ((x : Watcher) × (HashMap.get l op.services.watchers ≡ some x))
Reach-running_iff replicas {op} r l = running_iff op.services (Reach-IsValid replicas r) l

-- The clone that each event loop owns.
abbrev IsSingle : Watcher → Type 0
IsSingle t = length t.namespaces ≡ 1

IsSingle-watch :
    (w : World Manifest) (client : NatsClient) (n l : String) (op : Operator)
    → All IsSingle op.services.tasks
    → All IsSingle (watch w client n l op).1.services.tasks
IsSingle-watch w client n l op h = elim (Option-cases (HashMap.get l op.services.watchers)) [
  | inr (x, e) ↦ rw (watch_again w client n l op x e) h
  | inl e ↦ elim (watch_first w client n l op e) [
    | inl (_, same) ↦ rw same h
    | inr (_, same) ↦ rw same (All-append IsSingle op.services.tasks _ h (refl, tt))
  ]
]

tasks-stop_watch : (l n : String) (s : ServiceWatcher) → (stop_watch l n s).1.tasks ≡ s.tasks
unfolding stop_watch
tasks-stop_watch l n s = ground arith

Step-IsSingle :
    {w : World Manifest} {op op' : Operator}
    → Step w op op'
    → All IsSingle op.services.tasks
    → All IsSingle op'.services.tasks
Step-IsSingle {w} (watching client n l op) h = IsSingle-watch w client n l op h
Step-IsSingle (stopping l n op) h = rw (tasks-stop_watch l n op.services) h
Step-IsSingle {w} (event t m op _ _) h = rw ((watch_event-keeps w t m op.services).tasks) h
Step-IsSingle {w} (reconciling apps l op) h = rw ((reconcile-keeps w apps l op).tasks) h
Step-IsSingle {w} (draining op) h = rw ((drain-keeps w op).tasks) h

-- After any sequence of the steps of `Step`, the copy of the watcher that an event loop works with names
-- one namespace alone, however many namespaces have joined its lattice since.
pub Reach-IsSingle :
    (replicas : ℕ) {w : World Manifest} {op : Operator}
    → Reach w (initial replicas) op
    → All (λ t. length t.namespaces ≡ 1) op.services.tasks
unfolding new
Reach-IsSingle replicas here = tt
Reach-IsSingle replicas (next r st) = Step-IsSingle st (Reach-IsSingle replicas r)
