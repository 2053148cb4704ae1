-- ===== src/System/Invariant.antt =====
-- The operator as a whole: its watchers and event loops at any time.
use wasmcloud_operator.Base.{
  String, ◌≡◌, ◌↔◌, some, List, [], ◌∷◌, All, Exists, inl, inr, is_some, ◌<>◌, if◌then◌else◌,
}
use wasmcloud_operator.Base.Exec.{Exec, unwrap, map_err, pure}
use wasmcloud_operator.Base.Keeps.{Keeps, Keeps-bind, Keeps-pure, Keeps-unwrap, Keeps-if}
use wasmcloud_operator.Base.HashMap
use wasmcloud_operator.Base.HashMap.{string_key}
use wasmcloud_operator.HostConfig.{WasmCloudHostConfig}
use wasmcloud_operator.Json.{Value}
use wasmcloud_operator.Kube.World.{World, ModelSummary, ask, get_host_config}
use wasmcloud_operator.Manifest.Types.{Manifest}
use wasmcloud_operator.Services.Types.{Watcher, Operator, NameNamespace, name_namespace_key}
use wasmcloud_operator.Services.Watch.{watch, stop_watch, on_services}
use wasmcloud_operator.Services.Events.{reconcile_services}
use wasmcloud_operator.Services.Frame.{Keeps-request, Undisturbed}
use wasmcloud_operator.Services.Validity.{IsValid, IsValid-new, IsValid-keeps}
use wasmcloud_operator.Services.Validity.Steps.{watch-IsValid, stop_watch-IsValid}
use wasmcloud_operator.Services.Reach.{
  HasRunning, watch_event-keeps, drain-keeps, reconcile-keeps, running_iff,
}
use wasmcloud_operator.Controller.Types.{Error, Crates, kube, kube_error, nats_error}
use wasmcloud_operator.Controller.Frame.{load_creds-Keeps, get_nats_client-Keeps}
use wasmcloud_operator.Controller.Frame.Applying.{configure-Keeps, update_status-Keeps}
use wasmcloud_operator.Controller.Reconcile.{
  Finalizer, apply, cleanup_event, reconcile_event, reconcile_crd, cleanup, forget_creds,
  start_services, get_nats_client, nats_address, load_creds, configure, update_status, requeue,
  await_change,
}
use wasmcloud_operator.Application.Listing.{Encoder}
use wasmcloud_operator.Application.Handlers.{Serde}
use wasmcloud_operator.Router.Effects.{Apart, setup-Apart}
use wasmcloud_operator.Startup.Main.{State, context}
use wasmcloud_operator.System.{
  Move, reconciled, requested, received, drained, Moves, started, moved,
}

abbrev Valid : Operator → Type 0
Valid op = IsValid op.services

still : Undisturbed (λ _. Unit {0}) Valid
still op c _ h = h

module _ (w : World Manifest) (crates : Crates) where
  error_kept :
      {A : Type 0} (f : String → Error) (m : Exec String Operator A)
      → Keeps Valid m
      → Keeps Valid (map_err f m)
  error_kept f m k = record { after = k.after }

  start_services-Keeps :
      (cfg : WasmCloudHostConfig) (ns name : String) (apps : List ModelSummary)
      → Keeps Valid (start_services w crates cfg ns name apps)
  unfolding start_services
  start_services-Keeps cfg ns name apps =
      Keeps-bind
        (map_err (λ e. nats_error ("Failed to get nats client: " <> e))
          (get_nats_client w crates (nats_address cfg.spec) key))
        _
        (error_kept (λ e. nats_error ("Failed to get nats client: " <> e))
          (get_nats_client w crates (nats_address cfg.spec) key)
          (get_nats_client-Keeps Valid (λ op c r h. h) w crates (nats_address cfg.spec) key))
        λ client.
          Keeps-bind
            (map_err (λ e. nats_error ("Failed to watch services: " <> e))
              (watch w client ns cfg.spec.lattice))
            _
            (error_kept (λ e. nats_error ("Failed to watch services: " <> e))
              (watch w client ns cfg.spec.lattice)
              (record { after = λ op v. watch-IsValid w client ns cfg.spec.lattice op v }))
            λ _. error_kept nats_error (reconcile_services w apps cfg.spec.lattice) (record {
              after = λ op v. IsValid-keeps (reconcile-keeps w apps cfg.spec.lattice op) v;
            })
    where
      key : NameNamespace
      key = record { name = name; namespace = ns }

  reconcile_crd-Keeps : (config : WasmCloudHostConfig) → Keeps Valid (reconcile_crd w crates config)
  unfolding reconcile_crd
  reconcile_crd-Keeps config =
      Keeps-bind (unwrap config.namespace) _ (Keeps-unwrap config.namespace) λ ns.
        Keeps-bind
          (kube
            (ask (λ h. w.host_config h ns config.name_any) (get_host_config ns config.name_any)))
          _
          (Keeps-request Valid still kube_error (λ h. w.host_config h ns config.name_any)
            (get_host_config ns config.name_any) tt)
          λ cfg.
            Keeps-bind (load_creds w crates cfg ns) _
              (load_creds-Keeps Valid (λ op c r h. h) (λ op creds h. h) w crates cfg ns)
              λ creds.
                Keeps-bind (configure w crates cfg (is_some creds)) _
                  (configure-Keeps Valid (λ op c r h. h) w crates cfg (is_some creds))
                  λ _.
                    Keeps-bind (update_status w crates cfg ns config.name_any creds) _
                      (update_status-Keeps Valid (λ op c r h. h) w crates cfg ns config.name_any
                        creds)
                      λ apps.
                        Keeps-bind (start_services w crates cfg ns config.name_any apps) _
                          (start_services-Keeps cfg ns config.name_any apps)
                          λ _. Keeps-pure (requeue 300)

  cleanup-Keeps : (config : WasmCloudHostConfig) → Keeps Valid (cleanup w crates config)
  unfolding cleanup forget_creds
  cleanup-Keeps config =
      Keeps-bind (unwrap config.namespace) _ (Keeps-unwrap config.namespace) λ ns.
        Keeps-bind
          (if config.is_deleted
            then forget_creds (record { name = config.name_any; namespace = ns })
            else pure tt)
          _ (Keeps-if config.is_deleted _ _ (record { after = λ op h. h }) (Keeps-pure tt))
          λ _.
            Keeps-bind
              (map_err (λ e. nats_error ("Failed to stop service watcher: " <> e))
                (on_services (stop_watch config.spec.lattice ns)))
              _
              (error_kept (λ e. nats_error ("Failed to stop service watcher: " <> e))
                (on_services (stop_watch config.spec.lattice ns))
                (record {
                  after = λ op v. stop_watch-IsValid config.spec.lattice ns op.services v;
                }))
              λ _. Keeps-pure await_change

  event-Keeps : (event : Finalizer) → Keeps Valid (reconcile_event w crates event)
  unfolding reconcile_event
  event-Keeps (apply config) = reconcile_crd-Keeps config
  event-Keeps (cleanup_event config) = cleanup-Keeps config

at_member :
    {A : Type 0} (P : A → Type 0) (x : A) (xs : List A) → All P xs → Exists (λ y. y ≡ x) xs → P x
at_member P x [] h m = elim m [ ]
at_member P x (y ∷ ys) (p, h) (inl e) = rw (← e) p
at_member P x (y ∷ ys) (p, h) (inr m) = at_member P x ys h m

module _ {w : World Manifest} {crates : Crates} {e : Encoder} {s : Serde} {document : Value}
    {v2 : String} where
  Move-IsValid :
      {op op' : Operator}
      → Move w crates e s document v2 op op'
      → IsValid op.services
      → IsValid op'.services
  Move-IsValid (reconciled event op) v = (event-Keeps w crates event).after op v
  Move-IsValid (requested r q op m) v =
      rw (at_member Apart r _ (setup-Apart w crates e s document v2) m q op).0 v
  Move-IsValid (received t m op _ _) v = IsValid-keeps (watch_event-keeps w t m op.services) v
  Move-IsValid (drained op) v = IsValid-keeps (drain-keeps w op) v

  Moves-IsValid :
      (state : State) {op : Operator}
      → Moves w crates e s document v2 (context state) op
      → IsValid op.services
  unfolding context
  Moves-IsValid state started = IsValid-new state.config.stream_replicas
  Moves-IsValid state (moved r m) = Move-IsValid m (Moves-IsValid state r)

  -- From the state in which `run` starts the controller, after any sequence of reconciliations and
  -- clean-ups, requests to any route, messages to event loops and runs of the receiving task, each as
  -- a whole and whatever becomes of it, the watchers and event loops are valid, and an event loop
  -- runs for a lattice exactly if the lattice is in the map of watchers.
  pub Moves-running_iff :
      (state : State) {op : Operator}
      → Moves w crates e s document v2 (context state) op
      → IsValid op.services
        × ((l : String)
            → HasRunning op.services l
              ↔ ((x : Watcher) × (HashMap.get l op.services.watchers ≡ some x)))
  Moves-running_iff state {op} r =
      (Moves-IsValid state r, running_iff op.services (Moves-IsValid state r))
