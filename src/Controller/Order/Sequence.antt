-- ===== src/Controller/Order/Sequence.antt =====
-- `reconcile_crd` of src/controller.rs: the objects that it applies, and their order.
use wasmcloud_operator.Base.{
  String, ◌≡◌, refl, ap, ◌∙◌, Option, some, List, [], ◌∷◌, ◌<>◌, Option-cases, inl, inr, arith,
  is_some,
}
use wasmcloud_operator.Base.Exec.{Exec, map_err}
use wasmcloud_operator.Base.HashMap
use wasmcloud_operator.Base.HashMap.{string_key}
use wasmcloud_operator.Base.Keeps.{Keeps}
use wasmcloud_operator.Base.Post.{Post}
use wasmcloud_operator.HostConfig.{WasmCloudHostConfig}
use wasmcloud_operator.Kube.World.{
  World, get_manifest, ask, ModelSummary, NatsClient, patch_status, reply, get_host_config,
}
use wasmcloud_operator.Manifest.Types.{Manifest}
use wasmcloud_operator.Services.Types.{Operator, NameNamespace, name_namespace_key}
use wasmcloud_operator.Services.Watch.{watch, start_watch, prepare_consumer, on_calls}
use wasmcloud_operator.Services.Watching.{watch_again}
use wasmcloud_operator.Services.Events.{reconcile_services}
use wasmcloud_operator.Services.EventLaws.{
  asked, reconcile_services-IsReconciled, reconcile_services_unwatched,
}
use wasmcloud_operator.Services.Frame.{Keeps-on_calls}
use wasmcloud_operator.Controller.Types.{Error, Crates, nats_error, kube}
use wasmcloud_operator.Controller.Apply.{apply}
use wasmcloud_operator.Controller.Frame.{load_creds-Keeps, list_apps-Keeps, get_nats_client-Keeps}
use wasmcloud_operator.Controller.Reconcile.{
  load_creds, update_status, start_services, get_nats_client, list_apps, nats_address, status_of,
  reconcile_crd, requeue,
}
use wasmcloud_operator.Controller.Order.{
  status, Target, targets, cons_target, Applies, Applies-bind, Applies-quiet, Applies-pure,
  AllApplied, PartApplied, Call,
}
use wasmcloud_operator.Controller.Order.Steps.{At, At-is_read, answered, objects, configure-Applies}

targets-asked :
    (w : World Manifest) (l : String) (apps : List ModelSummary) (calls : List Call)
    → targets (asked w l apps calls) ≡ targets calls
unfolding targets
targets-asked w l [] calls = refl
targets-asked w l (app ∷ apps) calls = elim (Option-cases app.deployed_version) [
  | inl e ↦ rw e (targets-asked w l apps calls)
  | inr (v, e) ↦ rw e (targets-asked w l apps (get_manifest l app.name (some v) ∷ calls))
]

module _ (w : World Manifest) (ts : List Target) where
  watch-Keeps : (client : NatsClient) (n l : String) → Keeps (At ts) (watch w client n l)
  unfolding watch start_watch prepare_consumer targets ask
  watch-Keeps client n l = record {
    after = λ op h. elim (Option-cases (HashMap.get l op.services.watchers)) [
      | inl e ↦ ground (arith, e, h)
      | inr (x, e) ↦ rw (watch_again w client n l op x e) h
    ];
  }

  reconcile_services-Keeps :
      (apps : List ModelSummary) (l : String) → Keeps (At ts) (reconcile_services w apps l)
  reconcile_services-Keeps apps l = record {
    after = λ op h. elim (Option-cases (HashMap.get l op.services.watchers)) [
      | inl e ↦ rw (reconcile_services_unwatched w apps l op e) h
      | inr (x, e) ↦
          let (_, r) = reconcile_services-IsReconciled w apps l op x e in
          ap targets r.calls ∙ targets-asked w l apps op.calls ∙ h
    ];
  }

module _ (w : World Manifest) (crates : Crates) where
  list_apps-quiet :
      (address : String) (creds : Option String) (l : String) (f : String → Error)
      → Applies [] (map_err f (on_calls (list_apps w crates address creds l)))
  list_apps-quiet address creds l f = Applies-quiet _ λ ts.
      Keeps-on_calls (At ts) f (list_apps w crates address creds l)
        λ op. list_apps-Keeps (At ts) (At-is_read ts) w crates op address creds l

  patch-Applies :
      (call : Call) (ns name : String)
      → ((calls : List Call) → targets (call ∷ calls) ≡ cons_target status ns name (targets calls))
      → Applies (cons_target status ns name []) (kube (ask (λ h. w.applied h call) call))
  unfolding apply
  patch-Applies call ns name h = answered w crates call status ns name h

  update_status-Applies :
      (cfg : WasmCloudHostConfig) (ns name : String) (creds : Option String)
      → Applies (cons_target status ns name []) (update_status w crates cfg ns name creds)
  unfolding update_status targets
  update_status-Applies cfg ns name creds =
      Applies-bind [] _
        (map_err (λ e. nats_error ("Failed to list apps: " <> e))
          (on_calls (list_apps w crates (nats_address cfg.spec) creds cfg.spec.lattice)))
        _
        (list_apps-quiet (nats_address cfg.spec) creds cfg.spec.lattice
          (λ e. nats_error ("Failed to list apps: " <> e)))
        λ apps.
          let call = patch_status ns name (status_of apps) in
          Applies-bind (cons_target status ns name []) [] (kube (ask (λ h. w.applied h call) call))
            _ (patch-Applies call ns name (λ calls. refl)) λ _. Applies-pure apps

  quiet_error :
      {A : Type 0} (f : String → Error) (m : Exec String Operator A)
      → ((ts : List Target) → Keeps (At ts) m)
      → Applies [] (map_err f m)
  quiet_error f m k = Applies-quiet _ λ ts. record { after = (k ts).after }

  start_services-quiet :
      (cfg : WasmCloudHostConfig) (ns name : String) (apps : List ModelSummary)
      → Applies [] (start_services w crates cfg ns name apps)
  unfolding start_services
  start_services-quiet cfg ns name apps =
      Applies-bind [] []
        (map_err (λ e. nats_error ("Failed to get nats client: " <> e))
          (get_nats_client w crates (nats_address cfg.spec) key))
        _
        (quiet_error _ _
          λ ts. get_nats_client-Keeps (At ts) (At-is_read ts) w crates (nats_address cfg.spec) key)
        λ client.
          Applies-bind [] []
            (map_err (λ e. nats_error ("Failed to watch services: " <> e))
              (watch w client ns cfg.spec.lattice))
            _ (quiet_error _ _ λ ts. watch-Keeps w ts client ns cfg.spec.lattice)
            λ _.
              quiet_error nats_error (reconcile_services w apps cfg.spec.lattice)
                λ ts. reconcile_services-Keeps w ts apps cfg.spec.lattice
    where
      key : NameNamespace
      key = record { name = name; namespace = ns }

  -- Suppose that the API server answers the read of the configuration with `cfg`, which has its
  -- namespace. What `reconcile_crd` applies when it succeeds is the config map, the service account,
  -- the role, the role binding, the deployment or daemon set and the service of `cfg`, and then the
  -- status, in this order and nothing else; when it fails or panics, it has applied the first few
  -- of these in the same order, and nothing else.
  pub reconcile_crd-Applies :
      (config cfg : WasmCloudHostConfig) (ns : String) (op : Operator)
      → config.namespace ≡ some ns
      → w.host_config op.calls ns config.name_any ≡ reply cfg
      → cfg.namespace ≡ some ns
      → Post
          (λ _ op'.
            AllApplied
              (cons_target status ns config.name_any (objects cfg ns))
              (targets op.calls)
              op')
          (PartApplied (cons_target status ns config.name_any (objects cfg ns)) (targets op.calls))
          (reconcile_crd w crates config op)
  unfolding reconcile_crd ask targets
  reconcile_crd-Applies config cfg ns op e r e' =
      rw (e, reconcile_crd)
        (rw r (
          (Applies-bind [] _ (load_creds w crates cfg ns) _
              (Applies-quiet _
                λ ts. load_creds-Keeps (At ts) (At-is_read ts) (λ op creds h. h) w crates cfg ns)
              λ creds.
                Applies-bind (objects cfg ns) _ _ _
                  (configure-Applies w crates cfg ns e' (is_some creds))
                  λ _.
                    Applies-bind _ _ _ _ (update_status-Applies cfg ns config.name_any creds)
                      λ apps.
                        Applies-bind [] [] _ _ (start_services-quiet cfg ns config.name_any apps)
                          λ _. Applies-pure (requeue 300)).run
            (record op { calls = get_host_config ns config.name_any ∷ op.calls })))
