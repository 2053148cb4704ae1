-- ===== src/Controller/Watched.antt =====
-- `reconcile_crd` of src/controller.rs: what becomes of the service watcher.
use wasmcloud_operator.Base.{
  sym, String, ◌≡◌, ◌≢◌, refl, true, ◌&&◌, ◌==◌, some, List, if◌then◌else◌, is_some, ◌⊎◌, inl, inr,
  Option-cases, ◌<>◌, ◌∷◌,
}
use wasmcloud_operator.Base.Outcome.{Outcome, ok, err, panic}
use wasmcloud_operator.Base.Exec.{Exec, continue, ◌>>=◌, map_err, map_error, pure}
use wasmcloud_operator.Base.HashMap
use wasmcloud_operator.Base.HashMap.{string_key, get-remove}
use wasmcloud_operator.HostConfig.{WasmCloudHostConfig}
use wasmcloud_operator.Kube.World.{NatsClient, ModelSummary, World, ask, reply, get_host_config}
use wasmcloud_operator.Manifest.Types.{Manifest}
use wasmcloud_operator.Services.Types.{name_namespace_key, ServiceWatcher, Operator}
use wasmcloud_operator.Services.Watch.{watch}
use wasmcloud_operator.Services.Watching.{watches, watches-watch, watch_again, watch_first}
use wasmcloud_operator.Services.Events.{reconcile_services}
use wasmcloud_operator.Services.EventLaws.{
  reconcile_services-IsReconciled, reconcile_services_unwatched,
}
use wasmcloud_operator.Controller.Types.{Crates, nats_error}
use wasmcloud_operator.Controller.Atomic.{
  get_nats_client-Untouched, update_status-Untouched, Untouched, load_creds-Untouched,
  configure-Untouched,
}
use wasmcloud_operator.Controller.Reconcile.{
  get_nats_client, start_services, reconcile_crd, load_creds, nats_address, configure,
  update_status, requeue,
}

-- The pair is watched from now on, and every other as before.
abbrev pub Joined : String → String → ServiceWatcher → ServiceWatcher → Type 0
Joined l n s s' =
    (l' n' : String) → watches s' l' n' ≡ (if l == l' && n == n' then true else watches s l' n')

-- All or nothing: the pair is watched on success, and nothing has changed on a failure.
abbrev pub Joins :
    {E A : Type 0} → String → String → ServiceWatcher → Outcome E A → ServiceWatcher → Type 0
Joins l n s (ok a) s' = Joined l n s s'
Joins l n s (err e) s' = s' ≡ s
Joins l n s panic s' = s' ≡ s

abbrev pub JoinsBy : {E A : Type 0} → String → String → Exec E Operator A → Type 0
JoinsBy l n m = (op : Operator) → Joins l n op.services (m op).0 (m op).1.services

module _ {E A B : Type 0} (l n : String) where
  after_untouched :
      (r : Outcome E A) (f : A → Exec E Operator B) (op' : Operator) (s : ServiceWatcher)
      → op'.services ≡ s
      → ((a : A) → JoinsBy l n (f a))
      → Joins l n s (continue r f op').0 (continue r f op').1.services
  after_untouched (ok a) f op' s h k = rw (sym h) (k a op')
  after_untouched (err e) f op' s h k = h
  after_untouched panic f op' s h k = h

  Joins-bind :
      (m : Exec E Operator A) (f : A → Exec E Operator B)
      → Untouched m
      → ((a : A) → JoinsBy l n (f a))
      → JoinsBy l n (m >>= f)
  Joins-bind m f u k op =
      after_untouched (m op).0 f (m op).1 op.services ((u op.services).after op refl) k

module _ {E A B : Type 0} (l n : String) where
  last_step :
      (r : Outcome E A) (b : B) (op' : Operator) (s : ServiceWatcher)
      → Joins l n s r op'.services
      → Joins l n s (continue r (λ _. pure b) op').0 (continue r (λ _. pure b) op').1.services
  last_step (ok a) b op' s h = h
  last_step (err e) b op' s h = h
  last_step panic b op' s h = h

  Joins-last : (m : Exec E Operator A) → JoinsBy l n m → (b : B) → JoinsBy l n (m >>= λ _. pure b)
  Joins-last m k b op = last_step (m op).0 b (m op).1 op.services (k op)

module _ {E F A : Type 0} (l n : String) (f : E → F) where
  Joins-error :
      (r : Outcome E A) (s s' : ServiceWatcher) → Joins l n s r s' → Joins l n s (map_error f r) s'
  Joins-error (ok a) s s' h = h
  Joins-error (err e) s s' h = h
  Joins-error panic s s' h = h

unit_outcome : {E : Type 0} (r : Outcome E (Unit {0})) → (r ≡ ok tt) ⊎ (r ≢ ok tt)
unit_outcome (ok tt) = inl refl
unit_outcome (err e) = inr (λ p. cc)
unit_outcome panic = inr (λ p. cc)

failed_join :
    {E : Type 0} (l n : String) (r : Outcome E (Unit {0})) (s s' : ServiceWatcher)
    → r ≢ ok tt
    → s' ≡ s
    → Joins l n s r s'
failed_join l n (ok tt) s s' bad h = absurd (bad refl)
failed_join l n (err e) s s' bad h = h
failed_join l n panic s s' bad h = h

module _ (w : World Manifest) where
  failed_watch :
      (client : NatsClient) (n l : String) (op : Operator)
      → (watch w client n l op).0 ≢ ok tt
      → (watch w client n l op).1.services ≡ op.services
  failed_watch client n l op bad = elim (Option-cases (HashMap.get l op.services.watchers)) [
    | inl e ↦ elim (watch_first w client n l op e) [
      | inl (_, same) ↦ same
      | inr (good, _) ↦ absurd (bad good)
    ]
    | inr (x, e) ↦ absurd (bad (rw (watch_again w client n l op x e) refl))
  ]

  watch-Joins : (client : NatsClient) (n l : String) → JoinsBy l n (watch w client n l)
  watch-Joins client n l op = elim (unit_outcome (watch w client n l op).0) [
    | inl good ↦ rw good (λ l' n'. watches-watch w client n l op l' n' good)
    | inr bad ↦ failed_join l n _ _ _ bad (failed_watch client n l op bad)
  ]

  reconcile_services_settles :
      (apps : List ModelSummary) (l : String) (op : Operator)
      → ((reconcile_services w apps l op).0 ≡ ok tt)
        × ((reconcile_services w apps l op).1.services.watchers ≡ op.services.watchers)
  reconcile_services_settles apps l op = elim (Option-cases (HashMap.get l op.services.watchers)) [
    | inl e ↦ rw (reconcile_services_unwatched w apps l op e) (refl, refl)
    | inr (x, e) ↦
        let (done, r) = reconcile_services-IsReconciled w apps l op x e in (done, r.kept.watchers)
  ]

  then_reconcile :
      {E : Type 0} (f g : String → E) (apps : List ModelSummary) (n l : String) (s : ServiceWatcher)
      (r : Outcome String (Unit {0})) (op : Operator)
      → Joins l n s r op.services
      → Joins l n s
          (continue (map_error f r) (λ _. map_err g (reconcile_services w apps l)) op).0
          (continue (map_error f r) (λ _. map_err g (reconcile_services w apps l)) op).1.services
  unfolding watches
  then_reconcile f g apps n l s (ok tt) op h =
      let (done, same) = reconcile_services_settles apps l op in
      rw done (λ l' n'. rw same (h l' n'))
  then_reconcile f g apps n l s (err e) op h = h
  then_reconcile f g apps n l s panic op h = h

  watch_then_reconcile :
      {E : Type 0} (f g : String → E) (apps : List ModelSummary) (client : NatsClient)
      (n l : String)
      → JoinsBy l n
          (map_err f (watch w client n l) >>= λ _. map_err g (reconcile_services w apps l))
  watch_then_reconcile f g apps client n l op =
      let r = watch w client n l op in
      then_reconcile f g apps n l op.services r.0 r.1 (watch-Joins client n l op)

module _ (w : World Manifest) (crates : Crates) where
  start_services-Joins :
      (cfg : WasmCloudHostConfig) (ns name : String) (apps : List ModelSummary)
      → JoinsBy cfg.spec.lattice ns (start_services w crates cfg ns name apps)
  unfolding start_services
  start_services-Joins cfg ns name apps =
      Joins-bind cfg.spec.lattice ns
        (map_err (λ e. nats_error ("Failed to get nats client: " <> e))
          (get_nats_client w crates (nats_address cfg.spec)
            (record { name = name; namespace = ns })))
        (λ client.
          map_err (λ e. nats_error ("Failed to watch services: " <> e))
            (watch w client ns cfg.spec.lattice)
          >>= λ _. map_err nats_error (reconcile_services w apps cfg.spec.lattice))
        (λ s. record {
          after =
              (get_nats_client-Untouched w crates (nats_address cfg.spec)
                (record { name = name; namespace = ns }) s).after;
        })
        λ client.
          watch_then_reconcile w (λ e. nats_error ("Failed to watch services: " <> e)) nats_error
            apps client ns cfg.spec.lattice

  -- Suppose that the API server answers the read of the configuration with `cfg`. If `reconcile_crd`
  -- succeeds, then the lattice of `cfg` is watched for its namespace and every other pair is watched
  -- as before; if it fails, at whatever call, then the service watcher has not changed at all.
  pub reconcile_crd-Joins :
      (config cfg : WasmCloudHostConfig) (ns : String) (op : Operator)
      → config.namespace ≡ some ns
      → w.host_config op.calls ns config.name_any ≡ reply cfg
      → Joins cfg.spec.lattice ns op.services
          (reconcile_crd w crates config op).0
          (reconcile_crd w crates config op).1.services
  unfolding reconcile_crd ask
  reconcile_crd-Joins config cfg ns op e r =
      rw (e, reconcile_crd)
        (rw r (
          Joins-bind l ns (load_creds w crates cfg ns) _ (load_creds-Untouched w crates cfg ns)
            (λ creds.
              Joins-bind l ns (configure w crates cfg (is_some creds)) _
                (configure-Untouched w crates cfg (is_some creds))
                (λ _.
                  Joins-bind l ns (update_status w crates cfg ns config.name_any creds) _
                    (update_status-Untouched w crates cfg ns config.name_any creds)
                    (λ apps.
                      Joins-last l ns _ (start_services-Joins cfg ns config.name_any apps)
                        (requeue 300))))
            (record op { calls = get_host_config ns config.name_any ∷ op.calls })))
    where
      l : String
      l = cfg.spec.lattice
