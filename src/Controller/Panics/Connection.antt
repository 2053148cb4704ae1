-- ===== src/Controller/Panics/Connection.antt =====
-- The panics of `reconcile_crd` of src/controller.rs, at its end: the client, the watch and the reconciliation of
-- the services.
use wasmcloud_operator.Base.{
  String, ◌≡◌, ◌≢◌, refl, Option, none, some, List, Option-cases, inl, inr, ◌<>◌, ◌⊎◌, arith,
}
use wasmcloud_operator.Base.Outcome.{Outcome, ok, err, panic}
use wasmcloud_operator.Base.Exec.{pure, continue, map_err}
use wasmcloud_operator.Base.HashMap
use wasmcloud_operator.Base.HashMap.{
  HashMap, string_key, get-insert_cases, get-insert_self, get-insert,
}
use wasmcloud_operator.Base.Runs.{Sound, Runs, Any, Runs-bind, Runs-map_err}
use wasmcloud_operator.Base.Lands.{Lands, Lands-bind, Lands-map_err, Lands-any}
use wasmcloud_operator.HostConfig.{WasmCloudHostConfig}
use wasmcloud_operator.Kube.World.{
  World, Reply, reply, failed, ask, of_reply, ModelSummary, NatsClient,
}
use wasmcloud_operator.Manifest.Types.{Manifest}
use wasmcloud_operator.Services.Types.{Operator, NameNamespace, name_namespace_key}
use wasmcloud_operator.Services.Watch.{watch, start_watch, prepare_consumer}
use wasmcloud_operator.Services.Events.{reconcile_services}
use wasmcloud_operator.Services.EventLaws.{
  reconcile_services-IsReconciled, reconcile_services_unwatched,
}
use wasmcloud_operator.Controller.Types.{Crates, nats_error}
use wasmcloud_operator.Controller.Reconcile.{
  start_services, get_nats_client, expected_creds, checked_creds, nats_address,
}

not_panic : {E A : Type 0} (r : Outcome E A) → r ≢ panic → Sound Any r
not_panic (ok a) h = tt
not_panic (err e) h = tt
not_panic panic h = h refl

connected :
    {A : Type 0} (r : Reply (Unit {0})) (a : A) (op : Operator)
    → Lands (λ _ _. Unit {0}) (continue (of_reply r) (λ _. pure a) op)
connected (reply _) a op = tt
connected (failed e) a op = tt

module _ (w : World Manifest) where
  -- async-nats accepts the credentials that the operator has for the name and namespace, if any,
  -- or they are those at hand.
  abbrev pub IsHeld : NameNamespace → Option String → Operator → Type 0
  IsHeld key held op =
      (text : String)
      → HashMap.get key op.nats_creds ≡ some text
      → (w.credentials text ≡ reply tt) ⊎ (held ≡ some text)

  -- async-nats accepts the credentials that the operator has for the name and namespace, if any.
  abbrev pub IsAccepted : NameNamespace → Operator → Type 0
  IsAccepted key op =
      (text : String) → HashMap.get key op.nats_creds ≡ some text → w.credentials text ≡ reply tt

  module _ (crates : Crates) where
    accepted :
        (creds : Option String)
        → ((text : String) → creds ≡ some text → w.credentials text ≡ reply tt)
        → expected_creds w crates creds ≡ ok tt
    unfolding expected_creds checked_creds
    accepted none h = refl
    accepted (some text) h = rw (h text refl, expected_creds) refl

    client-Lands :
        (address : String) (key : NameNamespace) (op : Operator)
        → IsAccepted key op
        → Lands (λ _ _. Unit {0}) (get_nats_client w crates address key op)
    unfolding get_nats_client ask
    client-Lands address key op h =
        let creds = HashMap.get key op.nats_creds in
        rw (accepted creds h, get_nats_client)
          (connected (w.connected op.calls address creds)
            (record { address = address; creds = creds }) _)

    watch-Runs : (client : NatsClient) (n l : String) → Runs Any (watch w client n l)
    unfolding watch start_watch prepare_consumer ask
    watch-Runs client n l = record { from = λ op. not_panic _ (λ p. ground (arith, p)) }

    reconcile_services-Runs :
        (apps : List ModelSummary) (l : String) → Runs Any (reconcile_services w apps l)
    reconcile_services-Runs apps l = record {
      from = λ op. elim (Option-cases (HashMap.get l op.services.watchers)) [
        | inl e ↦ rw (reconcile_services_unwatched w apps l op e) tt
        | inr (x, e) ↦ rw (reconcile_services-IsReconciled w apps l op x e).0 tt
      ];
    }

    pub start_services-Lands :
        (cfg : WasmCloudHostConfig) (ns name : String) (apps : List ModelSummary) (op : Operator)
        → IsAccepted (record { name = name; namespace = ns }) op
        → Lands (λ _ _. Unit {0}) (start_services w crates cfg ns name apps op)
    unfolding start_services
    start_services-Lands cfg ns name apps op h =
        let key : NameNamespace = record { name = name; namespace = ns } in
        Lands-bind (λ _ _. Unit {0}) _
          (map_err (λ e. nats_error ("Failed to get nats client: " <> e))
            (get_nats_client w crates (nats_address cfg.spec) key))
          _ op
          (Lands-map_err _ (λ e. nats_error ("Failed to get nats client: " <> e))
            (get_nats_client w crates (nats_address cfg.spec) key) op
            (client-Lands (nats_address cfg.spec) key op h))
          λ client op' _. Lands-any Any _ op' (
            Runs-bind Any
              (map_err (λ e. nats_error ("Failed to watch services: " <> e))
                (watch w client ns cfg.spec.lattice))
              _
              (Runs-map_err (λ e. nats_error ("Failed to watch services: " <> e))
                (watch w client ns cfg.spec.lattice) (watch-Runs client ns cfg.spec.lattice))
              λ _ _.
                Runs-map_err nats_error (reconcile_services w apps cfg.spec.lattice)
                  (reconcile_services-Runs apps cfg.spec.lattice))
