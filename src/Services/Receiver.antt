-- ===== src/Services/Receiver.antt =====
-- The receiving task of `ServiceWatcher::new` in src/services.rs: when it outlives its commands.
use wasmcloud_operator.Base.{
  String, ◌≡◌, refl, Bool, true, false, Option, none, List, [], ◌∷◌, All, is_some,
}
use wasmcloud_operator.Base.Outcome.{Outcome, ok, err, panic}
use wasmcloud_operator.Base.Runs.{
  Sound, Runs, Any, Runs-pure, Runs-if, Runs-unwrap, Runs-ignore, Runs-bind, Runs-for_each,
  Runs-fold_each,
}
use wasmcloud_operator.HostConfig.{WasmCloudHostConfig}
use wasmcloud_operator.Kube.Objects.{Service, OwnerReference}
use wasmcloud_operator.Kube.World.{Call, World, Reply, reply, failed, of_reply, ask}
use wasmcloud_operator.Services.Types.{
  ServiceParams, WatcherCommand, upsert_service, remove_service, remove_services,
}
use wasmcloud_operator.Services.Cluster.{
  config_ips, lattice_ips, put_endpoints, put_service, create_or_update_service, clear_and_delete,
  delete_service, delete_listed, delete_services, run_command, run_commands,
}

abbrev pub HasName : WasmCloudHostConfig → Type 0
HasName cfg = is_some cfg.name ≡ true

abbrev pub HasOwner : Service → Type 0
HasOwner svc = is_some svc.owner ≡ true

abbrev pub IsNamed : Service → Type 0
IsNamed svc = is_some svc.metadata.name ≡ true

-- What the API server answers: listed objects have names, and an applied service has what an owner
-- reference to it needs.
pub record IsProper {M : Type 0} (w : World M) : Type 0 where
  pub configs :
      (h : List Call) (n : String) (configs : List WasmCloudHostConfig)
      → w.host_configs h n ≡ reply configs
      → All HasName configs
  pub services :
      (h : List Call) (n selector : String) (services : List Service)
      → w.services h n selector ≡ reply services
      → All IsNamed services
  pub applied :
      (h : List Call) (svc created : Service)
      → w.applied_service h svc ≡ reply created
      → HasOwner created

reply-Sound :
    {A : Type 0} (Q : A → Type 0) (r : Reply A)
    → ((a : A) → r ≡ reply a → Q a)
    → Sound Q (of_reply r)
reply-Sound Q (reply a) k = k a refl
reply-Sound Q (failed e) k = tt

Runs-ask :
    {A : Type 0} (Q : A → Type 0) (f : List Call → Reply A) (call : Call)
    → ((h : List Call) (a : A) → f h ≡ reply a → Q a)
    → Runs Q (ask f call)
unfolding ask
Runs-ask Q f call k = record { from = λ h. reply-Sound Q (f h) (k h) }

All-Any : {A : Type 0} (xs : List A) → All Any xs
All-Any [] = tt
All-Any (x ∷ xs) = (tt, All-Any xs)

module _ {M : Type 0} (w : World M) (proper : IsProper w) where
  config_ips-Runs :
      (l n : String) (ips : List (Option String)) (cfg : WasmCloudHostConfig)
      → HasName cfg
      → Runs Any (config_ips w l n ips cfg)
  unfolding config_ips
  config_ips-Runs l n ips cfg h =
      Runs-if _ _ _
        (Runs-bind Any _ _ (Runs-unwrap cfg.name h)
          λ name _. Runs-bind Any _ _ (Runs-ask Any _ _ λ _ _ _. tt) λ pods _. Runs-pure _ tt)
        (Runs-pure ips tt)

  lattice_ips-Runs : (l n : String) → Runs Any (lattice_ips w l n)
  unfolding lattice_ips
  lattice_ips-Runs l n =
      Runs-bind (All HasName) _ _
        (Runs-ask (All HasName) _ _ λ h configs e. proper.configs h n configs e)
        λ configs named.
          Runs-fold_each HasName (config_ips w l n) (config_ips-Runs l n) [] configs named

  put_endpoints-Runs :
      (params : ServiceParams) (n : String) (svc : Service)
      → HasOwner svc
      → Runs Any (put_endpoints w params n svc)
  unfolding put_endpoints
  put_endpoints-Runs params n svc h =
      Runs-bind Any _ _ (lattice_ips-Runs params.lattice_id n) λ ips _.
        Runs-if _ _ _ (Runs-pure tt tt)
          (Runs-bind Any _ _ (Runs-unwrap svc.owner h) λ owner _. Runs-ask Any _ _ λ _ _ _. tt)

  put_service-Runs :
      (params : ServiceParams) (o : Option OwnerReference) (n : String)
      → Runs Any (put_service w params o n)
  unfolding put_service
  put_service-Runs params o n =
      Runs-bind HasOwner _ _ (Runs-ask HasOwner _ _ λ h created e. proper.applied h _ created e)
        λ created owned. Runs-if _ _ _ (put_endpoints-Runs params n created owned) (Runs-pure tt tt)

  delete_service-Runs : (n name : String) → Runs Any (delete_service w n name)
  unfolding delete_service clear_and_delete
  delete_service-Runs n name = Runs-bind Any _ _ (Runs-ask Any _ _ λ _ _ _. tt) λ svc _.
      Runs-bind Any _ _ (Runs-ask Any _ _ λ _ _ _. tt) λ patched _. Runs-ask Any _ _ λ _ _ _. tt

  delete_listed-Runs : (n : String) (svc : Service) → IsNamed svc → Runs Any (delete_listed w n svc)
  unfolding delete_listed
  delete_listed-Runs n svc h =
      Runs-bind Any _ _ (Runs-unwrap svc.metadata.name h) λ name _. delete_service-Runs n name

  delete_services-Runs : (n : String) → Runs Any (delete_services w n)
  unfolding delete_services
  delete_services-Runs n =
      Runs-bind (All IsNamed) _ _
        (Runs-ask (All IsNamed) _ _ λ h services e. proper.services h n _ services e)
        λ services named.
          Runs-for_each IsNamed (delete_listed w n) (delete_listed-Runs n) services named

  run_command-Runs : (cmd : WatcherCommand) → Runs Any (run_command w cmd)
  unfolding run_command create_or_update_service
  run_command-Runs (upsert_service params) = Runs-ignore _ (
      Runs-for_each Any (put_service w params none) (λ n _. put_service-Runs params none n)
        params.namespaces (All-Any params.namespaces))
  run_command-Runs (remove_service name namespaces) =
      Runs-for_each Any _ (λ n _. Runs-ignore _ (delete_service-Runs n name)) namespaces
        (All-Any namespaces)
  run_command-Runs (remove_services namespaces) =
      Runs-for_each Any _ (λ n _. Runs-ignore _ (delete_services-Runs n)) namespaces
        (All-Any namespaces)

  next_command :
      (r : Outcome String (Unit {0})) (cmds : List WatcherCommand) (calls : List Call)
      → Sound Any r
      → (run_commands w cmds calls).0 ≡ true
      → (elim r as (λ _. Bool × List Call) [
        | ok _ ↦ run_commands w cmds calls
        | err _ ↦ run_commands w cmds calls
        | panic ↦ (false, calls)
      ]).0
        ≡ true
  next_command (ok a) cmds calls h k = k
  next_command (err e) cmds calls h k = k
  next_command panic cmds calls h k = elim h [ ]

  -- If the API server gives listed objects names and an applied service what a reference to it needs, then
  -- the receiving task carries out any sequence of commands and goes on, whichever calls fail.
  pub run_commands-alive :
      (cmds : List WatcherCommand) (calls : List Call) → (run_commands w cmds calls).0 ≡ true
  unfolding run_commands
  run_commands-alive [] calls = refl
  run_commands-alive (cmd ∷ cmds) calls =
      next_command (run_command w cmd calls).0 cmds (run_command w cmd calls).1
        ((run_command-Runs cmd).from calls) (run_commands-alive cmds (run_command w cmd calls).1)
