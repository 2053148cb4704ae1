-- ===== src/Services/Deletion.antt =====
-- The calls that carry out commands: the operator deletes a service only after it has cleared the
-- finalizers of that service.
use wasmcloud_operator.Services.Calls.{IsMild, run_command-Keeps}
use wasmcloud_operator.Base.{String, ◌≡◌, refl, Bool, false, none, List, [], ◌∷◌}
use wasmcloud_operator.Base.Outcome.{ok, err, panic}
use wasmcloud_operator.Base.Keeps.{Keeps}
use wasmcloud_operator.Kube.Objects.{Service}
use wasmcloud_operator.Kube.World.{
  Call, get_service, delete_service as deletes, apply_service, Reply, reply, failed, World, ask,
}
use wasmcloud_operator.Services.Types.{WatcherCommand}
use wasmcloud_operator.Services.Cluster.{
  run_command, run_commands, without_finalizers, clear_and_delete,
}

-- The call before a deletion, if it patched that service to have no finalizers.
abbrev pub IsCleared : String → String → List Call → Type 0
IsCleared ns name (apply_service ns' name' params svc ∷ _) =
    (ns' ≡ ns) × (name' ≡ name) × (svc.metadata.finalizers ≡ none)
IsCleared ns name _ = ⊥

abbrev pub IsOrdered : List Call → Type 0
IsOrdered [] = Unit
IsOrdered (deletes ns name ∷ calls) = IsCleared ns name calls × IsOrdered calls
IsOrdered (_ ∷ calls) = IsOrdered calls

IsOrdered-cons : (c : Call) (calls : List Call) → IsMild c → IsOrdered calls → IsOrdered (c ∷ calls)
IsOrdered-cons (deletes ns name) calls m h = elim m [ ]
IsOrdered-cons (get_service ns name) calls m h = h
IsOrdered-cons _ calls m h = h

module _ {M : Type 0} (w : World M) where
  cleared_path :
      (n name : String) (svc : Service) (s : List Call)
      → IsOrdered s
      → (r : Reply Service) → w.applied_service s (without_finalizers svc) ≡ r
      → IsOrdered (clear_and_delete w n name svc s).1
  unfolding clear_and_delete ask
  cleared_path n name svc s h (failed e) p = rw (p, clear_and_delete) h
  cleared_path n name svc s h (reply a) p = rw (p, clear_and_delete) ((refl, refl, refl), h)

  cleared-Keeps :
      (n name : String) (svc : Service) → Keeps IsOrdered (clear_and_delete w n name svc)
  cleared-Keeps n name svc = record { after = λ s h. cleared_path n name svc s h _ refl }

  -- Whatever commands are carried out and whatever the API server answers, each deletion of a
  -- service comes right after a patch that leaves that service without finalizers.
  pub run_commands-IsOrdered :
      (cmds : List WatcherCommand) (calls : List Call)
      → IsOrdered calls
      → IsOrdered (run_commands w cmds calls).1
  unfolding run_commands
  run_commands-IsOrdered [] calls h = h
  run_commands-IsOrdered (cmd ∷ cmds) calls h =
      let calls' = (run_command w cmd calls).1 in
      let h' : IsOrdered calls' =
        (run_command-Keeps w IsOrdered IsOrdered-cons cleared-Keeps cmd).after calls h in
      let rest = run_commands-IsOrdered cmds calls' h' in
      elim (run_command w cmd calls).0
        as (λ r.
          IsOrdered
            (elim r as (λ _. Bool × List Call) [
              | ok _ ↦ run_commands w cmds calls'
              | err _ ↦ run_commands w cmds calls'
              | panic ↦ (false, calls')
            ]).1) [ ok _ ↦ rest | err _ ↦ rest | panic ↦ h' ]
