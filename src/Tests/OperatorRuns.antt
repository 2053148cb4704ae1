-- ===== src/Tests/OperatorRuns.antt =====
-- Sequences of operations of the service watcher, commands that are carried out, and replicas.
use wasmcloud_operator.Base.{String, ◌≡◌, refl, true, some, [], ◌∷◌, All, ◌↔◌}
use mathlib.Core.Path.{subst}
use wasmcloud_operator.Base.Outcome.{ok}
use wasmcloud_operator.Base.HashMap
use wasmcloud_operator.Base.HashMap.{string_key}
use wasmcloud_operator.Kube.World.{World, reply, ask}
use wasmcloud_operator.Manifest.Types.{Manifest}
use wasmcloud_operator.Services.Types.{
  new, Watcher, Operator, upsert_service, remove_service, remove_services,
}
use wasmcloud_operator.Services.Watch.{watch, stop_watch}
use wasmcloud_operator.Services.Watching.{watches, fresh}
use wasmcloud_operator.Services.Validity.{IsValid, IsValid-new}
use wasmcloud_operator.Services.Validity.Steps.{watch-IsValid}
use wasmcloud_operator.Services.Reach.{initial, Reach, here, next, watching, stopping, HasRunning}
use wasmcloud_operator.Services.Refinement.{acts, replay, Reach-replay, Reach-running_replay}
use wasmcloud_operator.Services.Ending.{ended, watch-ended}
use wasmcloud_operator.Services.Cluster.{run_commands}
use wasmcloud_operator.Services.Receiver.{IsProper, HasName, IsNamed, HasOwner, run_commands-alive}
use wasmcloud_operator.Tests.Samples.{client, hello_params, hello_service, cluster}

abbrev watched : Operator
watched = (watch cluster client "apps" "default" (initial 1)).1

abbrev left : Operator
left = record watched { services = (stop_watch "default" "apps" watched.services).1 }

abbrev trace : Reach cluster (initial 1) left
trace =
    next (next here (watching client "apps" "default" (initial 1)))
      (stopping "default" "apps" watched)

Reach-replay_example : watches left.services "default" "apps" ≡ replay (acts trace) "default" "apps"
Reach-replay_example = Reach-replay 1 trace "default" "apps"

Reach-running_replay_example :
    HasRunning left.services "default" ↔ ((n : String) × (replay (acts trace) "default" n ≡ true))
Reach-running_replay_example = Reach-running_replay 1 trace "default"

abbrev first_watcher : Watcher
first_watcher = fresh client "apps" "default" (new 1)

first_entry : HashMap.get "default" watched.services.watchers ≡ some first_watcher
unfolding watch HashMap.get new ask HashMap.insert
first_entry = refl

first_IsValid : IsValid watched.services
first_IsValid = watch-IsValid cluster client "apps" "default" (initial 1) (IsValid-new 1)

watch-ended_example :
    ((watch cluster client "more" "default"
        (record watched { services = ended first_watcher watched.services })).0
      ≡ ok tt)
    × (¬ HasRunning
        (watch cluster client "more" "default"
          (record watched { services = ended first_watcher watched.services })).1.services
        "default")
watch-ended_example =
    watch-ended cluster client "more" "default" watched first_watcher first_watcher first_IsValid
      first_entry refl

abbrev proper_cluster : World Manifest
proper_cluster = record cluster { applied_service = λ h svc. reply hello_service }

reply_inj : {A : Type 0} {a b : A} → reply a ≡ reply b → a ≡ b
reply_inj e = cc

proper : IsProper proper_cluster
proper = record {
  configs = λ h n configs e. subst (All HasName) (reply_inj e) (refl, tt);
  services = λ h n selector services e. subst (All IsNamed) (reply_inj e) (refl, tt);
  applied = λ h svc created e. subst HasOwner (reply_inj e) refl;
}

run_commands-alive_example :
    (run_commands proper_cluster
      (upsert_service hello_params
        ∷ remove_service "hello" ("apps" ∷ [])
        ∷ remove_services ("apps" ∷ [])
        ∷ [])
      []).0
    ≡ true
run_commands-alive_example =
    run_commands-alive proper_cluster proper
      (upsert_service hello_params
        ∷ remove_service "hello" ("apps" ∷ [])
        ∷ remove_services ("apps" ∷ [])
        ∷ [])
      []
