-- ===== src/Tests/ServiceRuns.antt =====
-- The service watcher of src/services.rs at a few operations.
use wasmcloud_operator.Services.Publishing.{IsUpserted, IsPassedOver, watch_event-published}
use wasmcloud_operator.Base.HashSet
use wasmcloud_operator.Base.{
  String, ◌≡◌, ◌↔◌, refl, ◌&&◌, ◌==◌, true, false, none, some, [], ◌∷◌, if◌then◌else◌, All, length,
  ◌⊎◌,
}
use wasmcloud_operator.Base.Outcome.{ok}
use wasmcloud_operator.Base.BTreeMap
use wasmcloud_operator.Base.HashMap
use wasmcloud_operator.Base.HashMap.{string_key}
use wasmcloud_operator.Kube.World.{get_service, ask}
use wasmcloud_operator.Controller.Labels.{pod_labels}
use wasmcloud_operator.Services.Types.{Watcher, remove_service, remove_services, Operator, new}
use wasmcloud_operator.Services.Watch.{watch, stop_watch}
use wasmcloud_operator.Services.Watching.{watches, watches-watch, watches-stop_watch, fresh}
use wasmcloud_operator.Services.Events.{published, watch_event, reconcile_services}
use wasmcloud_operator.Services.EventLaws.{IsReconciled, reconcile_services-IsReconciled}
use wasmcloud_operator.Services.Reach.{
  initial, here, next, watching, HasRunning, Reach-running_iff, Reach-IsSingle,
}
use wasmcloud_operator.Services.Cluster.{
  put_endpoints, create_or_update_service, run_command, run_commands, service_selector,
}
use wasmcloud_operator.Services.Deletion.{IsOrdered, run_commands-IsOrdered}
use wasmcloud_operator.Services.Commands.{
  Made, put_call, create_or_update_service-Made, run_command-remove_service,
}
use wasmcloud_operator.Services.Selection.{Selects, service_selector-Selects_iff}
use wasmcloud_operator.Services.Addresses.{IsServed, put_endpoints-IsServed}
use wasmcloud_operator.Tests.Samples.{
  hello_service, running_pod, client, sample_config, hello, hello_app, hello_params, cluster,
}

-- One lattice is watched for one namespace.
abbrev watched : Operator
watched = (watch cluster client "apps" "default" (initial 1)).1

abbrev first_watcher : Watcher
first_watcher = fresh client "apps" "default" (new 1)

watch_done : (watch cluster client "apps" "default" (initial 1)).0 ≡ ok tt
unfolding watch HashMap.get new ask
watch_done = refl

watched_entry : HashMap.get "default" watched.services.watchers ≡ some first_watcher
unfolding watch HashMap.get new ask HashMap.insert
watched_entry = refl

stop_watch_forgets :
    watches (stop_watch "default" "apps" watched.services).1 "default" "apps" ≡ false
unfolding stop_watch watch watches new HashMap.get ask HashMap.insert HashSet.remove HashMap.remove
stop_watch_forgets = refl

Reach-running_iff_example :
    HasRunning watched.services "default"
    ↔ ((x : Watcher) × (HashMap.get "default" watched.services.watchers ≡ some x))
Reach-running_iff_example =
    Reach-running_iff 1 (next here (watching client "apps" "default" (initial 1))) "default"

Reach-IsSingle_example : All (λ t. length t.namespaces ≡ 1) watched.services.tasks
Reach-IsSingle_example = Reach-IsSingle 1 (next here (watching client "apps" "default" (initial 1)))

watches-watch_example : watches watched.services "default" "apps" ≡ (
    if "default" == "default" && "apps" == "apps"
    then true
    else watches (initial 1).services "default" "apps")
watches-watch_example =
    watches-watch cluster client "apps" "default" (initial 1) "default" "apps" watch_done

watches-stop_watch_example :
    watches (stop_watch "default" "apps" watched.services).1 "default" "apps" ≡ (
      if "default" == "default" && "apps" == "apps"
      then false
      else watches watched.services "default" "apps")
watches-stop_watch_example = watches-stop_watch "default" "apps" watched.services "default" "apps"

watch_event-published_example :
    IsUpserted cluster first_watcher hello watched.services
      (watch_event cluster first_watcher (published hello) watched.services)
    ⊎ IsPassedOver cluster hello watched.services
        (watch_event cluster first_watcher (published hello) watched.services)
watch_event-published_example = watch_event-published cluster first_watcher hello watched.services

reconcile_services-IsReconciled_example :
    ((reconcile_services cluster (hello_app ∷ []) "default" watched).0 ≡ ok tt)
    × IsReconciled cluster "default"
        (hello_app ∷ [])
        watched
        (reconcile_services cluster (hello_app ∷ []) "default" watched).1
reconcile_services-IsReconciled_example =
    reconcile_services-IsReconciled cluster (hello_app ∷ []) "default" watched first_watcher
      watched_entry

run_commands-IsOrdered_example :
    IsOrdered
      (run_commands cluster
        (remove_service "hello" ("apps" ∷ []) ∷ remove_services ("apps" ∷ []) ∷ [])
        []).1
run_commands-IsOrdered_example =
    run_commands-IsOrdered cluster
      (remove_service "hello" ("apps" ∷ []) ∷ remove_services ("apps" ∷ []) ∷ []) [] tt

created : (create_or_update_service cluster hello_params none []).0 ≡ ok tt
unfolding create_or_update_service ask
created = refl

create_or_update_service-Made_example :
    All
      (λ n.
        Made
          (put_call hello_params none n)
          (create_or_update_service cluster hello_params none []).1)
      hello_params.namespaces
create_or_update_service-Made_example =
    create_or_update_service-Made cluster hello_params none [] created

run_command-remove_service_example :
    ((run_command cluster (remove_service "hello" ("apps" ∷ [])) []).0 ≡ ok tt)
    × All
        (λ n.
          Made
            (get_service n "hello")
            (run_command cluster (remove_service "hello" ("apps" ∷ [])) []).1)
        ("apps" ∷ [])
run_command-remove_service_example = run_command-remove_service cluster "hello" ("apps" ∷ []) []

service_selector-Selects_iff_example :
    Selects (service_selector hello_params) (pod_labels sample_config)
    ↔ All
        (λ (kv : String × String).
          BTreeMap.get kv.0 (("zone", "a") ∷ ("gpu", "no") ∷ []) ≡ some kv.1)
        (("zone", "a") ∷ [])
unfolding BTreeMap.get
service_selector-Selects_iff_example =
    service_selector-Selects_iff hello_params sample_config (("zone", "a") ∷ [])
      (("zone", "a") ∷ ("gpu", "no") ∷ []) refl refl (refl, (refl, tt)) (refl, tt)

endpoints_put : (put_endpoints cluster hello_params "apps" hello_service []).0 ≡ ok tt
unfolding put_endpoints ask
endpoints_put = refl

put_endpoints-IsServed_example :
    IsServed cluster hello_params "apps"
      (λ selector. running_pod ∷ [])
      (λ calls selector. refl)
      (sample_config ∷ [])
      (put_endpoints cluster hello_params "apps" hello_service []).1
put_endpoints-IsServed_example =
    put_endpoints-IsServed cluster hello_params "apps" (λ selector. running_pod ∷ [])
      (λ calls selector. refl) hello_service (sample_config ∷ []) [] refl endpoints_put
