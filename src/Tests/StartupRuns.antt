-- ===== src/Tests/StartupRuns.antt =====
-- `main` of src/main.rs on a cluster that has an older definition and a registration.
use wasmcloud_operator.Base.{String, ◌≡◌, refl, some, none, [], not, ◌==◌, ◌∷◌, true, false, any}
use wasmcloud_operator.Base.Outcome.{ok}
use wasmcloud_operator.Kube.World.{reply}
use wasmcloud_operator.Startup.{Installer}
use wasmcloud_operator.Startup.Main.{Process, Machine, main, controller_finished, is_version_flag}
use wasmcloud_operator.Startup.Launched.{IsLaunched, main-IsLaunched}

-- A definition is its text.
abbrev old_cluster : Installer String
old_cluster = record {
  crd_name = λ crd. some "wasmcloudhostconfigs.k8s.wasmcloud.dev";
  differs = λ old crd. not (old == crd);
  pod_namespace = none;
  found = λ h name. reply "v1alpha0";
  written = λ h call. reply tt;
  registered = λ h name. reply (some "7");
}

abbrev process : Process
process = record {
  args = "operator" ∷ [];
  tracing = reply tt;
  built = reply tt;
  parsed = reply (record { stream_replicas = 1 });
  client = reply tt;
  certificate = reply tt;
  controller = λ op. reply tt;
}

abbrev idle : Machine String
idle = record { calls = []; serving = false; controlled = none; shut_down = false }

main_done : (main process old_cluster "v1alpha1" idle).0 ≡ ok controller_finished
unfolding main
main_done = refl

server_spawned : (main process old_cluster "v1alpha1" idle).1.serving ≡ true
unfolding main
server_spawned = refl

main-IsLaunched_example :
    IsLaunched process old_cluster "v1alpha1" (main process old_cluster "v1alpha1" idle).1
    × (any is_version_flag process.args ≡ true
        → (main process old_cluster "v1alpha1" idle).1 ≡ idle)
main-IsLaunched_example = main-IsLaunched process old_cluster "v1alpha1" idle refl refl
