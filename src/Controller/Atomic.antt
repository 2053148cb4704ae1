-- ===== src/Controller/Atomic.antt =====
-- The parts of `reconcile_crd` of src/controller.rs before its end, which leave the service watcher
-- alone.
use wasmcloud_operator.Base.{String, ◌≡◌, Bool, Option}
use wasmcloud_operator.Base.Exec.{Exec}
use wasmcloud_operator.Base.Keeps.{Keeps}
use wasmcloud_operator.Base.HashMap.{string_key}
use wasmcloud_operator.HostConfig.{WasmCloudHostConfig}
use wasmcloud_operator.Kube.World.{World}
use wasmcloud_operator.Manifest.Types.{Manifest}
use wasmcloud_operator.Services.Types.{ServiceWatcher, Operator, NameNamespace}
use wasmcloud_operator.Controller.Types.{Crates}
use wasmcloud_operator.Controller.Frame.Applying.{configure-Keeps, update_status-Keeps}
use wasmcloud_operator.Controller.Frame.{load_creds-Keeps, get_nats_client-Keeps}
use wasmcloud_operator.Controller.Reconcile.{load_creds, configure, update_status, get_nats_client}

-- Code that leaves the service watcher as it was, whatever becomes of it.
abbrev pub At : ServiceWatcher → Operator → Type 0
At s op = op.services ≡ s

abbrev pub Untouched : {E A : Type 0} → Exec E Operator A → Type 0
Untouched m = (s : ServiceWatcher) → Keeps (At s) m

module _ (w : World Manifest) (crates : Crates) where
  pub load_creds-Untouched :
      (cfg : WasmCloudHostConfig) (ns : String) → Untouched (load_creds w crates cfg ns)
  load_creds-Untouched cfg ns s =
      load_creds-Keeps (At s) (λ op c r h. h) (λ op creds h. h) w crates cfg ns

  pub configure-Untouched :
      (cfg : WasmCloudHostConfig) (b : Bool) → Untouched (configure w crates cfg b)
  configure-Untouched cfg b s = configure-Keeps (At s) (λ op c r h. h) w crates cfg b

  pub update_status-Untouched :
      (cfg : WasmCloudHostConfig) (ns name : String) (creds : Option String)
      → Untouched (update_status w crates cfg ns name creds)
  update_status-Untouched cfg ns name creds s =
      update_status-Keeps (At s) (λ op c r h. h) w crates cfg ns name creds

  pub get_nats_client-Untouched :
      (address : String) (key : NameNamespace) → Untouched (get_nats_client w crates address key)
  get_nats_client-Untouched address key s =
      get_nats_client-Keeps (At s) (λ op c r h. h) w crates address key
