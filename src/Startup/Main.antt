-- ===== src/Startup/Main.antt =====
-- `main` of src/main.rs: from the arguments of the process to the end of the controller.
use wasmcloud_operator.Base.{
  String, Bool, true, Option, some, List, ◌||◌, ◌==◌, ◌<>◌, any, if◌then◌else◌, [],
}
use wasmcloud_operator.Base.Outcome.{ok}
use wasmcloud_operator.Base.Exec.{Exec, pure, lift, ◌>>=◌, ◌>>◌, map_err}
use wasmcloud_operator.Kube.World.{Reply, of_reply}
use wasmcloud_operator.Base.HashMap.{HashMap}
use wasmcloud_operator.Services.Types.{NameNamespace, Operator, new}
use wasmcloud_operator.Startup.{OperatorConfig, Installer, InstallCall, Install, install_crd}

-- `State` of src/controller.rs, which the handlers and the controller share.
pub record State : Type 0 where
  pub nats_creds : HashMap NameNamespace String
  pub config : OperatorConfig

-- `State::new`
abbrev pub new_state : OperatorConfig → State
new_state config = record { nats_creds = []; config = config }

-- The `Context` of `controller::run`: a new service watcher, and the credentials of the state.
unfoldable pub context : State → Operator
unfolding new
context state = record {
  calls = [];
  services = new state.config.stream_replicas;
  nats_creds = state.nats_creds;
}

-- What the libraries answer: the set-up of tracing, the reading and the parsing of the variables
-- with the prefix WADM_OPERATOR, the client of kube, the certificate for the server, and the end
-- of the runtime of kube in `controller::run`.
pub record Process : Type 0 where
  pub args : List String
  pub tracing : Reply (Unit {0})
  pub built : Reply (Unit {0})
  pub parsed : Reply OperatorConfig
  pub client : Reply (Unit {0})
  pub certificate : Reply (Unit {0})
  pub controller : Operator → Reply (Unit {0})

-- The calls of `install_crd`, whether the server has been spawned, the state that the controller
-- was run in, and whether the server has been told to shut down.
pub record Machine (Crd : Type 0) : Type 0 where
  pub calls : List (InstallCall Crd)
  pub serving : Bool
  pub controlled : Option Operator
  pub shut_down : Bool

-- How `main` ends when it does not fail.
pub data Ending : Type 0 where
  printed_version controller_finished : Ending

unfoldable pub is_version_flag : String → Bool
is_version_flag arg = arg == "-V" || arg == "--version"

module _ {Crd : Type 0} (p : Process) (i : Installer Crd) (crd : Crd) where
  abbrev pub Start : Type 0 → Type 0
  Start A = Exec String (Machine Crd) A

  abbrev pub installing : {A : Type 0} → Install i A → Start A
  installing m s = let (r, calls) = m s.calls in (r, record s { calls = calls })

  -- Everything before the client, with the configuration of the operator.
  unfoldable pub configured : Start OperatorConfig
  configured = do
    lift (of_reply p.tracing)
    map_err (λ e. "Failed to build config: " <> e) (lift (of_reply p.built))
    map_err (λ e. "Failed to parse config: " <> e) (lift (of_reply p.parsed))

  -- `tokio::spawn` of the server.
  unfoldable pub spawn_server : Start (Unit {0})
  spawn_server s = (ok tt, record s { serving = true })

  -- `ctl.await`: the future of `controller::run` runs no earlier.
  unfoldable pub run_controller : State → Start (Unit {0})
  unfolding context
  run_controller state s =
      (of_reply (p.controller (context state)), record s { controlled = some (context state) })

  unfoldable pub shut_down_server : Start (Unit {0})
  shut_down_server s = (ok tt, record s { shut_down = true })

  -- Everything after `install_crd`.
  unfoldable pub launch : State → Start Ending
  unfolding spawn_server run_controller shut_down_server
  launch state = do
    lift (of_reply p.certificate)
    spawn_server
    run_controller state
    shut_down_server
    pure controller_finished

  unfoldable pub main : Start Ending
  unfolding is_version_flag configured install_crd launch
  main = if any is_version_flag p.args then pure printed_version else (do
    config ← configured
    lift (of_reply p.client)
    installing (install_crd i crd)
    launch (new_state config))
