-- ===== src/Lib.antt =====
-- wadm-operator, the Kubernetes operator of wasmCloud: a model of its controller, of its service
-- watcher and of its HTTP server, with what holds of them.
--
-- The operator reconciles custom resources WasmCloudHostConfig. For each it applies a ConfigMap, a
-- ServiceAccount, a Role, a RoleBinding, a Deployment or DaemonSet and a Service, writes a status,
-- and has the service watcher watch the resource's lattice for its namespace. The service watcher
-- keeps one watcher with an event loop for each lattice; the loops and `reconcile_services` send
-- commands into a channel, whose receiving task creates and deletes the services of applications.
-- An HTTP server, an aggregated API of Kubernetes, lists, creates, patches and deletes the
-- applications of the lattices, which wadm keeps.
--
-- Files, by the part of the program:
--   Base              options, lists, texts, maps and sets by association lists; Base.Exec is code
--                     that changes a state and ends with a value, an error or a panic, and
--                     Base.Keeps has the rules for invariants of such code.
--   HostConfig        crates/types/src/v1alpha1/wasmcloud_host_config.rs, the custom resource.
--   Kube              the objects of k8s-openapi with the fields that are read or set, and the
--                     world outside: the API server, NATS and wadm answer each call by any
--                     function of the calls made before it.
--   Header            `Accept` of src/header.rs.
--   Manifest          `http_server_component` of src/services.rs, with the types of wadm that it
--                     reads.
--   Services.Types    the types of src/services.rs. The token of a watcher is a number; a loop
--                     runs while its token is not among those that `Drop for Watcher` cancelled.
--   Services.Watch    `watch`, `stop_watch`, `Watcher::new`.
--   Services.Events   `watch_events` for one message, `handle_event`, `reconcile_services`.
--   Services.Cluster  `create_or_update_service`, `delete_service`, `delete_services`, and the
--                     receiving task of `ServiceWatcher::new`.
--   Controller.Labels, Observability, Env, Certificates, Pod, Apply
--                     the labels, arguments, variables, volumes and objects of src/controller.rs.
--   Controller.Types  `Error` of src/lib.rs and src/docker_secret.rs.
--   Controller.Reconcile
--                     `reconcile`, `reconcile_crd`, `cleanup`, `error_policy`, with `list_apps`
--                     and `get_nats_client` of src/resources/application.rs.
--   Json              the JSON values that the handlers change, and the merge of RFC 7386.
--   Discovery         the types of src/discovery.rs.
--   Http              the responses: `internal_error` and `not_found_error` of src/router.rs, the
--                     responses of errors, and the bodies that are serialized.
--   Application.Types the applications, lists and tables of src/resources/application.rs, with
--                     src/table.rs.
--   Application.Listing
--                     `list_applications` and `list_all_applications`.
--   Application.Connection
--                     `get_lattice_connection`.
--   Application.Patch the change of a manifest in `patch_application`.
--   Application.Handlers
--                     the handlers of one application.
--   Router            the routes and the static answers of src/router.rs and src/openapi.rs.
--   Services.Ending   the end of an event loop whose stream fails or runs out, `ended`.
--   Startup           `install_crd` of src/main.rs, and src/config.rs.
--   Startup.Main      `main`, with `State` and the context of `run` of src/controller.rs.
--   OpenApi           the types of src/openapi.rs.
--   System            the process: reconciliations, requests, messages and commands, in any order.
-- The other files hold proofs: Manifest.Addresses, Served, LastOf, Parts, Agreement and Serving
-- (the address of a service), and Manifest.Labels; Services.Watching (who is watched), Validity,
-- Reach (sequences of steps), EventLaws, Publishing (a manifest that is published), Calls,
-- Deletion, Commands, Endpoints, Addresses, Selection and Frame (what calls leave alone);
-- Controller.Registry, Mounting, Volumes, Template, Frame, Atomic, Watched, Order (what is
-- applied), Panics and Cleanup; Header.RoundTrip; Services.Refinement (an abstract watcher) and
-- Services.Receiver; Controller.Replicas; Json.Laws and Json.Merge; Application.Listing.Rounds and
-- Once, Connection.First, Patch.Laws, Version and Change, Handlers.Described and Patching, Frame
-- (what handlers leave alone) and Tables; Router.Effects; Startup.Installed and Launched;
-- System.Invariant. Base.Post, Base.Runs and Base.Lands have the rules for what code leaves and for
-- code that does not panic. Tests has sample data and runs.
--
-- Every function of the program that is modelled is total: its loops run over finite lists, so no
-- fuel is needed. A number of the source is a natural number below the bound of its type; a cast
-- that can change a number is written out. A Rust map is an association list, so a theorem about a
-- loop over one holds for any order of its entries.
--
-- Not modelled: `configure_tracing` of src/main.rs, src/crdgen.rs, and `run` of src/controller.rs
-- but for its context, since it starts the runtime of kube; the schema functions of the custom
-- resource. The finalizer of kube and what the libraries answer to `main` are parameters, and what
-- utoipa derives from the types of src/openapi.rs is not modelled. The derived document and the
-- constant text of the OpenAPI v2 document are arguments of the routes, and the choice of a route
-- and the extractors belong to axum: a handler is given what they extract. The merge of containers,
-- the rendering of the template, the parsing of a DockerConfigJson, the reading of JSON, the merge
-- of a patch and the making of UUIDs belong to other crates and are parameters, as are the reading
-- of credentials and of socket addresses. The end of an event loop whose stream fails is a function
-- of its own and no step of `Step`.
pub mod Base
pub mod HostConfig
pub mod OpenApi
pub mod Header
pub mod Json
pub mod Kube
pub mod Manifest
pub mod Controller
pub mod Services
pub mod Discovery
pub mod Http
pub mod Application
pub mod Router
pub mod Startup
pub mod System
pub mod Tests
