-- ===== src/Tests/ApplicationRuns.antt =====
-- The handlers of src/resources/application.rs and the routes on samples.
use wasmcloud_operator.System.{moved, started, reconciled}
use wasmcloud_operator.System.Invariant.{Moves-running_iff}
use wasmcloud_operator.Startup.Main.{context, new_state}
use wasmcloud_operator.Controller.Reconcile.{Finalizer, reconcile_event}
use wasmcloud_operator.Services.Validity.{IsValid}
use wasmcloud_operator.Services.Reach.{HasRunning}
use wasmcloud_operator.Services.Types.{Watcher, Operator}
use wasmcloud_operator.Base.HashMap
use wasmcloud_operator.Base.HashMap.{string_key}
use wasmcloud_operator.Base.{
  ◌≡◌, ◌≤◌, ◌+◌, refl, Bool, true, ◌==◌, none, some, [], ◌∷◌, All, any, if◌then◌else◌, String, ◌↔◌,
  false,
}
use wasmcloud_operator.Base.Outcome.{ok}
use wasmcloud_operator.Base.Post.{Post}
use wasmcloud_operator.HostConfig.{WasmCloudHostConfig}
use wasmcloud_operator.Json.{Value, text, object, end, field, lookup}
use wasmcloud_operator.Json.Merge.{merge}
use wasmcloud_operator.Kube.World.{reply, deployed, ask, ask_wadm}
use wasmcloud_operator.Services.Types.{Operator}
use wasmcloud_operator.Services.Reach.{initial}
use wasmcloud_operator.Header.{not_specified}
use wasmcloud_operator.Http.{Response, success, application}
use wasmcloud_operator.Application.Listing.{Encoder, list_applications, list_all_applications}
use wasmcloud_operator.Application.Listing.Rounds.{requests, one}
use wasmcloud_operator.Application.Listing.Once.{
  list_applications-requests, list_all_applications-requests,
}
use wasmcloud_operator.Application.Connection.{get_lattice_connection}
use wasmcloud_operator.Application.Connection.First.{
  first_reached, get_lattice_connection-first_reached,
}
use wasmcloud_operator.Application.Handlers.{Serde, described, patch_application}
use wasmcloud_operator.Application.Handlers.Patching.{IsPatched, patch_application-IsPatched}
use wasmcloud_operator.Application.Handlers.Described.{IsDescribed, described-IsDescribed}
use wasmcloud_operator.Application.Patch.{last_applied, annotation, stripped, patched}
use wasmcloud_operator.Application.Patch.Laws.{annotations, annotation-stripped, annotation-patched}
use wasmcloud_operator.Application.Patch.Version.{
  version_value, merge-IsMergePatch, version-patched,
}
use wasmcloud_operator.Application.Types.{new_application, table_of_summaries, table_of_manifests}
use wasmcloud_operator.Application.Tables.{IsRectangular, tables-IsRectangular}
use wasmcloud_operator.Router.{setup, fallback}
use wasmcloud_operator.Router.Effects.{Reads, Apart, setup-Reads, setup-Apart}
use wasmcloud_operator.Tests.Samples.{sample_config, sample_crates, cluster, hello, hello_app}

abbrev sample_encoder : Encoder
sample_encoder = record { new_v5 = λ name. name; partials_text = λ partials. "[]" }

-- The JSON of a manifest with a version, and with what was applied last.
abbrev manifest_value : Value
manifest_value = object (
    field "metadata"
      (object (
        field "annotations"
          (object (
            field "version" (text "1")
              (field "kubectl.kubernetes.io/last-applied-configuration" (text "old") end)))
          end))
      end)

abbrev patch_value : Value
patch_value = object (
    field "metadata" (object (field "annotations" (object (field "version" (text "2") end)) end))
      end)

abbrev sample_serde : Serde
sample_serde = record {
  manifest_of_body = λ body. reply hello;
  value_of_body = λ body. reply patch_value;
  to_value = λ m. manifest_value;
  from_value = λ v. reply hello;
  merge = merge;
  version = λ m. "1";
  new_v5 = λ name. name;
}

setup-Reads_example :
    All Reads (setup cluster sample_crates sample_encoder sample_serde patch_value "{}")
setup-Reads_example = setup-Reads cluster sample_crates sample_encoder sample_serde patch_value "{}"

setup-Apart_example :
    All Apart (setup cluster sample_crates sample_encoder sample_serde patch_value "{}")
setup-Apart_example = setup-Apart cluster sample_crates sample_encoder sample_serde patch_value "{}"

abbrev of_default : WasmCloudHostConfig → Bool
of_default c = c.spec.lattice == "default"

list_applications-requests_example :
    Post
      (λ (r : Response) (op : Operator).
        requests "default" op.calls ≡ 0 + one (any of_default (sample_config ∷ sample_config ∷ [])))
      (λ op. requests "default" op.calls ≤ 0 + 1)
      (list_applications
        (record cluster { host_configs = λ h n. reply (sample_config ∷ sample_config ∷ []) })
        sample_crates
        sample_encoder
        not_specified
        "apps"
        (initial 1))
list_applications-requests_example =
    list_applications-requests
      (record cluster { host_configs = λ h n. reply (sample_config ∷ sample_config ∷ []) })
      sample_crates "default" sample_encoder not_specified "apps" (initial 1)
      (sample_config ∷ sample_config ∷ []) refl

list_all_applications-requests_example :
    Post
      (λ (r : Response) (op : Operator).
        requests "default" op.calls ≡ 0 + one (any of_default (sample_config ∷ [])))
      (λ op. requests "default" op.calls ≤ 0 + 1)
      (list_all_applications cluster sample_crates sample_encoder not_specified (initial 1))
list_all_applications-requests_example =
    list_all_applications-requests cluster sample_crates "default" sample_encoder not_specified
      (initial 1) (sample_config ∷ []) refl

get_lattice_connection-first_reached_example :
    (get_lattice_connection cluster sample_crates "apps" (sample_config ∷ []) (initial 1)).0
    ≡ first_reached (λ address creds. true) "apps" [] (sample_config ∷ [])
get_lattice_connection-first_reached_example =
    get_lattice_connection-first_reached cluster sample_crates (λ address creds. true)
      (record { accepted = λ creds. refl; steady = λ h address creds. refl }) "apps"
      (sample_config ∷ []) (initial 1)

described-IsDescribed_example :
    (v : Value) × (described sample_serde "apps" "hello" hello
        (record { version = "2"; status_type = deployed })
      ≡ some v)
    × IsDescribed sample_serde "apps" "hello" hello
        (record { version = "2"; status_type = deployed })
        (field "metadata"
          (object (
            field "annotations"
              (object (
                field "version"
                  (text "1")
                  (field "kubectl.kubernetes.io/last-applied-configuration" (text "old") end)))
              end))
          end)
        v
unfolding lookup
described-IsDescribed_example =
    described-IsDescribed sample_serde "apps" "hello" hello
      (record { version = "2"; status_type = deployed })
      (field "metadata"
        (object (
          field "annotations"
            (object (
              field "version" (text "1")
                (field "kubectl.kubernetes.io/last-applied-configuration" (text "old") end)))
            end))
        end)
      (field "annotations"
        (object (
          field "version" (text "1")
            (field "kubectl.kubernetes.io/last-applied-configuration" (text "old") end)))
        end)
      refl refl

version-patched_example :
    annotation "version" (patched merge manifest_value patch_value) ≡ version_value (some "2")
unfolding annotation
version-patched_example =
    version-patched merge manifest_value patch_value (some "2") merge-IsMergePatch refl

annotation-stripped_example : annotation "version" (stripped manifest_value) ≡ (
    if "version" == "version"
    then none
    else if last_applied == "version"
    then none
    else annotation "version" manifest_value)
annotation-stripped_example = annotation-stripped "version" manifest_value

annotation-patched_example : annotation last_applied (patched merge manifest_value patch_value) ≡ (
    if last_applied == last_applied
    then some (text "old")
    else annotation last_applied (merge (stripped manifest_value) patch_value))
unfolding annotation merge stripped annotations
annotation-patched_example =
    annotation-patched merge manifest_value patch_value (text "old") last_applied refl refl

tables-IsRectangular_example :
    IsRectangular (table_of_summaries (hello_app ∷ []))
    × IsRectangular (
        table_of_manifests (
          record { manifest = hello; status = record { version = "2"; status_type = deployed } }
          ∷ []))
tables-IsRectangular_example =
    tables-IsRectangular (hello_app ∷ [])
      (record { manifest = hello; status = record { version = "2"; status_type = deployed } } ∷ [])

patch_done :
    (patch_application cluster sample_crates sample_serde "apps" "hello" "{}" (initial 1)).0
    ≡ ok (success (application (new_application "hello")))
unfolding patch_application ask ask_wadm
patch_done = refl

patch_application-IsPatched_example :
    IsPatched cluster sample_serde "hello" "{}"
      (patch_application cluster sample_crates sample_serde "apps" "hello" "{}" (initial 1)).1.calls
patch_application-IsPatched_example =
    patch_application-IsPatched cluster sample_crates sample_serde "apps" "hello" "{}" (initial 1)
      (success (application (new_application "hello"))) patch_done

-- The operator as it is started, and after the reconciliation of a configuration.
abbrev at_start : Operator
at_start = context (new_state (record { stream_replicas = 1 }))

abbrev after_one : Operator
after_one = (reconcile_event cluster sample_crates (Finalizer.apply sample_config) at_start).1

Moves-running_iff_example :
    IsValid after_one.services
    × ((l : String)
        → HasRunning after_one.services l
          ↔ ((x : Watcher) × (HashMap.get l after_one.services.watchers ≡ some x)))
Moves-running_iff_example =
    Moves-running_iff {e = sample_encoder} {s = sample_serde} {document = patch_value} {v2 = "{}"}
      (new_state (record { stream_replicas = 1 }))
      (moved started (reconciled (Finalizer.apply sample_config) at_start))

-- A header that is not visible ASCII is only read for the log.
fallback-unreadable :
    (fallback false (("x", none) ∷ []) "/no" ≡ fallback false [] "/no")
    × (fallback true (("x", none) ∷ []) "/no" ≡ none)
unfolding fallback
fallback-unreadable = (refl, refl)
