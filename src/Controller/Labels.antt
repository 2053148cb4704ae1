-- ===== src/Controller/Labels.antt =====
-- The label functions of src/controller.rs, and `format_service_selector` of src/services.rs.
use wasmcloud_operator.Base.{String, none, some, List, [], ◌∷◌, ◌<>◌}
use wasmcloud_operator.Base.BTreeMap
use wasmcloud_operator.Base.BTreeMap.{BTreeMap}
use wasmcloud_operator.HostConfig.{WasmCloudHostConfig}

abbrev pub cluster_config_finalizer : String
cluster_config_finalizer = "operator.k8s.wasmcloud.dev/wasmcloud-host-config"

abbrev pub service_finalizer : String
service_finalizer = "operator.k8s.wasmcloud.dev/service"

abbrev pub host_label_prefix : String
host_label_prefix = "host-label.k8s.wasmcloud.dev"

abbrev pub managed_by_requirement : String
managed_by_requirement = "app.kubernetes.io/managed-by=wadm-operator"

unfoldable pub common_labels : BTreeMap String
unfolding BTreeMap.extend
common_labels = BTreeMap.extend [] (
    ("app.kubernetes.io/name", "wasmcloud")
    ∷ ("app.kubernetes.io/managed-by", "wadm-operator")
    ∷ [])

abbrev pub common_labels_selector : String
common_labels_selector = managed_by_requirement

unfoldable pub format_service_selector : String → String
format_service_selector name = host_label_prefix <> "/" <> name

unfoldable pub selector_labels : WasmCloudHostConfig → BTreeMap String
unfolding BTreeMap.insert
selector_labels config =
    BTreeMap.insert "app.kubernetes.io/instance" config.name_any
      (BTreeMap.insert "app.kubernetes.io/name" "wasmcloud" [])

-- The loop over the host labels in `pod_labels`.
unfoldable pub add_host_labels : BTreeMap String → List (String × String) → BTreeMap String
unfolding BTreeMap.insert
add_host_labels labels [] = labels
add_host_labels labels ((k, v) ∷ more) =
    add_host_labels (BTreeMap.insert (host_label_prefix <> "/" <> k) v labels) more

unfoldable pub pod_labels : WasmCloudHostConfig → BTreeMap String
unfolding selector_labels common_labels add_host_labels BTreeMap.extend
pod_labels config =
    let labels = BTreeMap.extend (selector_labels config) common_labels in
    elim config.spec.host_labels [
      | none ↦ labels
      | some host_labels ↦ add_host_labels labels host_labels
    ]
