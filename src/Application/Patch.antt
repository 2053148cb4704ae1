-- ===== src/Application/Patch.antt =====
-- The change that `patch_application` of src/resources/application.rs makes to a manifest.
pub mod Laws
pub mod Version
pub mod Change
use wasmcloud_operator.Base.{String, Option, none, some, List, [], ◌∷◌}
use wasmcloud_operator.Json.{
  Value, null, bool, number, text, array, object, Fields, lookup, put, drop, member, change_member,
}

-- KUBECTL_LAST_APPLIED_CONFIG_ANNOTATION
abbrev pub last_applied : String
last_applied = "kubectl.kubernetes.io/last-applied-configuration"

-- `as_object_mut` and a change of the map.
unfoldable pub change_object : (Fields → Fields) → Value → Value
change_object f (object fs) = object (f fs)
change_object f v = v

-- The change of `current["metadata"]["annotations"]`, where there is such an object.
unfoldable pub change_annotations : (Fields → Fields) → Value → Value
unfolding change_member change_object
change_annotations f = change_member "metadata" (change_member "annotations" (change_object f))

unfoldable pub annotation : String → Value → Option Value
unfolding member
annotation k v = elim (member "metadata" v) [
  | none ↦ none
  | some metadata ↦ elim (member "annotations" metadata) [
    | none ↦ none
    | some annotations ↦ member k annotations
  ]
]

-- What `json_patch::merge` is given to change.
unfoldable pub stripped : Value → Value
unfolding change_annotations drop
stripped current =
    change_annotations (drop "version") (change_annotations (drop last_applied) current)

-- The merged manifest with the annotation that was taken away before.
unfoldable pub restored : Option Value → Value → Value
unfolding change_annotations put
restored none merged = merged
restored (some last) merged = change_annotations (put last_applied last) merged

unfoldable pub patched : (Value → Value → Value) → Value → Value → Value
unfolding annotation stripped restored
patched merge current patch =
    restored (annotation last_applied current) (merge (stripped current) patch)
