-- ===== src/Application/Patch/Change.antt =====
-- The change that `patch_application` of src/resources/application.rs makes to a manifest, by what
-- can be read off the manifest, the patch and the result.
use wasmcloud_operator.Application.Patch.Laws.{
  mapped, lookup_in, changed, annotations, lookup_in-put, member-change_self, annotation_lem,
  annotation-stripped, annotations-change,
}
use wasmcloud_operator.Application.Patch.{
  annotation, change_annotations, restored, patched, last_applied, change_member, stripped,
  change_object, drop,
}
use wasmcloud_operator.Base.{
  String, ◌≡◌, refl, ap, ◌∙◌, ◌==◌, ◌&&◌, Option, none, some, if◌then◌else◌, arith, is_some,
}
use wasmcloud_operator.Json.{Value, Fields, member, put}
use wasmcloud_operator.Json.Laws.{member-change_member}

-- A member of the manifest other than its metadata.
unfoldable pub top_member : String → Value → Option Value
top_member k v = if "metadata" == k then none else member k v

metadata_of : String → Option Value → Option Value
metadata_of k none = none
metadata_of k (some m) = if "annotations" == k then none else member k m

-- A member of its metadata other than the annotations.
unfoldable pub metadata_member : String → Value → Option Value
unfolding metadata_of
metadata_member k v = metadata_of k (member "metadata" v)

-- `u` and `v` have the same members but for the annotations.
pub record IsAliked (u v : Value) : Type 0 where
  pub top : (k : String) → top_member k v ≡ top_member k u
  pub metadata : (k : String) → metadata_member k v ≡ metadata_member k u

-- The base is the current manifest without its version and its last applied configuration. The
-- result is the merge of the patch into the base, with the last applied configuration of the
-- current manifest, if it has one and the merge has annotations.
pub record IsChanged (merge : Value → Value → Value) (current patch base v : Value) : Type 0 where
  pub base_kept : IsAliked current base
  pub base_annotations :
      (k : String)
      → annotation k base ≡ (
          if "version" == k then none else if last_applied == k then none else annotation k current)
  pub kept : IsAliked (merge base patch) v
  pub annotations_changed :
      (k : String)
      → annotation k v ≡ (
          if last_applied == k
            && is_some (annotation last_applied current)
            && is_some (annotations (merge base patch))
          then annotation last_applied current
          else annotation k (merge base patch))

below :
    (f : Fields → Fields) (k : String) (o : Option Value)
    → metadata_of k (mapped (change_member "annotations" (change_object f)) o) ≡ metadata_of k o
unfolding metadata_of mapped
below f k none = refl
below f k (some m) = ground (arith, member-change_member "annotations" k (change_object f) m)

change_annotations-IsAliked :
    (f : Fields → Fields) (v : Value) → IsAliked v (change_annotations f v)
unfolding change_annotations top_member metadata_member mapped
change_annotations-IsAliked f v = record {
  top = λ k.
      ground (
        arith,
        member-change_member "metadata" k (change_member "annotations" (change_object f)) v,
      );
  metadata = λ k.
      ap (metadata_of k)
        (member-change_self "metadata" (change_member "annotations" (change_object f)) v refl)
      ∙ below f k (member "metadata" v);
}

IsAliked-trans : (u v t : Value) → IsAliked u v → IsAliked v t → IsAliked u t
IsAliked-trans u v t f g = record {
  top = λ k. g.top k ∙ f.top k;
  metadata = λ k. g.metadata k ∙ f.metadata k;
}

restored-IsAliked : (last : Option Value) (m : Value) → IsAliked m (restored last m)
unfolding restored
restored-IsAliked none m = record { top = λ k. refl; metadata = λ k. refl }
restored-IsAliked (some last) m = change_annotations-IsAliked (put last_applied last) m

annotation-put :
    (last : Value) (o : Option Fields) (k : String)
    → lookup_in k (changed (put last_applied last) o)
      ≡ (if last_applied == k && is_some (some last) && is_some o then some last else lookup_in k o)
unfolding lookup_in changed
annotation-put last none k = ground arith
annotation-put last (some fs) k = ground (arith, lookup_in-put last_applied k last (some fs))

annotation-restored_lem :
    (last : Option Value) (m : Value) (k : String)
    → annotation k (restored last m) ≡ (
        if last_applied == k && is_some last && is_some (annotations m)
        then last
        else annotation k m)
unfolding restored
annotation-restored_lem none m k = ground arith
annotation-restored_lem (some last) m k =
    rw (annotation_lem k (change_annotations (put last_applied last) m), annotation_lem k m)
      (ap (lookup_in k) (annotations-change (put last_applied last) m)
        ∙ annotation-put last (annotations m) k)

pub patched-IsChanged :
    (merge : Value → Value → Value) (current patch : Value)
    → IsChanged merge current patch (stripped current) (patched merge current patch)
unfolding patched stripped
patched-IsChanged merge current patch = record {
  base_kept = IsAliked-trans _ _ _ (change_annotations-IsAliked (drop last_applied) current) (
      change_annotations-IsAliked (drop "version")
        (change_annotations (drop last_applied) current));
  base_annotations = λ k. annotation-stripped k current;
  kept = restored-IsAliked (annotation last_applied current) (merge (stripped current) patch);
  annotations_changed = λ k.
      annotation-restored_lem (annotation last_applied current) (merge (stripped current) patch) k;
}
