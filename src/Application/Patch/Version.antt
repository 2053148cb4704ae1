-- ===== src/Application/Patch/Version.antt =====
-- Which version `patch_application` of src/resources/application.rs gives to a manifest.
use wasmcloud_operator.Base.{
  String, ◌≡◌, refl, ◌∙◌, sym, Option, none, some, List, [], ◌∷◌, inl, inr, Option-cases,
}
use wasmcloud_operator.Json.{Value, null, bool, number, text, array, object, lookup, member}
use wasmcloud_operator.Json.Merge.{
  IsSilent, merge, dig, fields_or_end, dig-merge_silent, dig-merge_text,
}
use wasmcloud_operator.Application.Patch.{annotation, stripped, patched, last_applied}
use wasmcloud_operator.Application.Patch.Laws.{annotation-stripped, annotation-restored}

abbrev pub annotation_path : String → List String
annotation_path k = "metadata" ∷ "annotations" ∷ k ∷ []

-- What the code relies on of `json_patch::merge`, a merge patch of RFC 7386: the texts of the patch
-- are taken over, and what the patch is silent on is kept.
pub record IsMergePatch (f : Value → Value → Value) : Type 0 where
  pub takes :
      (t p : Value) (k s : String)
      → annotation k p ≡ some (text s)
      → annotation k (f t p) ≡ some (text s)
  pub keeps :
      (t p : Value) (k : String)
      → IsSilent (annotation_path k) p
      → annotation k (f t p) ≡ annotation k t

-- The patch sets the version to a text, or is silent on it.
abbrev pub IsVersion : Option String → Value → Type 0
IsVersion none patch = IsSilent (annotation_path "version") patch
IsVersion (some version) patch = annotation "version" patch ≡ some (text version)

abbrev pub version_value : Option String → Option Value
version_value none = none
version_value (some version) = some (text version)

-- Suppose that `merge` merges as RFC 7386 says, and that the patch either sets the version to a text
-- or is silent on it. Then the patched manifest has the version of the patch, or none: never the
-- version of the manifest that is patched.
pub version-patched :
    (f : Value → Value → Value) (current patch : Value) (version : Option String)
    → IsMergePatch f
    → IsVersion version patch
    → annotation "version" (patched f current patch) ≡ version_value version
unfolding patched
version-patched f current patch none m h =
    annotation-restored (annotation last_applied current) (f (stripped current) patch) "version"
      refl
    ∙ m.keeps (stripped current) patch "version" h
    ∙ annotation-stripped "version" current
version-patched f current patch (some version) m h =
    annotation-restored (annotation last_applied current) (f (stripped current) patch) "version"
      refl
    ∙ m.takes (stripped current) patch "version" version h

member-fields : (k : String) (v : Value) → member k v ≡ lookup k (fields_or_end v)
unfolding member lookup
member-fields k null = refl
member-fields k (bool b) = refl
member-fields k (number n) = refl
member-fields k (text s) = refl
member-fields k (array xs) = refl
member-fields k (object fs) = refl

annotation-dig :
    (k : String) (v : Value)
    → annotation k v ≡ dig "metadata" ("annotations" ∷ k ∷ []) (fields_or_end v)
unfolding annotation dig lookup
annotation-dig k v = elim (Option-cases (member "metadata" v)) [
  | inl e ↦ rw (e, ← member-fields "metadata" v, e, annotation)
  | inr (m, e) ↦ elim (Option-cases (member "annotations" m)) [
    | inl g ↦
        rw (e, g, annotation, ← member-fields "metadata" v, e, ← member-fields "annotations" m, g)
    | inr (a, g) ↦
        rw (e, g, annotation, ← member-fields "metadata" v, e, ← member-fields "annotations" m, g)
          (member-fields k a)
  ]
]

-- The merge of RFC 7386 is such a merge.
pub merge-IsMergePatch : IsMergePatch merge
merge-IsMergePatch = record {
  takes = λ t p k s h.
      annotation-dig k (merge t p)
      ∙ dig-merge_text "metadata" ("annotations" ∷ k ∷ []) t p s (sym (annotation-dig k p) ∙ h);
  keeps = λ t p k h.
      annotation-dig k (merge t p)
      ∙ dig-merge_silent "metadata" ("annotations" ∷ k ∷ []) t p h
      ∙ sym (annotation-dig k t);
}
