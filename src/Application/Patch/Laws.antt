-- ===== src/Application/Patch/Laws.antt =====
-- What a patch does to the annotations of a manifest.
use wasmcloud_operator.Base.{
  String, ◌≡◌, refl, ap, ◌∙◌, true, false, ◌==◌, Option, none, some, if◌then◌else◌, arith, inl, inr,
  Option-cases, is_some,
}
use wasmcloud_operator.Json.{
  Value, null, bool, number, text, array, object, Fields, lookup, put, drop, member, change_member,
}
use wasmcloud_operator.Json.Laws.{lookup-put, lookup-drop, member-change_member}
use wasmcloud_operator.Application.Patch.{
  last_applied, change_object, change_annotations, annotation, stripped, restored, patched,
}

-- The annotations of a manifest, if they are an object.
abbrev pub fields_of : Value → Option Fields
fields_of (object fs) = some fs
fields_of _ = none

member_of : String → Option Value → Option Value
member_of k none = none
member_of k (some v) = member k v

fields_in : Option Value → Option Fields
fields_in none = none
fields_in (some v) = fields_of v

unfoldable pub annotations : Value → Option Fields
unfolding member_of fields_in
annotations v = fields_in (member_of "annotations" (member "metadata" v))

unfoldable pub mapped : (Value → Value) → Option Value → Option Value
mapped f none = none
mapped f (some v) = some (f v)

pub member-change_self :
    (k : String) (f : Value → Value) (v : Value)
    → (k == k) ≡ true
    → member k (change_member k f v) ≡ mapped f (member k v)
unfolding mapped
member-change_self k f v h = elim (Option-cases (member k v)) [
  | inl e ↦ rw (member-change_member k k f v, h, e)
  | inr (u, e) ↦ rw (member-change_member k k f v, h, e)
]

unfoldable pub lookup_in : String → Option Fields → Option Value
unfolding lookup
lookup_in k none = none
lookup_in k (some fs) = lookup k fs

member-fields_of : (k : String) (v : Value) → member k v ≡ lookup_in k (fields_of v)
unfolding member lookup_in
member-fields_of k null = refl
member-fields_of k (bool b) = refl
member-fields_of k (number n) = refl
member-fields_of k (text s) = refl
member-fields_of k (array xs) = refl
member-fields_of k (object fs) = refl

unfoldable pub changed : (Fields → Fields) → Option Fields → Option Fields
changed f none = none
changed f (some fs) = some (f fs)

fields_of-change_object :
    (f : Fields → Fields) (v : Value) → fields_of (change_object f v) ≡ changed f (fields_of v)
unfolding change_object changed
fields_of-change_object f null = refl
fields_of-change_object f (bool b) = refl
fields_of-change_object f (number n) = refl
fields_of-change_object f (text s) = refl
fields_of-change_object f (array xs) = refl
fields_of-change_object f (object fs) = refl

-- An annotation is a member of the annotations.
pub annotation_lem : (k : String) (v : Value) → annotation k v ≡ lookup_in k (annotations v)
unfolding annotation annotations lookup_in member_of fields_in
annotation_lem k v = elim (Option-cases (member "metadata" v)) [
  | inl e ↦ rw (e, annotation, annotations)
  | inr (m, e) ↦ elim (Option-cases (member "annotations" m)) [
    | inl f ↦ rw (e, f, annotation, annotations)
    | inr (a, f) ↦ rw (e, f, annotation, annotations) (member-fields_of k a)
  ]
]

innermost :
    (f : Fields → Fields) (a : Option Value)
    → fields_in (mapped (change_object f) a) ≡ changed f (fields_in a)
unfolding fields_in mapped changed
innermost f none = refl
innermost f (some a) = fields_of-change_object f a

inner :
    (f : Fields → Fields) (m : Option Value)
    → fields_in (member_of "annotations" (mapped (change_member "annotations" (change_object f)) m))
      ≡ changed f (fields_in (member_of "annotations" m))
unfolding member_of mapped
inner f none = innermost f none
inner f (some m) =
    ap fields_in (member-change_self "annotations" (change_object f) m refl)
    ∙ innermost f (member "annotations" m)

-- A change of the annotations is one of them and of nothing else there.
pub annotations-change :
    (f : Fields → Fields) (v : Value)
    → annotations (change_annotations f v) ≡ changed f (annotations v)
unfolding annotations change_annotations
annotations-change f v =
    ap (λ m. fields_in (member_of "annotations" m))
      (member-change_self "metadata" (change_member "annotations" (change_object f)) v refl)
    ∙ inner f (member "metadata" v)

pub lookup_in-put :
    (k j : String) (u : Value) (o : Option Fields)
    → is_some o ≡ true
    → lookup_in j (changed (put k u) o) ≡ (if k == j then some u else lookup_in j o)
unfolding lookup_in changed
lookup_in-put k j u none h = cc
lookup_in-put k j u (some fs) h = lookup-put k j u fs

lookup_in-drop :
    (k j : String) (o : Option Fields)
    → lookup_in j (changed (drop k) o) ≡ (if k == j then none else lookup_in j o)
unfolding lookup_in changed
lookup_in-drop k j none = ground arith
lookup_in-drop k j (some fs) = lookup-drop k j fs

-- The merge is given the manifest without its version and its last applied configuration, and with
-- all its other annotations.
pub annotation-stripped :
    (k : String) (v : Value)
    → annotation k (stripped v)
      ≡ (if "version" == k then none else if last_applied == k then none else annotation k v)
unfolding stripped
annotation-stripped k v =
    rw (annotation_lem k (stripped v), annotation_lem k v)
      (ap (lookup_in k)
          (annotations-change (drop "version") (change_annotations (drop last_applied) v))
        ∙ lookup_in-drop "version" k (annotations (change_annotations (drop last_applied) v))
        ∙ ap (λ o. if "version" == k then none else lookup_in k o)
            (annotations-change (drop last_applied) v)
        ∙ ap (λ (o : Option Value). if "version" == k then none else o)
            (lookup_in-drop last_applied k (annotations v)))

-- Suppose that the manifest has a last applied configuration, and that the merged one has
-- annotations. Then the patched manifest has the former one again, whatever the patch says, and its
-- other annotations are those of the merged manifest.
pub annotation-patched :
    (merge : Value → Value → Value) (current patch last : Value) (k : String)
    → annotation last_applied current ≡ some last
    → is_some (annotations (merge (stripped current) patch)) ≡ true
    → annotation k (patched merge current patch)
      ≡ (if last_applied == k then some last else annotation k (merge (stripped current) patch))
unfolding patched restored
annotation-patched merge current patch last k e h =
    let m = merge (stripped current) patch in
    rw (e, patched)
      (rw (annotation_lem k (change_annotations (put last_applied last) m), annotation_lem k m)
        (ap (lookup_in k) (annotations-change (put last_applied last) m)
          ∙ lookup_in-put last_applied k last (annotations m) h))

-- Restoring the last applied configuration changes no other annotation.
pub annotation-restored :
    (last : Option Value) (m : Value) (k : String)
    → (last_applied == k) ≡ false
    → annotation k (restored last m) ≡ annotation k m
unfolding restored changed
annotation-restored none m k h = refl
annotation-restored (some last) m k h = elim (Option-cases (annotations m)) [
  | inl e ↦
      rw (annotation_lem k (change_annotations (put last_applied last) m), annotation_lem k m)
        (rw (annotations-change (put last_applied last) m, e) (refl))
  | inr (fs, e) ↦
      rw (annotation_lem k (change_annotations (put last_applied last) m), annotation_lem k m)
        (rw (annotations-change (put last_applied last) m)
          (lookup_in-put last_applied k last (annotations m) (rw e refl) ∙ rw h))
]
