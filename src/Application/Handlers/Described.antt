-- ===== src/Application/Handlers/Described.antt =====
-- The JSON that `get_application` of src/resources/application.rs makes of a manifest and its status.
use wasmcloud_operator.Base.{String, ◌≡◌, ◌≢◌, refl, ◌∙◌, some, [], ◌∷◌, ◌<>◌, arith, eq_iff}
use wasmcloud_operator.Json.{
  Value, text, object, Fields, end, field, lookup, put, member, assign, at_path,
}
use wasmcloud_operator.Json.Laws.{lookup-put}
use wasmcloud_operator.Kube.World.{Status}
use wasmcloud_operator.Manifest.Types.{Manifest}
use wasmcloud_operator.Application.Types.{status_text}
use wasmcloud_operator.Application.Handlers.{Serde, described}

lookup_put_self : (k : String) (v : Value) (fs : Fields) → lookup k (put k v fs) ≡ some v
lookup_put_self k v fs = ground (arith, lookup-put k k v fs, eq_iff k k)

lookup_put_other :
    (k j : String) (v : Value) (fs : Fields) → k ≢ j → lookup j (put k v fs) ≡ lookup j fs
lookup_put_other k j v fs h = ground (arith, lookup-put k j v fs, eq_iff k j)

-- A member of the metadata is set.
abbrev with_meta : String → Value → Fields → Fields → Fields
with_meta k v ms fs = put "metadata" (object (put k v ms)) fs

assign_meta :
    (k : String) (v : Value) (ms fs : Fields)
    → lookup "metadata" fs ≡ some (object ms)
    → assign ("metadata" ∷ k ∷ []) v (object fs) ≡ some (object (with_meta k v ms fs))
unfolding assign
assign_meta k v ms fs e = rw (e, assign) refl

-- What is set, and what stays.
pub record IsDescribed (s : Serde) (namespace name : String) (manifest : Manifest) (status : Status)
    (fs : Fields) (v : Value) : Type 0 where
  pub uid :
      at_path ("metadata" ∷ "uid" ∷ []) v
      ≡ some (text (s.new_v5 (name <> "/" <> s.version manifest)))
  pub resource_version :
      at_path ("metadata" ∷ "resourceVersion" ∷ []) v
      ≡ some (text (s.new_v5 (name <> "/" <> s.version manifest)))
  pub namespaced : at_path ("metadata" ∷ "namespace" ∷ []) v ≡ some (text namespace)
  pub labelled :
      at_path ("metadata" ∷ "labels" ∷ []) v
      ≡ some (object (field "app.kubernetes.io/instance" (text name) end))
  pub phase : at_path ("status" ∷ "phase" ∷ []) v ≡ some (text (status_text status.status_type))
  pub kept : (k : String) → "metadata" ≢ k → "status" ≢ k → member k v ≡ lookup k fs

abbrev meta_of : Serde → String → String → Manifest → Fields → Fields
meta_of s namespace name manifest ms =
    let uid = text (s.new_v5 (name <> "/" <> s.version manifest)) in
    put "labels" (object (field "app.kubernetes.io/instance" (text name) end))
      (put "namespace" (text namespace) (put "resourceVersion" uid (put "uid" uid ms)))

described_form :
    (s : Serde) (namespace name : String) (manifest : Manifest) (status : Status) (fs ms : Fields)
    → s.to_value manifest ≡ object fs
    → lookup "metadata" fs ≡ some (object ms)
    → (gs : Fields) × (described s namespace name manifest status
        ≡ some (
            object (
              put "status"
                (object (field "phase" (text (status_text status.status_type)) end))
                gs)))
      × (lookup "metadata" gs ≡ some (object (meta_of s namespace name manifest ms)))
      × ((k : String) → "metadata" ≢ k → lookup k gs ≡ lookup k fs)
unfolding described
described_form s namespace name manifest status fs ms e m =
    let uid = text (s.new_v5 (name <> "/" <> s.version manifest)) in
    let m1 = put "uid" uid ms in
    let f1 = put "metadata" (object m1) fs in
    let m2 = put "resourceVersion" uid m1 in
    let f2 = put "metadata" (object m2) f1 in
    let m3 = put "namespace" (text namespace) m2 in
    let f3 = put "metadata" (object m3) f2 in
    let m4 = put "labels" (object (field "app.kubernetes.io/instance" (text name) end)) m3 in
    let f4 = put "metadata" (object m4) f3 in
    (
      f4,
      rw
          (
            described,
            e,
            assign_meta "uid" uid ms fs m,
            assign_meta "resourceVersion" uid m1 f1 (lookup_put_self "metadata" (object m1) fs),
            assign_meta "namespace" (text namespace) m2 f2
                (lookup_put_self "metadata" (object m2) f1),
            assign_meta "labels" (object (field "app.kubernetes.io/instance" (text name) end)) m3 f3
                (lookup_put_self "metadata" (object m3) f2),
            assign,
          )
          refl,
      lookup_put_self "metadata" (object m4) f3,
      (λ k h.
          lookup_put_other "metadata" k (object m4) f3 h
          ∙ lookup_put_other "metadata" k (object m3) f2 h
          ∙ lookup_put_other "metadata" k (object m2) f1 h
          ∙ lookup_put_other "metadata" k (object m1) fs h),
    )

at_meta :
    (k : String) (u x : Value) (ms gs : Fields)
    → lookup "metadata" gs ≡ some (object ms)
    → lookup k ms ≡ some u
    → at_path ("metadata" ∷ k ∷ []) (object (put "status" x gs)) ≡ some u
unfolding at_path member
at_meta k u x ms gs m e =
    rw (at_path, member, lookup_put_other "status" "metadata" x gs (λ h. cc), m, e) refl

at_phase :
    (t : String) (gs : Fields)
    → at_path
        ("status" ∷ "phase" ∷ [])
        (object (put "status" (object (field "phase" (text t) end)) gs))
      ≡ some (text t)
unfolding at_path member lookup
at_phase t gs =
    rw (at_path, member, lookup_put_self "status" (object (field "phase" (text t) end)) gs) refl

-- If the JSON of the manifest is an object whose metadata is an object, the JSON of the application is
-- made, with the UUID of the manifest's name and version as UID and resource version, the
-- namespace and the label that the request asks for, and the phase; its other members are those of
-- the manifest.
pub described-IsDescribed :
    (s : Serde) (namespace name : String) (manifest : Manifest) (status : Status) (fs ms : Fields)
    → s.to_value manifest ≡ object fs
    → lookup "metadata" fs ≡ some (object ms)
    → (v : Value) × (described s namespace name manifest status ≡ some v)
      × IsDescribed s namespace name manifest status fs v
unfolding member
described-IsDescribed s namespace name manifest status fs ms e m =
    let (gs, made, meta, kept) = described_form s namespace name manifest status fs ms e m in
    let set = meta_of s namespace name manifest ms in
    let phase = object (field "phase" (text (status_text status.status_type)) end) in
    (
      object (put "status" phase gs),
      made,
      record {
        uid = at_meta "uid" _ phase set gs meta (grind (arith, lookup-put));
        resource_version =
            at_meta "resourceVersion" _ phase set gs meta (grind (arith, lookup-put));
        namespaced = at_meta "namespace" _ phase set gs meta (grind (arith, lookup-put));
        labelled = at_meta "labels" _ phase set gs meta (grind (arith, lookup-put));
        phase = at_phase (status_text status.status_type) gs;
        kept = λ k h h'. lookup_put_other "status" k phase gs h' ∙ kept k h;
      },
    )
