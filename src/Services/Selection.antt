-- ===== src/Services/Selection.antt =====
-- The selectors of src/services.rs and src/controller.rs against the labels of the host pods.
use text.Mathlib.Text.{starts_with}
use text.Mathlib.TextPositions.{starts_with-append, eq_refl}
use text.Mathlib.TextLemmas.{append_cancel_left}
use wasmcloud_operator.Base.{
  String, ◌≡◌, ◌≢◌, ◌↔◌, refl, sym, ap, ◌∙◌, false, none, some, List, [], ◌∷◌, map, arith, eq_iff,
  ◌<>◌, All, Exists, inl, inr, ◌⊎◌, Option-cases,
}
use wasmcloud_operator.Base.BTreeMap
use wasmcloud_operator.Base.BTreeMap.{BTreeMap, get-insert}
use wasmcloud_operator.HostConfig.{WasmCloudHostConfig}
use wasmcloud_operator.Controller.Labels.{
  host_label_prefix, common_labels, format_service_selector, selector_labels, add_host_labels,
  pod_labels,
}
use wasmcloud_operator.Services.Types.{ServiceParams}
use wasmcloud_operator.Services.Cluster.{service_selector}

-- Equality-based selection: the labels hold every entry of the selector.
abbrev pub Selects : BTreeMap String → BTreeMap String → Type 0
Selects selector labels =
    (k v : String) → BTreeMap.get k selector ≡ some v → BTreeMap.get k labels ≡ some v

abbrev pub IsUnique : List (String × String) → Type 0
IsUnique [] = Unit
IsUnique ((k, v) ∷ m) = (BTreeMap.get k m ≡ none) × IsUnique m

abbrev host_key : String → String
host_key k = host_label_prefix <> "/" <> k

host_key_ne : (k j : String) → starts_with j host_label_prefix ≡ false → (host_key k) ≢ j
host_key_ne k j h e = cc (starts_with-append host_label_prefix ("/" <> k))

host_key_inj : (k j : String) → (host_key k) ≡ (host_key j) → k ≡ j
host_key_inj k j e = append_cancel_left "/" k j (append_cancel_left host_label_prefix _ _ e)

-- Host labels leave every other key alone.
get-add_other :
    (j : String) (base : BTreeMap String) (hl : List (String × String))
    → starts_with j host_label_prefix ≡ false
    → BTreeMap.get j (add_host_labels base hl) ≡ BTreeMap.get j base
unfolding add_host_labels
get-add_other j base [] h = refl
get-add_other j base ((k, v) ∷ hl) h =
    get-add_other j (BTreeMap.insert (host_key k) v base) hl h
    ∙ ground (arith, get-insert (host_key k) j v base, eq_iff (host_key k) j, host_key_ne k j h)

get-add_host :
    (j : String) (base : BTreeMap String) (hl : List (String × String))
    → IsUnique hl
    → BTreeMap.get (host_key j) (add_host_labels base hl)
      ≡ (elim (BTreeMap.get j hl) [ none ↦ BTreeMap.get (host_key j) base | some v ↦ some v ])
unfolding add_host_labels BTreeMap.get
get-add_host j base [] u = refl
get-add_host j base ((k, v) ∷ hl) (miss, u) =
    get-add_host j (BTreeMap.insert (host_key k) v base) hl u
    ∙ ground (
      arith,
      miss,
      eq_iff k j,
      eq_iff (host_key k) (host_key j),
      host_key_inj k j,
      ap host_key {x = k} {y = j},
      get-insert (host_key k) (host_key j) v base,
    )

-- The labels of a pod before its host labels.
abbrev base_labels : WasmCloudHostConfig → BTreeMap String
base_labels config = BTreeMap.extend (selector_labels config) common_labels

get-pod_labels_other :
    (config : WasmCloudHostConfig) (k : String)
    → starts_with k host_label_prefix ≡ false
    → BTreeMap.get k (pod_labels config) ≡ BTreeMap.get k (base_labels config)
unfolding pod_labels
get-pod_labels_other config k h = elim (Option-cases config.spec.host_labels) [
  | inl e ↦ rw (e, pod_labels)
  | inr (hl, e) ↦ rw (e, pod_labels) (get-add_other k (base_labels config) hl h)
]

selector_key :
    (config : WasmCloudHostConfig) (k v : String)
    → BTreeMap.get k (selector_labels config) ≡ some v
    → (k ≡ "app.kubernetes.io/instance") × (v ≡ config.name_any)
      ⊎ (k ≡ "app.kubernetes.io/name") × (v ≡ "wasmcloud")
unfolding selector_labels BTreeMap.get
selector_key config k v h =
    ground (arith, eq_iff "app.kubernetes.io/instance" k, eq_iff "app.kubernetes.io/name" k)

-- Every entry of the selector of a host configuration's Deployment, DaemonSet and NATS service is
-- among the labels of the pods of its template, whatever host labels are set.
pub selector_labels-Selects :
    (config : WasmCloudHostConfig) (k v : String)
    → BTreeMap.get k (selector_labels config) ≡ some v
    → BTreeMap.get k (pod_labels config) ≡ some v
unfolding selector_labels common_labels BTreeMap.get
selector_labels-Selects config k v h = elim (selector_key config k v h) [
  | inl (p, q) ↦ rw (p, q) (get-pod_labels_other config "app.kubernetes.io/instance" refl)
  | inr (p, q) ↦ rw (p, q) (get-pod_labels_other config "app.kubernetes.io/name" refl)
]

-- `extend` by host labels is the loop of `pod_labels`.
extend-eq-add :
    (base : BTreeMap String) (req : List (String × String))
    → BTreeMap.extend base
        (map (λ (kv : String × String). (format_service_selector kv.0, kv.1)) req)
      ≡ add_host_labels base req
unfolding add_host_labels BTreeMap.extend format_service_selector
extend-eq-add base [] = refl
extend-eq-add base ((k, v) ∷ req) = extend-eq-add (BTreeMap.insert (host_key k) v base) req

-- The source of an entry among host labels.
add_cases :
    (k v : String) (base : BTreeMap String) (req : List (String × String))
    → BTreeMap.get k (add_host_labels base req) ≡ some v
    → Exists (λ kv. (host_key kv.0 ≡ k) × (kv.1 ≡ v)) req ⊎ (BTreeMap.get k base ≡ some v)
unfolding add_host_labels
add_cases k v base [] h = inr h
add_cases k v base ((j, u) ∷ req) h =
    elim (add_cases k v (BTreeMap.insert (host_key j) u base) req h) [
      | inl x ↦ inl (inr x)
      | inr e ↦ ground (arith, e, eq_iff (host_key j) k, get-insert (host_key j) k u base)
    ]

met :
    (k v : String) (labels : BTreeMap String) (hl req : List (String × String))
    → ((j u : String) → BTreeMap.get j hl ≡ some u → BTreeMap.get (host_key j) labels ≡ some u)
    → All (λ kv. BTreeMap.get kv.0 hl ≡ some kv.1) req
    → Exists (λ kv. (host_key kv.0 ≡ k) × (kv.1 ≡ v)) req
    → BTreeMap.get k labels ≡ some v
met k v labels hl [] f h x = elim x [ ]
met k v labels hl ((j, u) ∷ req) f (p, h) (inl (a, b)) = rw (← a, ← b) (f j u p)
met k v labels hl ((j, u) ∷ req) f (p, h) (inr x) = met k v labels hl req f h x

get-pod_labels_host :
    (config : WasmCloudHostConfig) (hl : BTreeMap String) (j u : String)
    → config.spec.host_labels ≡ some hl
    → IsUnique hl
    → BTreeMap.get j hl ≡ some u
    → BTreeMap.get (host_key j) (pod_labels config) ≡ some u
unfolding pod_labels
get-pod_labels_host config hl j u e unique h =
    rw (e, pod_labels) (get-add_host j (base_labels config) hl unique ∙ rw h)

base_key :
    (k v : String)
    → BTreeMap.get k (BTreeMap.insert "app.kubernetes.io/name" "wasmcloud" []) ≡ some v
    → (k ≡ "app.kubernetes.io/name") × (v ≡ "wasmcloud")
unfolding BTreeMap.get BTreeMap.insert
base_key k v h = ground (arith, eq_iff "app.kubernetes.io/name" k)

All-entries :
    (P : String → String → Type 0) (req : List (String × String))
    → IsUnique req
    → ((k v : String) → BTreeMap.get k req ≡ some v → P k v)
    → All (λ kv. P kv.0 kv.1) req
unfolding BTreeMap.get
All-entries P [] u f = tt
All-entries P ((j, w) ∷ req) (miss, u) f = (
  f j w (rw (eq_refl j)),
  All-entries P req u (λ k v h.
      f k v (ground (arith, eq_iff j k, h, miss, ap (λ i. BTreeMap.get i req) {x = j} {y = k}))),
)

no_host_key :
    (config : WasmCloudHostConfig) (k : String)
    → BTreeMap.get (host_key k) (base_labels config) ≡ none
unfolding selector_labels common_labels BTreeMap.get
no_host_key config k = ground (
  arith,
  eq_iff "app.kubernetes.io/instance" (host_key k),
  eq_iff "app.kubernetes.io/managed-by" (host_key k),
  eq_iff "app.kubernetes.io/name" (host_key k),
  λ (p : "app.kubernetes.io/instance" ≡ host_key k).
      host_key_ne k "app.kubernetes.io/instance" refl (sym p),
  λ (p : "app.kubernetes.io/managed-by" ≡ host_key k).
      host_key_ne k "app.kubernetes.io/managed-by" refl (sym p),
  λ (p : "app.kubernetes.io/name" ≡ host_key k).
      host_key_ne k "app.kubernetes.io/name" refl (sym p),
)

pod_host_given :
    (config : WasmCloudHostConfig) (hl : BTreeMap String) (k v : String)
    → config.spec.host_labels ≡ some hl
    → IsUnique hl
    → BTreeMap.get (host_key k) (pod_labels config) ≡ some v
    → BTreeMap.get k hl ≡ some v
unfolding pod_labels
pod_host_given config hl k v e unique given = ground (
  arith,
  get-add_host k (base_labels config) hl unique,
  no_host_key config k,
  rw (e, pod_labels) at given,
)

module _ (params : ServiceParams) (config : WasmCloudHostConfig) (req : List (String × String))
    (hl : BTreeMap String) (wants : params.host_labels ≡ some req)
    (gives : config.spec.host_labels ≡ some hl) (unique_hl : IsUnique hl)
    (unique_req : IsUnique req) where
  met-Selects :
      All (λ kv. BTreeMap.get kv.0 hl ≡ some kv.1) req
      → Selects (service_selector params) (pod_labels config)
  unfolding service_selector common_labels BTreeMap.get selector_labels
  met-Selects h k v g =
      elim (add_cases k v _ req (rw (wants, service_selector, extend-eq-add) at g)) [
        | inl x ↦
            met k v (pod_labels config) hl req
              (λ j u. get-pod_labels_host config hl j u gives unique_hl) h x
        | inr b ↦
            let (p, q) = base_key k v b in
            rw (p, q) (get-pod_labels_other config "app.kubernetes.io/name" refl)
      ]

  Selects-met :
      Selects (service_selector params) (pod_labels config)
      → All (λ kv. BTreeMap.get kv.0 hl ≡ some kv.1) req
  unfolding service_selector pod_labels
  Selects-met sel =
      All-entries (λ k v. BTreeMap.get k hl ≡ some v) req unique_req
        λ k v h.
          let wanted : BTreeMap.get (host_key k) (service_selector params) ≡ some v =
            rw (wants, service_selector, extend-eq-add)
              (get-add_host k (BTreeMap.insert "app.kubernetes.io/name" "wasmcloud" []) req
                  unique_req
                ∙ rw h) in
          let given = sel (host_key k) v wanted in
          pod_host_given config hl k v gives unique_hl given

  -- Let an application have requirements and a host configuration host labels, each with no key
  -- twice. The service selector of the application selects the pods of the configuration exactly if
  -- the host labels hold every requirement.
  pub service_selector-Selects_iff :
      Selects (service_selector params) (pod_labels config)
      ↔ All (λ kv. BTreeMap.get kv.0 hl ≡ some kv.1) req
  service_selector-Selects_iff = (Selects-met, met-Selects)
