-- ===== src/Services/Endpoints.antt =====
-- The endpoints that `create_or_update_service` of src/services.rs makes of a list of pods.
use wasmcloud_operator.Base.{
  String, ◌≡◌, ◌↔◌, refl, false, Option, none, some, List, [], ◌∷◌, ◌++◌, ◌⊎◌, inl, inr, Exists,
  Option-cases, Bool-cases, ◌==◌, eq_iff, arith, unwrap_or, ◌≢◌, ap, ◌∙◌,
}
use wasmcloud_operator.Kube.Objects.{Pod, PodStatus, Endpoint}
use wasmcloud_operator.Services.Cluster.{pod_ips, endpoints_of}

-- A pod that runs and reports the address.
abbrev pub IsRunningAt : String → Pod → Type 0
IsRunningAt i pod = elim pod.status [
  | none ↦ ⊥
  | some status ↦
      (status.phase ≡ some "Running") × Exists (λ o. o ≡ some i) (unwrap_or status.pod_ips [])
]

abbrev pub IsEndpoint : String → List Endpoint → Type 0
IsEndpoint i endpoints = Exists (λ (e : Endpoint). e.addresses ≡ i ∷ []) endpoints

-- The endpoints are those of the addresses.
pub listed :
    (i : String) (ips : List (Option String))
    → IsEndpoint i (endpoints_of ips) ↔ Exists (λ o. o ≡ some i) ips
unfolding endpoints_of
listed i [] = ((λ h. h), (λ h. h))
listed i (none ∷ ips) =
    let (f, g) = listed i ips in ((λ h. inr (f h)), elim [ inl p ↦ cc p | inr h ↦ g h ])
listed i (some j ∷ ips) =
    let (f, g) = listed i ips in
    (
      elim [ inl p ↦ inl (cc p) | inr h ↦ inr (f h) ],
      elim [ inl p ↦ inl (cc p) | inr h ↦ inr (g h) ],
    )

pub Exists-split :
    {A : Type 0} (P : A → Type 0) (xs ys : List A)
    → Exists P (xs ++ ys) ↔ (Exists P xs ⊎ Exists P ys)
Exists-split P [] ys = (inr, elim [ inl h ↦ elim h [ ] | inr h ↦ h ])
Exists-split P (x ∷ xs) ys =
    let (f, g) = Exists-split P xs ys in
    (
      elim [ inl p ↦ inl (inl p) | inr h ↦ elim (f h) [ inl a ↦ inl (inr a) | inr b ↦ inr b ] ],
      elim [ inl (inl p) ↦ inl p | inl (inr h) ↦ inr (g (inl h)) | inr h ↦ inr (g (inr h)) ],
    )

is_running_phase : (o : Option String) → (o ≡ some "Running") ⊎ (o ≢ some "Running")
is_running_phase none = inr (λ p. cc p)
is_running_phase (some phase) = elim (Bool-cases (phase == "Running")) [
  | inl e ↦ inl (ap some ((eq_iff phase "Running").0 e))
  | inr e ↦ inr (λ p. ground (arith, e, eq_iff phase "Running", p))
]

-- The addresses of a list are those of its first pod and those of the others.
abbrev Splits : String → Pod → List Pod → Type 0
Splits i pod pods =
    Exists (λ o. o ≡ some i) (pod_ips (pod ∷ pods))
    ↔ (IsRunningAt i pod ⊎ Exists (λ o. o ≡ some i) (pod_ips pods))

other_phase :
    (i : String) (status : PodStatus) (pods : List Pod)
    → status.phase ≢ some "Running"
    → Splits i (record { status = some status }) pods
unfolding pod_ips
other_phase i status pods ne = elim (Option-cases status.phase) [
  | inl e ↦ rw e (inr, elim [ inl (p, _) ↦ absurd (ne (e ∙ p)) | inr h ↦ h ])
  | inr (phase, e) ↦
      let other : (phase == "Running") ≡ false = ground (arith, e, eq_iff phase "Running", ne) in
      rw (e, other) (inr, elim [ inl (p, _) ↦ absurd (ne (e ∙ p)) | inr h ↦ h ])
]

running_phase :
    (i : String) (status : PodStatus) (pods : List Pod)
    → status.phase ≡ some "Running"
    → Splits i (record { status = some status }) pods
unfolding pod_ips
running_phase i status pods e = elim (Option-cases status.pod_ips) [
  | inl f ↦ rw (e, f) (inr, elim [ inl (_, h) ↦ elim h [ ] | inr h ↦ h ])
  | inr (ips, f) ↦
      let (there, back) = Exists-split (λ o. o ≡ some i) ips (pod_ips pods) in
      rw (e, f)
        (
          (λ h. elim (there h) [ inl a ↦ inl (refl, a) | inr b ↦ inr b ]),
          elim [ inl (_, a) ↦ back (inl a) | inr b ↦ back (inr b) ],
        )
]

one_pod :
    (i : String) (status : Option PodStatus) (pods : List Pod)
    → Splits i (record { status = status }) pods
unfolding pod_ips
one_pod i none pods = (inr, elim [ inl h ↦ elim h [ ] | inr h ↦ h ])
one_pod i (some status) pods = elim (is_running_phase status.phase) [
  | inl e ↦ running_phase i status pods e
  | inr e ↦ other_phase i status pods e
]

-- The addresses of pods are those that pods which run report.
pub reported :
    (i : String) (pods : List Pod)
    → Exists (λ o. o ≡ some i) (pod_ips pods) ↔ Exists (IsRunningAt i) pods
unfolding pod_ips
reported i [] = ((λ h. h), (λ h. h))
reported i (pod ∷ pods) =
    let (there, back) = one_pod i pod.status pods in
    let (f, g) = reported i pods in
    (
      (λ h. elim (there h) [ inl a ↦ inl a | inr b ↦ inr (f b) ]),
      elim [ inl a ↦ back (inl a) | inr b ↦ back (inr (g b)) ],
    )
