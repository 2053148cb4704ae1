-- ===== src/Controller/Volumes.antt =====
-- The volumes of the pods of src/controller.rs, against the mounts of their containers.
use wasmcloud_operator.Base.{
  String, ◌≡◌, refl, Option, none, some, List, [], ◌∷◌, ◌++◌, inl, inr, All, Option-cases,
  unwrap_or,
}
use wasmcloud_operator.Base.Outcome.{ok}
use wasmcloud_operator.HostConfig.{
  WasmCloudHostConfig, WasmCloudHostConfigSpec, ContainerTemplateAdditions,
  KubernetesSchedulingOptions,
}
use wasmcloud_operator.Kube.Pods.{Volume, VolumeMount, Container, PodSpec, PodTemplateSpec}
use wasmcloud_operator.Kube.World.{World}
use wasmcloud_operator.Services.Types.{Operator}
use wasmcloud_operator.Controller.Types.{Crates}
use wasmcloud_operator.Controller.Certificates.{Mounts, add_authorities}
use wasmcloud_operator.Controller.Pod.{
  pod_template, assemble, authorities, initial_mounts, containers, pod_spec, creds_volume,
  nats_volume_mounts, leaf_container, host_container, additions_of, merged, and_then,
}
use wasmcloud_operator.Controller.Mounting.{
  HasVolume, IsMounted, Yields, Yields-bind, add_authorities-IsMounted,
}

-- Each mount of a container is of one of the volumes.
abbrev pub IsBacked : List Volume → Container → Type 0
IsBacked volumes c =
    All (λ (v : VolumeMount). HasVolume v.name volumes) (unwrap_or c.volume_mounts [])

-- Each mount of each container of a pod is of a volume of the pod.
abbrev pub IsWhole : PodTemplateSpec → Type 0
IsWhole t =
    (spec : PodSpec) × (t.spec ≡ some spec)
    × All (IsBacked (unwrap_or spec.volumes [])) spec.containers

-- The volumes that a configuration adds to the pod.
abbrev pub added_volumes : WasmCloudHostConfigSpec → List Volume
added_volumes spec =
    elim (and_then spec.scheduling_options
      (λ (so : KubernetesSchedulingOptions). so.pod_template_additions)) [
        | none ↦ []
        | some overrides ↦ unwrap_or overrides.volumes []
      ]

HasVolume-left : (n : String) (vs us : List Volume) → HasVolume n vs → HasVolume n (vs ++ us)
HasVolume-left n [] us h = elim h [ ]
HasVolume-left n (v ∷ vs) us (inl p) = inl p
HasVolume-left n (v ∷ vs) us (inr h) = inr (HasVolume-left n vs us h)

HasVolume-right : (n : String) (vs us : List Volume) → HasVolume n us → HasVolume n (vs ++ us)
HasVolume-right n [] us h = h
HasVolume-right n (v ∷ vs) us h = inr (HasVolume-right n vs us h)

backed_by :
    (vs us : List Volume)
    → ((n : String) → HasVolume n vs → HasVolume n us)
    → (ms : List VolumeMount) → All (λ (x : VolumeMount). HasVolume x.name vs) ms
    → All (λ (x : VolumeMount). HasVolume x.name us) ms
backed_by vs us f [] h = tt
backed_by vs us f (x ∷ ms) (p, h) = (f x.name p, backed_by vs us f ms h)

-- What `merge_from` of k8s-openapi does with mounts: those of the result are among those of the two.
abbrev pub MergesMounts : Crates → Type 0
MergesMounts crates =
    (volumes : List Volume) (additions c : Container)
    → IsBacked volumes additions
    → IsBacked volumes c
    → IsBacked volumes (crates.merge_from additions c)

-- The additions to a container, if there are any, mount volumes that the configuration adds.
abbrev pub IsClosed :
    (ContainerTemplateAdditions → Option Container) → WasmCloudHostConfigSpec → Type 0
IsClosed pick spec =
    (a : Container) → additions_of pick spec ≡ some a → IsBacked (added_volumes spec) a

creds_there :
    (spec : WasmCloudHostConfigSpec) (n : String)
    → spec.secret_name ≡ some n
    → HasVolume "nats-creds" (creds_volume spec)
unfolding creds_volume
creds_there spec n e = rw (e, creds_volume) (inl refl)

leaf-IsBacked :
    (spec : WasmCloudHostConfigSpec) (volumes : List Volume)
    → HasVolume "nats-config" volumes
    → ((n : String) → spec.secret_name ≡ some n → HasVolume "nats-creds" volumes)
    → IsBacked volumes (leaf_container spec)
unfolding leaf_container nats_volume_mounts
leaf-IsBacked spec volumes h k = elim (Option-cases spec.secret_name) [
  | inl e ↦ rw (e, leaf_container) (h, tt)
  | inr (n, e) ↦ rw (e, leaf_container) (h, (k n e, tt))
]

-- What `pod_spec` has: the containers, the volumes of the operator and those that are added.
record IsFull (spec : PodSpec) (cs : List Container) (us vs : List Volume) : Type 0 where
  containers : spec.containers ≡ cs
  own : (n : String) → HasVolume n us → HasVolume n (unwrap_or spec.volumes [])
  added : (n : String) → HasVolume n vs → HasVolume n (unwrap_or spec.volumes [])

pod_spec-IsFull :
    (config : WasmCloudHostConfig) (cs : List Container) (volumes : List Volume)
    → IsFull (pod_spec config cs volumes) cs volumes (added_volumes config.spec)
unfolding pod_spec
pod_spec-IsFull config cs volumes =
    go
      (and_then config.spec.scheduling_options
        (λ (so : KubernetesSchedulingOptions). so.pod_template_additions))
      refl
  where
    go :
        (o : Option PodSpec)
        → and_then config.spec.scheduling_options
            (λ (so : KubernetesSchedulingOptions). so.pod_template_additions)
          ≡ o
        → IsFull (pod_spec config cs volumes) cs volumes (added_volumes config.spec)
    go none e =
        rw (e, pod_spec, added_volumes)
          (record { containers = refl; own = λ n x. x; added = λ n x. absurd x })
    go (some overrides) e =
        rw (e, pod_spec, added_volumes)
          (record {
            containers = refl;
            own = λ n x. HasVolume-left n volumes _ x;
            added = λ n x. HasVolume-right n volumes _ x;
          })

module _ (crates : Crates) (m : MergesMounts crates) where
  merged-IsBacked :
      (vs : List Volume) (o : Option Container) (c : Container)
      → ((a : Container) → o ≡ some a → IsBacked vs a)
      → IsBacked vs c
      → IsBacked vs (merged crates o c)
  merged-IsBacked vs none c f h = h
  merged-IsBacked vs (some a) c f h = m vs a c (f a refl) h

  containers-IsBacked :
      (spec : WasmCloudHostConfigSpec) (k : Mounts) (vs : List Volume)
      → ((n : String) → HasVolume n (k.volumes ++ creds_volume spec) → HasVolume n vs)
      → ((n : String) → HasVolume n (added_volumes spec) → HasVolume n vs)
      → IsClosed (λ a. a.nats) spec
      → IsClosed (λ a. a.wasmcloud) spec
      → IsMounted k
      → All (IsBacked vs) (containers crates spec k)
  unfolding containers host_container
  containers-IsBacked spec k vs f g p q (h, c) = (
    merged-IsBacked vs (additions_of (λ a. a.nats) spec) (leaf_container spec)
        (λ a e. backed_by _ vs g _ (p a e))
        (leaf-IsBacked spec vs (f "nats-config" (HasVolume-left _ k.volumes _ c))
          λ n e. f "nats-creds" (HasVolume-right _ k.volumes _ (creds_there spec n e))),
    (
      merged-IsBacked vs (additions_of (λ a. a.wasmcloud) spec) (host_container spec k)
          (λ a e. backed_by _ vs g _ (q a e))
          (backed_by k.volumes vs (λ n h'. f n (HasVolume-left n k.volumes _ h')) k.volume_mounts
            h),
      tt,
    ),
  )

  assemble-IsWhole :
      (config : WasmCloudHostConfig) (k : Mounts)
      → IsClosed (λ a. a.nats) config.spec
      → IsClosed (λ a. a.wasmcloud) config.spec
      → IsMounted k
      → IsWhole (assemble crates config k)
  unfolding assemble
  assemble-IsWhole config k p q h =
      let volumes = k.volumes ++ creds_volume config.spec in
      let spec = pod_spec config (containers crates config.spec k) volumes in
      let part = pod_spec-IsFull config (containers crates config.spec k) volumes in
      (
        spec,
        refl,
        rw part.containers (
            containers-IsBacked config.spec k (unwrap_or spec.volumes []) part.own part.added p q
              h),
      )

  pod_template-Yields :
      {M : Type 0} (w : World M) (config : WasmCloudHostConfig)
      → IsClosed (λ a. a.nats) config.spec
      → IsClosed (λ a. a.wasmcloud) config.spec
      → Yields IsWhole (pod_template w crates config)
  unfolding pod_template initial_mounts
  pod_template-Yields w config p q =
      let namespace = unwrap_or config.namespace "" in
      let start = initial_mounts config in
      Yields-bind IsMounted IsWhole (add_authorities w namespace start (authorities config.spec)) _
        (add_authorities-IsMounted w namespace start (authorities config.spec) (tt, inl refl))
        λ k h op. assemble-IsWhole config k p q h

  -- Suppose that `merge_from` only keeps mounts of the two containers that it merges, and that what
  -- a configuration adds to the containers mounts only volumes that it adds to the pod. Then each
  -- mount of each container of the pod template that `pod_template` makes is of a volume of the pod,
  -- whatever certificates the API server holds.
  pub pod_template-IsWhole :
      {M : Type 0} (w : World M) (config : WasmCloudHostConfig) (op : Operator)
      (t : PodTemplateSpec)
      → IsClosed (λ a. a.nats) config.spec
      → IsClosed (λ a. a.wasmcloud) config.spec
      → (pod_template w crates config op).0 ≡ ok t
      → IsWhole t
  pod_template-IsWhole w config op t p q e = rw e at (pod_template-Yields w config p q op)
