-- ===== src/Services/Addresses.antt =====
-- The endpoint slice of `create_or_update_service` of src/services.rs, from the pods of all host
-- configurations of the lattice.
use wasmcloud_operator.Controller.Labels.{cluster_config_finalizer}
use wasmcloud_operator.Base.{
  String, ◌≡◌, ◌↔◌, refl, sym, ap, ◌∙◌, false, some, Option, List, [], ◌∷◌, ◌++◌, ◌⊎◌, inl, inr,
  Exists, Option-cases, Bool-cases, ◌==◌, eq_iff, arith, is_empty, if◌then◌else◌,
}
use wasmcloud_operator.Base.Outcome.{Outcome, ok}
use wasmcloud_operator.Base.Exec.{Exec, pure, unwrap, ◌>>=◌, fold_each}
use wasmcloud_operator.Base.Keeps.{bind_ok}
use wasmcloud_operator.HostConfig.{WasmCloudHostConfig}
use wasmcloud_operator.Kube.Objects.{Pod, Service, EndpointSlice}
use wasmcloud_operator.Kube.World.{
  World, Call, reply, ask, apply_endpoints, ApplyParams, list_host_configs,
}
use wasmcloud_operator.Services.Types.{ServiceParams}
use wasmcloud_operator.Services.Cluster.{
  pod_ips, endpoint_slice, pod_selector, config_ips, lattice_ips, put_endpoints,
}
use wasmcloud_operator.Services.Endpoints.{IsEndpoint, IsRunningAt, listed, reported, Exists-split}

abbrev Has : String → List (Option String) → Type 0
Has i ips = Exists (λ o. o ≡ some i) ips

some_inj : {x y : String} {o : Option String} → o ≡ some x → o ≡ some y → x ≡ y
some_inj p q = cc (p, q)

ok_inj : {E A : Type 0} {x y : A} → ◌≡◌ {A = Outcome E A} (ok x) (ok y) → x ≡ y
ok_inj p = cc

module _ {M : Type 0} (w : World M) (l n : String) (pods_of : String → List Pod)
    (answers : (calls : List Call) (selector : String)
      → w.pods calls n selector ≡ reply (pods_of selector)) where
  -- A pod of the configuration, which is of the lattice, runs and reports the address.
  abbrev pub Serves : String → WasmCloudHostConfig → Type 0
  Serves i cfg =
      (cfg.spec.lattice ≡ l)
      × ((name : String) × (cfg.name ≡ some name)
          × Exists (IsRunningAt i) (pods_of (pod_selector name)))

  config_served :
      (i : String) (ips ips' : List (Option String)) (cfg : WasmCloudHostConfig) (calls : List Call)
      → (config_ips w l n ips cfg calls).0 ≡ ok ips'
      → Has i ips' ↔ (Has i ips ⊎ Serves i cfg)
  unfolding config_ips ask
  config_served i ips ips' cfg calls h = elim (Bool-cases (cfg.spec.lattice == l)) [
    | inl e ↦ elim (Option-cases cfg.name) [
      | inl f ↦ absurd (ground (arith, e, f, h))
      | inr (name, f) ↦
          let pods = pods_of (pod_selector name) in
          let same : ips' ≡ ips ++ pod_ips pods =
            ground (arith, e, f, h, answers calls (pod_selector name)) in
          let (there, back) = Exists-split (λ o. o ≡ some i) ips (pod_ips pods) in
          let (run, report) = reported i pods in
          (
            (λ g. elim (there (rw same at g)) [
              | inl a ↦ inl a
              | inr b ↦ inr ((eq_iff cfg.spec.lattice l).0 e, (name, f, run b))
            ]),
            (λ g. rw same (
                back (elim g [
                  | inl a ↦ inl a
                  | inr (_, (name', f', x)) ↦ inr (report (rw (some_inj f' f) at x))
                ]))),
          )
    ]
    | inr e ↦
        let same : ips' ≡ ips = ground (arith, e, h) in
        (
          (λ g. inl (rw same at g)),
          elim [
            | inl a ↦ rw same a
            | inr (p, _) ↦ absurd (ground (arith, e, p, eq_iff cfg.spec.lattice l))
          ],
        )
  ]

  configs_served :
      (i : String) (ips ips' : List (Option String)) (cfgs : List WasmCloudHostConfig)
      (calls : List Call)
      → (fold_each (config_ips w l n) ips cfgs calls).0 ≡ ok ips'
      → Has i ips' ↔ (Has i ips ⊎ Exists (Serves i) cfgs)
  unfolding fold_each
  configs_served i ips ips' [] calls h =
      (λ g. inl (rw (← ok_inj h) at g), elim [ inl a ↦ rw (← ok_inj h) a | inr b ↦ elim b [ ] ])
  configs_served i ips ips' (cfg ∷ cfgs) calls h =
      let (more, first, rest) =
        bind_ok (config_ips w l n ips cfg) (λ c. fold_each (config_ips w l n) c cfgs) calls h in
      let (there, back) = config_served i ips more cfg calls first in
      let (there', back') =
        configs_served i more ips' cfgs (config_ips w l n ips cfg calls).1
          (ap (λ r. r.0) (sym rest) ∙ h) in
      (
        (λ g. elim (there' g) [
          | inl a ↦ elim (there a) [ inl b ↦ inl b | inr c ↦ inr (inl c) ]
          | inr d ↦ inr (inr d)
        ]),
        (λ g. back' (elim g [
          | inl b ↦ inl (back (inl b))
          | inr (inl c) ↦ inl (back (inr c))
          | inr (inr d) ↦ inr d
        ])),
      )

  lattice_served :
      (i : String) (configs : List WasmCloudHostConfig) (ips : List (Option String))
      (calls : List Call)
      → w.host_configs calls n ≡ reply configs
      → (lattice_ips w l n calls).0 ≡ ok ips
      → Has i ips ↔ Exists (Serves i) configs
  unfolding lattice_ips ask
  lattice_served i configs ips calls e h =
      let (there, back) =
        configs_served i [] ips configs (list_host_configs n ∷ calls) (rw e at h) in
      ((λ g. elim (there g) [ inl a ↦ elim a [ ] | inr b ↦ b ]), (λ g. back (inr g)))

module _ {M : Type 0} (w : World M) (params : ServiceParams) (n : String)
    (pods_of : String → List Pod)
    (answers : (calls : List Call) (selector : String)
      → w.pods calls n selector ≡ reply (pods_of selector)) where
  -- The newest call applies the endpoint slice of the service, with an endpoint for exactly the
  -- addresses that serve; or no address serves.
  abbrev pub IsServed : List WasmCloudHostConfig → List Call → Type 0
  IsServed configs calls =
      ((p : ApplyParams) × (slice : EndpointSlice) × (rest : List Call) × (calls
          ≡ apply_endpoints n params.name p slice ∷ rest)
        × ((i : String)
            → IsEndpoint i slice.endpoints
              ↔ Exists (Serves w params.lattice_id n pods_of answers i) configs))
      ⊎ ((i : String) → Exists (Serves w params.lattice_id n pods_of answers i) configs → ⊥)

  -- The part of `put_endpoints` after the addresses.
  abbrev then_apply : Service → List (Option String) → Exec String (List Call) (Unit {0})
  then_apply svc ips = if is_empty ips then pure tt else do
    owner ← unwrap svc.owner
    let call =
        apply_endpoints n params.name
          (record { field_manager = cluster_config_finalizer; force = false })
          (endpoint_slice params owner ips)
    ask (λ h. w.applied h call) call

  applied_slice :
      (svc : Service) (ips : List (Option String)) (configs : List WasmCloudHostConfig)
      (calls : List Call)
      → ((i : String) → Has i ips ↔ Exists (Serves w params.lattice_id n pods_of answers i) configs)
      → (then_apply svc ips calls).0 ≡ ok tt
      → IsServed configs (then_apply svc ips calls).1
  unfolding endpoint_slice ask
  applied_slice svc [] configs calls f h = inr (λ i x. elim ((f i).1 x) [ ])
  applied_slice svc (o ∷ ips) configs calls f h = elim (Option-cases svc.owner) [
    | inl e ↦ absurd (ground (arith, e, h))
    | inr (owner, e) ↦ rw e (
        inl (
          _,
          _,
          calls,
          refl,
          λ i.
              let (a, b) = listed i (o ∷ ips) in
              let (c, d) = f i in ((λ x. c (a x)), (λ x. b (d x))),
        ))
  ]

  -- Suppose that the host configurations of a namespace are listed, and that each list of pods there
  -- is answered with the pods of its selector. If `put_endpoints` succeeds, then its newest call
  -- applies the endpoint slice of the service, which has an endpoint for an address exactly if a
  -- pod of a configuration of the lattice runs and reports it; or there is no such address.
  pub put_endpoints-IsServed :
      (svc : Service) (configs : List WasmCloudHostConfig) (calls : List Call)
      → w.host_configs calls n ≡ reply configs
      → (put_endpoints w params n svc calls).0 ≡ ok tt
      → IsServed configs (put_endpoints w params n svc calls).1
  unfolding put_endpoints
  put_endpoints-IsServed svc configs calls e h =
      let (ips, first, rest) =
        bind_ok (lattice_ips w params.lattice_id n) (then_apply svc) calls h in
      let served =
        applied_slice svc ips configs (lattice_ips w params.lattice_id n calls).1
          (λ i. lattice_served w params.lattice_id n pods_of answers i configs ips calls e first)
          (ap (λ r. r.0) (sym rest) ∙ h) in
      rw rest served
