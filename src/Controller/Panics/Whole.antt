-- ===== src/Controller/Panics/Whole.antt =====
-- The panics of `reconcile_crd` of src/controller.rs as a whole.
use wasmcloud_operator.Base.{
  String, ◌≡◌, ◌≢◌, refl, sym, ap, ◌∙◌, true, Option, none, some, ◌∷◌, is_some, Option-cases, inl,
  inr, ◌<>◌, arith, ◌∙◌,
}
use wasmcloud_operator.Base.Outcome.{Outcome, ok, err, panic}
use wasmcloud_operator.Base.Exec.{Exec, pure, ◌>>=◌, map_err, ◌>>◌}
use wasmcloud_operator.Base.HashMap
use wasmcloud_operator.Base.HashMap.{
  HashMap, string_key, get-insert_cases, get-insert_self, get-insert,
}
use wasmcloud_operator.Base.Runs.{Sound, Runs, Any, Runs-pure, Runs-bind}
use wasmcloud_operator.Base.Lands.{Lands, Lands-bind, Lands-both, Lands-safe}
use wasmcloud_operator.HostConfig.{WasmCloudHostConfig}
use wasmcloud_operator.Kube.Objects.{Secret}
use wasmcloud_operator.Kube.World.{World, reply, ask, get_secret, get_host_config, patch_status}
use wasmcloud_operator.Manifest.Types.{Manifest}
use wasmcloud_operator.Services.Types.{Operator, NameNamespace, name_namespace_key}
use wasmcloud_operator.Services.Watch.{on_calls}
use wasmcloud_operator.Controller.Types.{Error, Crates, kube, kube_error, nats_error}
use wasmcloud_operator.Controller.Frame.Applying.{configure-Keeps, update_status-Keeps}
use wasmcloud_operator.Controller.Apply.{store_nats_creds}
use wasmcloud_operator.Controller.Reconcile.{
  read_creds, from_k8s_secret, load_creds, configure, update_status, start_services, list_apps,
  checked_creds, nats_address, status_of, reconcile_crd, requeue,
}
use wasmcloud_operator.Controller.Panics.{Runs-ask, ask_gives}
use wasmcloud_operator.Controller.Panics.Objects.{
  KeepsEnv, IsNaming, HasRegistry, IsStored, configure-Runs,
}
use wasmcloud_operator.Controller.Panics.Connection.{IsHeld, IsAccepted, start_services-Lands}

Sound-cases :
    {E A : Type 0} {Q : A → Type 0} (r : Outcome E A)
    → r ≢ panic
    → ((a : A) → r ≡ ok a → Q a)
    → Sound Q r
Sound-cases (ok a) h k = k a refl
Sound-cases (err e) h k = tt
Sound-cases panic h k = h refl

get-inserted :
    (k key : NameNamespace) (v : String) (m : HashMap NameNamespace String)
    → k ≡ key
    → HashMap.get key (HashMap.insert k v m) ≡ some v
get-inserted k key v m p =
    ap (λ i. HashMap.get key (HashMap.insert i v m)) p ∙ get-insert_self key v m

-- The end of `load_creds`, when the secret has been read.
abbrev stored_creds :
    World Manifest → Crates → WasmCloudHostConfig → Secret → Exec Error Operator (Option String)
stored_creds w crates cfg secret = read_creds secret >>= λ creds. elim creds [
  | none ↦ pure none
  | some text ↦ store_nats_creds w crates cfg text >> pure (some text)
]

module _ (w : World Manifest) (crates : Crates) where
  read_then_store :
      (cfg : WasmCloudHostConfig) (ns : String) (key : NameNamespace) (secret : Secret)
      (op : Operator)
      → record { name = cfg.name_any; namespace = ns } ≡ key
      → is_some secret.metadata.name ≡ true
      → cfg.namespace ≡ some ns
      → IsAccepted w key op
      → Lands (IsHeld w key) (stored_creds w crates cfg secret op)
  unfolding read_creds store_nats_creds
  read_then_store cfg ns key secret op p n e k = elim (Option-cases (from_k8s_secret secret)) [
    | inl f ↦ elim (Option-cases secret.metadata.name) [
      | inl g ↦ absurd (ground (arith, g, n))
      | inr (name, g) ↦ rw (f, read_creds) (rw g tt)
    ]
    | inr (none, f) ↦ rw (f, read_creds) (λ text g. inl (k text g))
    | inr (some held, f) ↦
        rw (f, read_creds)
          (rw (e, store_nats_creds)
            (λ text g. inr (sym (get-inserted _ key held op.nats_creds p) ∙ g)))
  ]

  -- What `load_creds` gives are the credentials that are held from then on, if there are any.
  load_creds-Lands :
      (cfg : WasmCloudHostConfig) (ns : String) (key : NameNamespace) (op : Operator)
      → record { name = cfg.name_any; namespace = ns } ≡ key
      → IsNaming w
      → cfg.namespace ≡ some ns
      → IsAccepted w key op
      → Lands (λ creds op'. IsHeld w key creds op') (load_creds w crates cfg ns op)
  unfolding load_creds
  load_creds-Lands cfg ns key op p named e h = elim (Option-cases cfg.spec.secret_name) [
    | inl f ↦ rw (f, load_creds) (λ text g. inl (h text g))
    | inr (name, f) ↦
        rw (f, load_creds)
          (Lands-bind (λ secret op'. (is_some secret.metadata.name ≡ true) × IsAccepted w key op') _
            (kube (ask (λ h. w.secret h ns name) (get_secret ns name))) _ op
            (Lands-both _ (IsAccepted w key)
              (kube (ask (λ h. w.secret h ns name) (get_secret ns name))) op
              (ask_gives _ kube_error (λ h. w.secret h ns name) (get_secret ns name)
                λ calls secret r. named calls ns name secret r)
              (record { after = λ o k. k }) h)
            λ secret op' (n, k). read_then_store cfg ns key secret op' p n e k)
  ]

  -- async-nats accepts the credentials at hand, if there are any.
  abbrev Accepts : Option String → Type 0
  Accepts creds = (text : String) → creds ≡ some text → w.credentials text ≡ reply tt

  list_apps-Runs :
      (address : String) (creds : Option String) (l : String) (f : String → Error)
      → Runs (λ apps. Accepts creds) (map_err f (on_calls (list_apps w crates address creds l)))
  unfolding list_apps checked_creds ask
  list_apps-Runs address creds l f = record {
    from = λ op.
        Sound-cases (map_err f (on_calls (list_apps w crates address creds l)) op).0
          (λ p. ground (arith, p)) (λ a h text e. ground (arith, h, e));
  }

  update_status-Runs :
      (cfg : WasmCloudHostConfig) (ns name : String) (creds : Option String)
      → Runs (λ apps. Accepts creds) (update_status w crates cfg ns name creds)
  unfolding update_status
  update_status-Runs cfg ns name creds =
      let call = patch_status ns name in
      Runs-bind (λ apps. Accepts creds)
        (map_err (λ e. nats_error ("Failed to list apps: " <> e))
          (on_calls (list_apps w crates (nats_address cfg.spec) creds cfg.spec.lattice)))
        _
        (list_apps-Runs (nats_address cfg.spec) creds cfg.spec.lattice
          (λ e. nats_error ("Failed to list apps: " <> e)))
        λ apps a.
          Runs-bind Any
            (kube (ask (λ h. w.applied h (call (status_of apps))) (call (status_of apps)))) _
            (Runs-ask kube_error (λ h. w.applied h (call (status_of apps))) (call (status_of apps)))
            λ _ _. Runs-pure apps a

  IsAccepted-IsHeld :
      (key : NameNamespace) (creds : Option String) (op : Operator)
      → IsHeld w key creds op
      → Accepts creds
      → IsAccepted w key op
  IsAccepted-IsHeld key creds op h a text e = elim (h text e) [ inl p ↦ p | inr q ↦ a text q ]

  module _ (cfg : WasmCloudHostConfig) (ns name : String) (st : IsStored cfg ns)
      (named : IsNaming w) (full : HasRegistry w crates cfg) (kept : KeepsEnv crates) where
    -- The part of `reconcile_crd` after the read of the configuration.
    rest-Lands :
        (op : Operator)
        → cfg.name_any ≡ name
        → IsAccepted w (record { name = name; namespace = ns }) op
        → Lands
            (λ _ _. Unit {0})
            ((load_creds w crates cfg ns >>= λ creds.
                configure w crates cfg (is_some creds)
                >> (update_status w crates cfg ns name creds >>= λ apps.
                    start_services w crates cfg ns name apps >> pure (requeue 300)))
              op)
    rest-Lands op same h =
        Lands-bind (IsHeld w key) _ (load_creds w crates cfg ns) _ op
          (load_creds-Lands cfg ns key op (ap (λ n. record { name = n; namespace = ns }) same) named
            st.namespace h)
          λ creds op1 h1.
            Lands-bind (λ _ o. Unit {0} × IsHeld w key creds o) _
              (configure w crates cfg (is_some creds)) _ op1
              (Lands-both Any (IsHeld w key creds) (configure w crates cfg (is_some creds)) op1
                (configure-Runs w crates cfg ns st kept named full (is_some creds))
                (configure-Keeps (IsHeld w key creds) (λ o c _ k. k) w crates cfg (is_some creds))
                h1)
              λ _ op2 (_, h2).
                Lands-bind (λ _ o. Accepts creds × IsHeld w key creds o) _
                  (update_status w crates cfg ns name creds) _ op2
                  (Lands-both (λ _. Accepts creds) (IsHeld w key creds)
                    (update_status w crates cfg ns name creds) op2
                    (update_status-Runs cfg ns name creds)
                    (update_status-Keeps (IsHeld w key creds) (λ o c _ k. k) w crates cfg ns name
                      creds)
                    h2)
                  λ apps op3 (a, h3).
                    Lands-bind (λ _ _. Unit {0}) _ (start_services w crates cfg ns name apps) _ op3
                      (start_services-Lands w crates cfg ns name apps op3
                        (IsAccepted-IsHeld key creds op3 h3 a))
                      λ _ _ _. tt
      where
        key : NameNamespace
        key = record { name = name; namespace = ns }

  -- Suppose that the API server answers the read of the configuration with `cfg`, stored with its
  -- name, its namespace and its owner reference, that secrets have their names, that an image pull
  -- secret of `cfg` names a registry, that `merge_from` keeps a container's variables, and that
  -- async-nats accepts credentials stored earlier for `cfg`. Then `reconcile_crd` does not panic,
  -- whatever else the API server, NATS and wadm answer, and whatever is watched.
  pub panic-reconcile_crd :
      (config cfg : WasmCloudHostConfig) (ns : String) (op : Operator)
      → config.namespace ≡ some ns
      → w.host_config op.calls ns config.name_any ≡ reply cfg
      → cfg.name_any ≡ config.name_any
      → IsStored cfg ns
      → IsNaming w
      → HasRegistry w crates cfg
      → KeepsEnv crates
      → IsAccepted w (record { name = config.name_any; namespace = ns }) op
      → (reconcile_crd w crates config op).0 ≢ panic
  unfolding reconcile_crd ask
  panic-reconcile_crd config cfg ns op e r same st named full kept accepts =
      Lands-safe (λ _ _. Unit {0}) (reconcile_crd w crates config op)
        (rw (e, reconcile_crd)
          (rw r (
            rest-Lands cfg ns config.name_any st named full kept
              (record op { calls = get_host_config ns config.name_any ∷ op.calls }) same accepts)))
