-- ===== src/Startup/Launched.antt =====
-- `main` of src/main.rs: what is in the cluster when the server and the controller start.
use wasmcloud_operator.Base.{
  ◌≡◌, refl, true, false, none, some, any, inl, inr, Bool-cases, String, ◌<>◌, arith,
}
use wasmcloud_operator.Base.Outcome.{Outcome, ok, err, panic}
use wasmcloud_operator.Base.Exec.{Exec, lift, continue, map_error, ◌>>=◌}
use wasmcloud_operator.Base.Keeps.{Keeps, Keeps-bind, Keeps-pure, Keeps-lift}
use wasmcloud_operator.Kube.World.{of_reply, reply}
use wasmcloud_operator.Services.Types.{Operator}
use wasmcloud_operator.Startup.{OperatorConfig, Installer, install_crd}
use wasmcloud_operator.Startup.Installed.{IsRegistered, install_crd-IsRegistered}
use wasmcloud_operator.Startup.Main.{
  new_state, context, Process, Machine, controller_finished, configured, launch, main, installing,
  is_version_flag, spawn_server, run_controller, shut_down_server,
}

module _ {Crd : Type 0} (p : Process) (i : Installer Crd) (crd : Crd) where
  -- The controller is run in the state of a new operator with the configuration that is parsed.
  abbrev pub IsFresh : Operator → Type 0
  IsFresh op =
      (config : OperatorConfig) × (p.parsed ≡ reply config) × (op ≡ context (new_state config))

  abbrev pub StartsFresh : Machine Crd → Type 0
  StartsFresh s = (op : Operator) → s.controlled ≡ some op → IsFresh op

  -- If the server has been spawned, the API is registered.
  abbrev pub IsLaunched : Machine Crd → Type 0
  IsLaunched s = (s.serving ≡ true → IsRegistered i crd s.calls) × StartsFresh s

  -- The server has not been spawned, and the controller has not been run.
  abbrev pub IsQuiet : Machine Crd → Type 0
  IsQuiet s = (s.serving ≡ false) × (s.controlled ≡ none)

  IsLaunched-IsQuiet : (s : Machine Crd) → IsQuiet s → IsLaunched s
  IsLaunched-IsQuiet s (q, c) = ((λ k. cc), (λ op k. cc))

  -- The part after `install_crd` keeps the calls of `install_crd`.
  launch-Keeps :
      (config : OperatorConfig)
      → p.parsed ≡ reply config
      → Keeps (λ s. IsRegistered i crd s.calls × StartsFresh s) (launch p i crd (new_state config))
  unfolding launch
  launch-Keeps config e = Keeps-bind _ _ (Keeps-lift (of_reply p.certificate)) λ _.
      Keeps-bind (spawn_server p i crd) _ (record { after = λ s h. h })
        λ _.
          Keeps-bind (run_controller p i crd (new_state config)) _
            (record { after = λ s (h, _). (h, λ op k. (config, e, cc)) })
            λ _.
              Keeps-bind (shut_down_server p i crd) _ (record { after = λ s h. h })
                λ _. Keeps-pure controller_finished

  after_install :
      (config : OperatorConfig) (s : Machine Crd) (r : Outcome String (Unit {0}))
      → p.parsed ≡ reply config
      → (install_crd i crd s.calls).0 ≡ r
      → IsQuiet s
      → IsLaunched
          (continue r
            (λ _. launch p i crd (new_state config))
            (installing p i crd (install_crd i crd) s).1).1
  after_install config s (ok _) f e (q, c) =
      let (h, k) =
        (launch-Keeps config f).after (installing p i crd (install_crd i crd) s).1
          (install_crd-IsRegistered i crd s.calls e, λ op x. cc) in
      ((λ _. h), k)
  after_install config s (err m) f e q =
      IsLaunched-IsQuiet (installing p i crd (install_crd i crd) s).1 q
  after_install config s panic f e q =
      IsLaunched-IsQuiet (installing p i crd (install_crd i crd) s).1 q

  configured-Keeps : Keeps IsQuiet (configured p i crd)
  unfolding configured
  configured-Keeps = Keeps-bind _ _ (Keeps-lift (of_reply p.tracing)) λ _.
      Keeps-bind _ _
        (Keeps-lift (map_error (λ e. "Failed to build config: " <> e) (of_reply p.built)))
        λ _. Keeps-lift (map_error (λ e. "Failed to parse config: " <> e) (of_reply p.parsed))

  parsed-configured :
      (s : Machine Crd) (config : OperatorConfig)
      → (configured p i crd s).0 ≡ ok config
      → p.parsed ≡ reply config
  unfolding configured
  parsed-configured s config h = ground (arith, h)

  IsLaunched-bind :
      {A B : Type 0} (m : Exec String (Machine Crd) A) (f : A → Exec String (Machine Crd) B)
      (s : Machine Crd)
      → Keeps IsQuiet m
      → IsQuiet s
      → ((a : A) (t : Machine Crd) → (m s).0 ≡ ok a → IsQuiet t → IsLaunched (f a t).1)
      → IsLaunched ((m >>= f) s).1
  IsLaunched-bind {A = A} m f s k q h = go (m s).0 (m s).1 refl (k.after s q)
    where
      go :
          (r : Outcome String A) (t : Machine Crd)
          → (m s).0 ≡ r
          → IsQuiet t
          → IsLaunched (continue r f t).1
      go (ok a) t e q' = h a t e q'
      go (err e) t _ q' = IsLaunched-IsQuiet t q'
      go panic t _ q' = IsLaunched-IsQuiet t q'

  -- Suppose that the server has not been spawned and the controller has not been run. If `main`
  -- spawns the server, then the custom resource definition is the wanted one or has been written,
  -- and the API has been registered after that, whatever becomes of `main` then; if it runs the
  -- controller, then in the state of a new operator with the configuration that was parsed. With a
  -- flag for the version `main` does nothing.
  pub main-IsLaunched :
      (s : Machine Crd)
      → s.serving ≡ false
      → s.controlled ≡ none
      → IsLaunched (main p i crd s).1 × (any is_version_flag p.args ≡ true → (main p i crd s).1 ≡ s)
  unfolding main
  main-IsLaunched s q c = elim (Bool-cases (any is_version_flag p.args)) [
    | inl e ↦ rw (e, main) (IsLaunched-IsQuiet s (q, c), λ _. refl)
    | inr e ↦ (
      rw (e, main)
          (IsLaunched-bind (configured p i crd) _ s configured-Keeps (q, c)
            λ config t h q'.
              IsLaunched-bind (lift (of_reply p.client)) _ t (Keeps-lift (of_reply p.client)) q'
                λ _ t' _ q''.
                  after_install config t' (install_crd i crd t'.calls).0
                    (parsed-configured s config h) refl q''),
      λ f. absurd (ground (arith, e, f)),
    )
  ]
