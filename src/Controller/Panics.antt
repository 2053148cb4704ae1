-- ===== src/Controller/Panics.antt =====
-- The panics of src/controller.rs: the code that makes the pods of a configuration has none, under
-- conditions on what the API server and the configuration hold.
pub mod Objects
pub mod Connection
pub mod Whole
use wasmcloud_operator.Base.{
  String, ◌≡◌, ◌≢◌, refl, Bool, true, false, Option, none, some, List, [], ◌∷◌, ◌++◌, is_some,
  is_empty, unwrap_or, Option-cases, inl, inr, if◌then◌else◌, All,
}
use wasmcloud_operator.Base.Outcome.{Outcome, ok, err, panic}
use wasmcloud_operator.Base.Exec.{Exec, pure, fail, unwrap, ◌>>=◌, map_err, map_error, fold_each}
use wasmcloud_operator.Base.Runs.{
  Sound, Runs, Any, Runs-pure, Runs-if, Runs-unwrap, Runs-bind, Runs-fold_each,
}
use wasmcloud_operator.HostConfig.{WasmCloudHostConfig}
use wasmcloud_operator.Kube.Objects.{Secret}
use wasmcloud_operator.Kube.Pods.{Volume, EnvVar, Container, PodTemplateSpec}
use wasmcloud_operator.Kube.World.{
  World, Call, Reply, reply, failed, Net, ask, of_reply, get_secret, get_config_map,
}
use wasmcloud_operator.Services.Types.{Operator}
use wasmcloud_operator.Services.Watch.{on_calls}
use wasmcloud_operator.Controller.Types.{
  Error, Crates, kube, kube_error, from_secret, DockerConfigJson,
}
use wasmcloud_operator.Controller.Certificates.{
  Mounts, Progress, skipped, found, add_authority, add_authorities, secret_part, configmap_part,
  then_configmap, discover_secret_certificates, discover_configmap_certificates,
}

module _ {E A : Type 0} (Q : A → Type 0) where
  Sound-reply :
      (f : String → E) (r : Reply A)
      → ((a : A) → r ≡ reply a → Q a)
      → Sound Q (map_error f (of_reply r))
  Sound-reply f (reply a) h = h a refl
  Sound-reply f (failed e) h = tt

  -- A call: an answer has what all answers to such calls have.
  pub ask_gives :
      (f : String → E) (g : List Call → Reply A) (call : Call)
      → ((calls : List Call) (a : A) → g calls ≡ reply a → Q a)
      → Runs Q (map_err f (on_calls (ask g call)))
  unfolding ask
  ask_gives f g call h = record { from = λ op. Sound-reply f (g op.calls) (h op.calls) }

  pub Runs-fail : (e : E) → Runs {S = Operator} Q (fail e)
  Runs-fail e = record { from = λ op. tt }

module _ {A : Type 0} where
  pub Runs-ask :
      {E : Type 0} (f : String → E) (g : List Call → Reply A) (call : Call)
      → Runs Any (map_err f (on_calls (ask g call)))
  Runs-ask f g call = ask_gives Any f g call (λ calls a e. tt)

All-Any : {A : Type 0} (xs : List A) → All Any xs
All-Any [] = tt
All-Any (x ∷ xs) = (tt, All-Any xs)

module _ {M : Type 0} (w : World M) where
  secret_part-Runs : (n : String) (a : Volume) (m : Mounts) → Runs Any (secret_part w n a m)
  unfolding secret_part discover_secret_certificates
  secret_part-Runs n a m = elim (Option-cases a.secret) [
    | inl e ↦ rw (e, secret_part) (Runs-pure _ tt)
    | inr (source, e) ↦ elim (Option-cases source.secret_name) [
      | inl f ↦ rw (e, f, secret_part) (Runs-fail Any _)
      | inr (name, f) ↦
          rw (e, f, secret_part)
            (Runs-bind Any (discover_secret_certificates w n name) _
              (Runs-bind Any (kube (ask (λ h. w.secret h n name) (get_secret n name))) _
                (Runs-ask kube_error (λ h. w.secret h n name) (get_secret n name))
                λ secret _. Runs-pure _ tt)
              λ items _. Runs-if (is_empty items) _ _ (Runs-pure _ tt) (Runs-pure _ tt))
    ]
  ]

  configmap_part-Runs :
      (n : String) (a : Volume) (before : List String) (m : Mounts)
      → Runs Any (configmap_part w n a before m)
  unfolding configmap_part discover_configmap_certificates
  configmap_part-Runs n a before m = elim (Option-cases a.config_map) [
    | inl e ↦ rw (e, configmap_part) (Runs-pure _ tt)
    | inr (source, e) ↦ elim (Option-cases source.name) [
      | inl f ↦ rw (e, f, configmap_part) (Runs-fail Any _)
      | inr (name, f) ↦
          rw (e, f, configmap_part)
            (Runs-bind Any (discover_configmap_certificates w n name) _
              (Runs-bind Any (kube (ask (λ h. w.config_map h n name) (get_config_map n name))) _
                (Runs-ask kube_error (λ h. w.config_map h n name) (get_config_map n name))
                λ config_map _. Runs-pure _ tt)
              λ items _. Runs-if (is_empty items) _ _ (Runs-pure _ tt) (Runs-pure _ tt))
    ]
  ]

  then_configmap-Runs : (n : String) (a : Volume) (p : Progress) → Runs Any (then_configmap w n a p)
  unfolding then_configmap
  then_configmap-Runs n a (skipped m) = Runs-pure m tt
  then_configmap-Runs n a (found items m) =
      Runs-bind Any (configmap_part w n a items m) _ (configmap_part-Runs n a items m)
        λ p _. Runs-pure _ tt

  add_authority-Runs : (n : String) (m : Mounts) (a : Volume) → Runs Any (add_authority w n m a)
  unfolding add_authority
  add_authority-Runs n m a = Runs-if _ _ _ (Runs-fail Any _) (
      Runs-bind Any (secret_part w n a m) _ (secret_part-Runs n a m)
        λ p _. then_configmap-Runs n a p)

  pub add_authorities-Runs :
      (n : String) (m : Mounts) (authorities : List Volume)
      → Runs Any (add_authorities w n m authorities)
  unfolding add_authorities
  add_authorities-Runs n m authorities =
      Runs-fold_each Any (add_authority w n) (λ m' a _. add_authority-Runs n m' a) m authorities
        (All-Any authorities)
