-- ===== src/Controller/Registry.antt =====
-- The check of the image pull secret in `configure_hosts` of src/controller.rs.
use wasmcloud_operator.Base.{
  ℕ, String, ◌≡◌, ◌↔◌, refl, List, [], ◌∷◌, some, length, arith, ltb, true,
}
use wasmcloud_operator.Base.Outcome.{Outcome, ok, panic}
use wasmcloud_operator.Kube.Objects.{Secret}
use wasmcloud_operator.Kube.Pods.{EnvVar}
use wasmcloud_operator.Kube.World.{World, reply}
use wasmcloud_operator.Services.Types.{Operator}
use wasmcloud_operator.Controller.Types.{Error, Crates, from_secret, DockerConfigJson}
use wasmcloud_operator.Controller.Apply.{checked_registry, registry_env}

-- What becomes of a secret with this many registries.
abbrev pub IsVerdict : ℕ → Outcome Error (List EnvVar) → Type 0
IsVerdict entries r =
    (((vars : List EnvVar) × (r ≡ ok vars)) ↔ (entries ≡ 1)) × ((r ≡ panic) ↔ (entries ≡ 0))

module _ {M : Type 0} (w : World M) (crates : Crates) where
  verdict :
      (secret : Secret) (auths : _) (name : String) (op : Operator)
      → from_secret crates secret ≡ reply (record { auths = auths })
      → secret.metadata.name ≡ some name
      → IsVerdict (length auths) (checked_registry w crates secret op).0
  unfolding checked_registry registry_env
  verdict secret [] name op e n =
      rw (e, checked_registry) ((λ (_, h). cc, λ h. cc), (λ _. refl, λ _. refl))
  verdict secret (a ∷ []) name op e n =
      rw (e, checked_registry) ((λ _. refl, λ _. (_, refl)), (λ h. cc, λ h. cc))
  verdict secret (a ∷ b ∷ more) name op e n =
      let many : ltb 1 (length (a ∷ b ∷ more)) ≡ true = ground arith in
      rw (e, n, many, checked_registry)
        (
          (λ (_, h). cc, λ h. absurd (ground (arith, h))),
          (λ h. cc, λ h. absurd (ground (arith, h))),
        )

  -- A secret of a known name that holds a DockerConfigJson is accepted exactly if it names one
  -- registry; the operator panics exactly if it names none.
  pub checked_registry-IsVerdict :
      (secret : Secret) (config : DockerConfigJson) (name : String) (op : Operator)
      → from_secret crates secret ≡ reply config
      → secret.metadata.name ≡ some name
      → IsVerdict (length config.auths) (checked_registry w crates secret op).0
  checked_registry-IsVerdict secret config name op e n = verdict secret config.auths name op e n
