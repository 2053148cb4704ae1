-- ===== src/Controller/Certificates.antt =====
-- The certificate authorities of `pod_template`, and the discovery of certificates, of
-- src/controller.rs.
use wasmcloud_operator.Base.{
  String, true, ◌&&◌, not, none, some, List, [], ◌∷◌, ◌++◌, if◌then◌else◌, ◌<>◌, is_empty, is_some,
  unwrap_or, ends_with,
}
use wasmcloud_operator.Base.Exec.{Exec, pure, fail, ◌>>=◌, fold_each}
use wasmcloud_operator.Kube.Pods.{Volume, VolumeMount}
use wasmcloud_operator.Kube.World.{get_secret, get_config_map, World, ask}
use wasmcloud_operator.Services.Types.{Operator}
use wasmcloud_operator.Controller.Types.{Error, certificate_error, kube}

-- The keys that end in ".crt", the loop of both discoveries.
unfoldable pub certificate_keys : {V : Type 0} → List (String × V) → List String
certificate_keys [] = []
certificate_keys ((key, _) ∷ more) =
    if ends_with key ".crt" then key ∷ certificate_keys more else certificate_keys more

-- The lists that the loop over the authorities extends.
pub record Mounts : Type 0 where
  pub volumes : List Volume
  pub volume_mounts : List VolumeMount
  pub args : List String

abbrev pub volume_name : Volume → String
volume_name authority = "ca-" <> authority.name

abbrev pub volume_path : Volume → String
volume_path authority = "/wasmcloud/certificates/" <> volume_name authority

-- `--tls-ca-path` for each item.
unfoldable pub ca_args : String → List String → List String
ca_args path [] = []
ca_args path (item ∷ items) = "--tls-ca-path" ∷ (path <> "/" <> item) ∷ ca_args path items

abbrev pub push_volume : Volume → Mounts → Mounts
push_volume v m = record m { volumes = m.volumes ++ v ∷ [] }

-- The mount and the arguments at the end of a round.
unfoldable pub mount : Volume → List String → Mounts → Mounts
unfolding ca_args
mount authority items m = record m {
  volume_mounts =
      m.volume_mounts
      ++ record {
        name = volume_name authority;
        mount_path = volume_path authority;
        read_only = some true;
        sub_path = none;
      }
        ∷ [];
  args = m.args ++ ca_args (volume_path authority) items;
}

-- How far a round has come: the items found, or `continue`.
pub data Progress : Type 0 where
  skipped : Mounts → Progress
  found : List String → Mounts → Progress

unfoldable pub finish : Volume → Progress → Mounts
unfolding mount
finish authority (skipped m) = m
finish authority (found items m) = mount authority items m

module _ {M : Type 0} (w : World M) where
  unfoldable pub discover_secret_certificates : String → String → Exec Error Operator (List String)
  unfolding certificate_keys
  discover_secret_certificates namespace name = do
    secret ← kube (ask (λ h. w.secret h namespace name) (get_secret namespace name))
    pure (certificate_keys (unwrap_or secret.values []))

  unfoldable pub discover_configmap_certificates :
      String → String → Exec Error Operator (List String)
  unfolding certificate_keys
  discover_configmap_certificates namespace name = do
    config_map ← kube (ask (λ h. w.config_map h namespace name) (get_config_map namespace name))
    pure (certificate_keys (unwrap_or config_map.values []))

  unfoldable pub secret_part : String → Volume → Mounts → Exec Error Operator Progress
  unfolding discover_secret_certificates
  secret_part namespace authority m = elim authority.secret [
    | none ↦ pure (found [] m)
    | some source ↦ elim source.secret_name [
      | none ↦
          fail (certificate_error ("Missing secret name for authority '" <> authority.name <> "'"))
      | some name ↦ do
        items ← discover_secret_certificates namespace name
        if is_empty items
            then pure (skipped m)
            else pure (
                found items (
                  push_volume
                    (record {
                      name = volume_name authority;
                      secret = some (record { secret_name = some name });
                      config_map = none;
                    })
                    m))
    ]
  ]

  unfoldable pub configmap_part :
      String → Volume → List String → Mounts → Exec Error Operator Progress
  unfolding discover_configmap_certificates
  configmap_part namespace authority before m = elim authority.config_map [
    | none ↦ pure (found before m)
    | some source ↦ elim source.name [
      | none ↦
          fail
            (certificate_error ("Missing configmap name for authority '" <> authority.name <> "'"))
      | some name ↦ do
        items ← discover_configmap_certificates namespace name
        if is_empty items
            then pure (skipped m)
            else pure (
                found items (
                  push_volume
                    (record {
                      name = volume_name authority;
                      secret = none;
                      config_map = some (record { name = some name });
                    })
                    m))
    ]
  ]

  unfoldable pub then_configmap : String → Volume → Progress → Exec Error Operator Mounts
  unfolding configmap_part finish
  then_configmap namespace authority (skipped m) = pure m
  then_configmap namespace authority (found items m) = do
    p ← configmap_part namespace authority items m
    pure (finish authority p)

  -- One round of the loop over the authorities.
  unfoldable pub add_authority : String → Mounts → Volume → Exec Error Operator Mounts
  unfolding secret_part then_configmap
  add_authority namespace m authority =
      if not (is_some authority.secret) && not (is_some authority.config_map)
      then fail (certificate_error ("'" <> authority.name <> "' has to be a Configmap or Secret"))
      else (do p ← secret_part namespace authority m; then_configmap namespace authority p)

  unfoldable pub add_authorities : String → Mounts → List Volume → Exec Error Operator Mounts
  unfolding add_authority fold_each
  add_authorities namespace = fold_each (add_authority namespace)
