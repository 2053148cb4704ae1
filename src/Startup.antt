-- ===== src/Startup.antt =====
-- `install_crd` of src/main.rs: the custom resource definition and the registration of the API, at the
-- start of the operator.
pub mod Installed
pub mod Main
pub mod Launched
use wasmcloud_operator.Base.{
  ℕ, String, Bool, true, Option, none, some, List, ◌∷◌, if◌then◌else◌, ◌<>◌, unwrap_or,
}
use wasmcloud_operator.Base.Outcome.{ok}
use wasmcloud_operator.Base.Exec.{Exec, unwrap, ◌>>=◌, ◌>>◌, map_err, pure}
use wasmcloud_operator.Kube.World.{ApplyParams, Reply, reply, failed, of_reply}

-- `OperatorConfig` of src/config.rs.
pub record OperatorConfig : Type 0 where
  pub stream_replicas : ℕ

-- The value of a field that the configuration leaves out.
abbrev pub default_stream_replicas : ℕ
default_stream_replicas = 1

-- `APIService` of k8s-openapi, with the fields that are set.
pub record ApiService : Type 0 where
  pub name : Option String
  pub resource_version : Option String
  pub group : Option String
  pub group_priority_minimum : ℕ
  pub insecure_skip_tls_verify : Option Bool
  pub version_priority : ℕ
  pub version : Option String
  pub service_name : Option String
  pub service_namespace : Option String
  pub service_port : Option ℕ

abbrev pub registration_name : String
registration_name = "v1beta1.core.oam.dev"

unfoldable pub registration : String → Option String → ApiService
registration namespace resource_version = record {
  name = some registration_name;
  resource_version = resource_version;
  group = some "core.oam.dev";
  group_priority_minimum = 2100;
  insecure_skip_tls_verify = some true;
  version_priority = 100;
  version = some "v1beta1";
  service_name = some "wadm-operator";
  service_namespace = some namespace;
  service_port = some 8443;
}

-- The calls, with the definition `Crd` that kube derives.
pub data InstallCall (Crd : Type 0) : Type 0 where
  get_crd : String → InstallCall Crd
  patch_crd : String → ApplyParams → Crd → InstallCall Crd
  create_crd : Crd → InstallCall Crd
  get_registration : String → InstallCall Crd
  replace_registration : String → ApiService → InstallCall Crd
  create_registration : ApiService → InstallCall Crd

-- The API server, by any function of the calls before, newest first; the name of a definition and
-- the inequality of two; and the environment variable POD_NAMESPACE.
pub record Installer (Crd : Type 0) : Type 0 where
  pub crd_name : Crd → Option String
  pub differs : Crd → Crd → Bool
  pub pod_namespace : Option String
  pub found : List (InstallCall Crd) → String → Reply Crd
  pub written : List (InstallCall Crd) → InstallCall Crd → Reply (Unit {0})
  -- The resource version of the registration that is there.
  pub registered : List (InstallCall Crd) → String → Reply (Option String)

module _ {Crd : Type 0} (i : Installer Crd) where
  abbrev pub Install : Type 0 → Type 0
  Install A = Exec String (List (InstallCall Crd)) A

  unfoldable pub write : InstallCall Crd → Install (Unit {0})
  write call calls = (of_reply (i.written calls call), call ∷ calls)

  -- The definition is updated if one is there that differs, and created if none can be read.
  unfoldable pub write_crd : String → Crd → Reply Crd → Install (Unit {0})
  unfolding write
  write_crd name crd (reply old) =
      if i.differs old crd
      then write (
          patch_crd name (record { field_manager = "application/apply-patch+yaml"; force = true })
            crd)
      else pure tt
  write_crd name crd (failed e) =
      map_err (λ e'. "failed to create crd: " <> e') (write (create_crd crd))

  unfoldable pub put_crd : String → Crd → Install (Unit {0})
  unfolding write_crd
  put_crd name crd calls = write_crd name crd (i.found calls name) (get_crd name ∷ calls)

  abbrev pub served_from : String
  served_from = unwrap_or i.pod_namespace "default"

  -- A registration that is there is replaced, and must have a resource version.
  unfoldable pub write_registration : Reply (Option String) → Install (Unit {0})
  unfolding registration write
  write_registration (reply old) = do
    v ← unwrap old
    write (replace_registration registration_name (registration served_from (some v)))
  write_registration (failed e) =
      map_err (λ e'. "failed to create registration: " <> e')
        (write (create_registration (registration served_from none)))

  unfoldable pub register : Install (Unit {0})
  unfolding write_registration
  register calls =
      write_registration (i.registered calls registration_name)
        (get_registration registration_name ∷ calls)

  unfoldable pub install_crd : Crd → Install (Unit {0})
  unfolding put_crd register
  install_crd crd = do name ← unwrap (i.crd_name crd); put_crd name crd; register
