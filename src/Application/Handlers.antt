-- ===== src/Application/Handlers.antt =====
-- The handlers of one application of src/resources/application.rs.
pub mod Described
pub mod Patching
use wasmcloud_operator.Base.{ℕ, String, Bool, Option, none, some, List, [], ◌∷◌, ◌<>◌, unwrap_or}
use wasmcloud_operator.Base.BTreeMap
use wasmcloud_operator.Base.Outcome.{Outcome, ok, err, panic}
use wasmcloud_operator.Base.Exec.{Exec, pure, fail, lift, unwrap, ◌>>=◌, ◌>>◌, map_err, map_error}
use wasmcloud_operator.Json.{
  Value, null, bool, number, text, array, object, Fields, end, field, assign,
}
use wasmcloud_operator.HostConfig.{WasmCloudHostConfig}
use wasmcloud_operator.Kube.World.{
  Call, get_manifest, get_manifest_status, delete_manifest, put_manifest, NatsClient, World, Reply,
  reply, failed, of_reply, ClientError, not_found, other_error, Answer, answer, refused, ask_wadm,
  Status,
}
use wasmcloud_operator.Manifest.Types.{Manifest}
use wasmcloud_operator.Services.Types.{Operator}
use wasmcloud_operator.Services.Watch.{on_calls}
use wasmcloud_operator.Controller.Types.{Crates}
use wasmcloud_operator.Header.{
  As, table, not_specified, api_group_discovery_list, partial_object_metadata_list, as_to_string,
}
use wasmcloud_operator.Http.{
  Response, internal_error, not_found_error, success, application, application_table, value,
}
use wasmcloud_operator.Application.Types.{
  new_application, CombinedManifest, table_of_manifests, status_text,
}
use wasmcloud_operator.Application.Patch.{patched}
use wasmcloud_operator.Application.Listing.{Handler, kube_client, configs_in}
use wasmcloud_operator.Application.Connection.{get_lattice_connection}

-- Functions of serde_json, json_patch, uuid and wadm_types. A body is the text of its bytes.
pub record Serde : Type 0 where
  pub manifest_of_body : String → Reply Manifest
  pub value_of_body : String → Reply Value
  pub to_value : Manifest → Value
  pub from_value : Value → Reply Manifest
  pub merge : Value → Value → Value
  pub version : Manifest → String
  pub new_v5 : String → String

-- `return not_found_error(…)` for `ClientError::NotFound`, `return internal_error(…)` otherwise.
unfoldable pub client_response : String → String → ClientError → Response
unfolding internal_error not_found_error
client_response missing prefix (not_found e) = not_found_error missing
client_response missing prefix (other_error e) = internal_error (prefix <> e)

abbrev pub quoted_missing : String → String
quoted_missing name = "applications \"" <> name <> "\" not found"

-- The JSON of an application that `get_application` answers; `none` for a panic of `IndexMut`.
unfoldable pub described : Serde → String → String → Manifest → Status → Option Value
unfolding assign
described s namespace name manifest status =
    let uid = text (s.new_v5 (name <> "/" <> s.version manifest)) in
    elim (assign ("metadata" ∷ "uid" ∷ []) uid (s.to_value manifest)) [
      | none ↦ none
      | some a ↦ elim (assign ("metadata" ∷ "resourceVersion" ∷ []) uid a) [
        | none ↦ none
        | some b ↦ elim (assign ("metadata" ∷ "namespace" ∷ []) (text namespace) b) [
          | none ↦ none
          | some c ↦
              elim (assign ("metadata" ∷ "labels" ∷ [])
                (object (field "app.kubernetes.io/instance" (text name) end)) c) [
                  | none ↦ none
                  | some d ↦
                      assign ("status" ∷ [])
                        (object (field "phase" (text (status_text status.status_type)) end)) d
                ]
        ]
      ]
    ]

module _ (w : World Manifest) (crates : Crates) (s : Serde) where
  -- The part that the handlers of one application share: a client of the lattice.
  unfoldable pub connect_lattice : String → String → Handler (NatsClient × String)
  unfolding kube_client configs_in get_lattice_connection
  connect_lattice message namespace = do
    kube_client w
    configs ← configs_in w message namespace
    get_lattice_connection w crates namespace configs

  abbrev pub wadm :
      {A : Type 0} → (ClientError → Response) → Exec ClientError (List Call) A → Handler A
  wadm f m op = let (r, calls) = m op.calls in (map_error f r, record op { calls = calls })

  -- `put_and_deploy_manifest`
  unfoldable pub deploy : String → Manifest → Exec ClientError (List Call) (String × String)
  deploy lattice_id manifest =
      ask_wadm (λ h. w.put h lattice_id manifest) (put_manifest lattice_id (s.to_value manifest))

  unfoldable pub create_application : String → String → Handler Response
  unfolding connect_lattice deploy new_application internal_error
  create_application namespace body = do
    connection ← connect_lattice "Unable to list cosmonic host configs: " namespace
    manifest ← lift (
        map_error (λ e. internal_error ("unable to decode the patch: " <> e))
          (of_reply (s.manifest_of_body body)))
    done ←
        wadm
          (elim [
            | not_found e ↦ internal_error ("could not deploy app: " <> e)
            | other_error e ↦ internal_error ("could not deploy app: " <> e)
          ])
          (deploy connection.1 manifest)
    pure (success (application (new_application done.0)))

  -- The end of `get_application`, by the kind of response that was asked for.
  unfoldable pub represented : As → String → String → Manifest → Status → Handler Response
  unfolding table_of_manifests described internal_error as_to_string
  represented table namespace name manifest status = pure (
      success (
        application_table
          (table_of_manifests (record { manifest = manifest; status = status } ∷ []))))
  represented not_specified namespace name manifest status = do
    v ← unwrap (described s namespace name manifest status)
    pure (success (value v))
  represented api_group_discovery_list namespace name manifest status =
      fail (internal_error ("unknown type: " <> as_to_string api_group_discovery_list))
  represented partial_object_metadata_list namespace name manifest status =
      fail (internal_error ("unknown type: " <> as_to_string partial_object_metadata_list))

  unfoldable pub get_application : As → String → String → Handler Response
  unfolding connect_lattice client_response represented
  get_application accept namespace name = do
    connection ← connect_lattice "unable to list cosmonic host configs: " namespace
    manifest ←
        wadm (client_response (quoted_missing name) "unable to request app from wadm: ") (
          ask_wadm (λ h. w.manifest h connection.1 name none) (get_manifest connection.1 name none))
    status ←
        wadm (client_response (quoted_missing name) "unable to request app status from wadm: ") (
          ask_wadm (λ h. w.manifest_status h connection.1 name)
            (get_manifest_status connection.1 name))
    represented accept namespace name manifest status

  unfoldable pub patch_application : String → String → String → Handler Response
  unfolding connect_lattice client_response patched deploy new_application internal_error
  patch_application namespace name body = do
    connection ← connect_lattice "unable to list cosmonic host configs: " namespace
    current ←
        wadm (client_response (quoted_missing name) "unable to request app from wadm: ") (
          ask_wadm (λ h. w.manifest h connection.1 name none) (get_manifest connection.1 name none))
    patch ← lift (
        map_error (λ e. internal_error ("unable to decode the patch: " <> e))
          (of_reply (s.value_of_body body)))
    updated ← lift (
        map_error (λ e. internal_error ("unable to patch the application: " <> e))
          (of_reply (s.from_value (patched s.merge (s.to_value current) patch))))
    done ←
        wadm (client_response (quoted_missing name) "could not update application: ")
          (deploy connection.1 updated)
    pure (success (application (new_application done.0)))

  unfoldable pub delete_application : String → String → Handler Response
  unfolding connect_lattice client_response new_application
  delete_application namespace name = do
    connection ← connect_lattice "unable to list cosmonic host configs: " namespace
    wadm (client_response ("apps \"" <> name <> "\" not found") "could not delete app: ")
        (ask_wadm (λ h. w.deleted_manifest h connection.1 name) (delete_manifest connection.1 name))
    pure (success (application (new_application name)))
