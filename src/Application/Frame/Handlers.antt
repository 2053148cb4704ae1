-- ===== src/Application/Frame/Handlers.antt =====
-- What the handlers of src/resources/application.rs leave as it was: the handlers.
use wasmcloud_operator.Base.{◌∷◌, ◌<>◌, String, ◌≡◌, refl, true, none}
use wasmcloud_operator.Base.Keeps.{
  Keeps, Keeps-lift, Keeps-bind, Keeps-pure, Keeps-unwrap, Keeps-fold_each,
}
use wasmcloud_operator.HostConfig.{WasmCloudHostConfig}
use wasmcloud_operator.Kube.World.{
  of_reply, Call, get_manifest, get_manifest_status, delete_manifest, ClientError, Answer, ask_wadm,
  list_all_host_configs, World, Status,
}
use wasmcloud_operator.Manifest.Types.{Manifest}
use wasmcloud_operator.Services.Types.{name_namespace_key, Operator}
use wasmcloud_operator.Controller.Types.{Crates}
use wasmcloud_operator.Application.Listing.{
  Listing, list_in, list_anywhere, list_applications, list_all_applications, Encoder,
}
use wasmcloud_operator.Services.Frame.{is_read, with_calls, Keeps-request, Undisturbed}
use wasmcloud_operator.Application.Frame.{
  kube_client-Keeps, configs_in-Keeps, list_round-Keeps, get_lattice_connection-Keeps, Response,
  List, Call,
}
use wasmcloud_operator.Application.Handlers.{
  Serde, connect_lattice, represented, get_application, create_application, patch_application,
  delete_application, deploy, wadm,
}
use wasmcloud_operator.Base.Exec.{map_error}
use wasmcloud_operator.Http.{internal_error}
use wasmcloud_operator.Application.Patch.{patched}
use wasmcloud_operator.Header.{
  As, table, not_specified, api_group_discovery_list, partial_object_metadata_list,
}

module _ (P : Operator → Type 0) (r : Undisturbed (λ c. is_read c ≡ true) P) (w : World Manifest)
    (crates : Crates) where
  list_in-Keeps :
      (namespace : String) (b : Listing) (cfg : WasmCloudHostConfig)
      → Keeps P (list_in w crates namespace b cfg)
  unfolding list_in
  list_in-Keeps namespace b cfg =
      Keeps-bind _ _ (Keeps-unwrap cfg.name) λ name. list_round-Keeps P r w crates b cfg _

  list_anywhere-Keeps :
      (b : Listing) (cfg : WasmCloudHostConfig) → Keeps P (list_anywhere w crates b cfg)
  unfolding list_anywhere
  list_anywhere-Keeps b cfg = Keeps-bind _ _ (Keeps-unwrap cfg.name) λ name.
      Keeps-bind _ _ (Keeps-unwrap cfg.namespace) λ namespace. list_round-Keeps P r w crates b cfg _

  pub list_applications-Keeps :
      (e : Encoder) (accept : As) (namespace : String)
      → Keeps P (list_applications w crates e accept namespace)
  unfolding list_applications
  list_applications-Keeps e accept namespace = Keeps-bind _ _ (kube_client-Keeps P r w) λ _.
      Keeps-bind _ _ (configs_in-Keeps P r w _ namespace) λ configs.
        Keeps-bind _ _
          (Keeps-fold_each (list_in w crates namespace) (list_in-Keeps namespace) _ configs)
          λ l. Keeps-pure _

  pub list_all_applications-Keeps :
      (e : Encoder) (accept : As) → Keeps P (list_all_applications w crates e accept)
  unfolding list_all_applications
  list_all_applications-Keeps e accept = Keeps-bind _ _ (kube_client-Keeps P r w) λ _.
      Keeps-bind _ _ (Keeps-request P r _ _ list_all_host_configs refl) λ configs.
        Keeps-bind _ _ (Keeps-fold_each (list_anywhere w crates) list_anywhere-Keeps _ configs)
          λ l. Keeps-pure _

  module _ (s : Serde) where
    Keeps-wadm :
        {A : Type 0} (f : ClientError → Response) (g : List Call → Answer A) (call : Call)
        → ((op : Operator) → P op → P (with_calls op (call ∷ op.calls)))
        → Keeps P (wadm w crates s f (ask_wadm g call))
    unfolding ask_wadm
    Keeps-wadm f g call k = record { after = k }

    connect_lattice-Keeps :
        (message namespace : String) → Keeps P (connect_lattice w crates s message namespace)
    unfolding connect_lattice
    connect_lattice-Keeps message namespace = Keeps-bind _ _ (kube_client-Keeps P r w) λ _.
        Keeps-bind _ _ (configs_in-Keeps P r w message namespace)
          λ configs. get_lattice_connection-Keeps P r w crates namespace configs

    represented-Keeps :
        (accept : As) (namespace name : String) (manifest : Manifest) (status : Status)
        → Keeps P (represented w crates s accept namespace name manifest status)
    unfolding represented
    represented-Keeps table namespace name manifest status = record { after = λ op h. h }
    represented-Keeps not_specified namespace name manifest status =
        Keeps-bind _ _ (Keeps-unwrap _) λ v. Keeps-pure _
    represented-Keeps api_group_discovery_list namespace name manifest status = record {
      after = λ op h. h;
    }
    represented-Keeps partial_object_metadata_list namespace name manifest status = record {
      after = λ op h. h;
    }

    pub get_application-Keeps :
        (accept : As) (namespace name : String)
        → Keeps P (get_application w crates s accept namespace name)
    unfolding get_application
    get_application-Keeps accept namespace name =
        Keeps-bind _ _ (connect_lattice-Keeps _ namespace) λ connection.
          Keeps-bind _ _
            (Keeps-wadm _ _ (get_manifest connection.1 name none) λ op h. r op _ refl h)
            λ manifest.
              Keeps-bind _ _
                (Keeps-wadm _ _ (get_manifest_status connection.1 name) λ op h. r op _ refl h)
                λ status. represented-Keeps accept namespace name manifest status

    module _ (u : Undisturbed (λ _. Unit {0}) P) where
      pub create_application-Keeps :
          (namespace body : String) → Keeps P (create_application w crates s namespace body)
      unfolding create_application deploy
      create_application-Keeps namespace body =
          Keeps-bind _ _ (connect_lattice-Keeps _ namespace) λ connection.
            Keeps-bind _ _ (Keeps-lift _)
              λ manifest. Keeps-bind _ _ (Keeps-wadm _ _ _ λ op h. u op _ tt h) λ done. Keeps-pure _

      pub patch_application-Keeps :
          (namespace name body : String)
          → Keeps P (patch_application w crates s namespace name body)
      unfolding patch_application deploy
      patch_application-Keeps namespace name body =
          Keeps-bind _ _ (connect_lattice-Keeps _ namespace) λ connection.
            Keeps-bind _ _
              (Keeps-wadm _ _ (get_manifest connection.1 name none) λ op h. u op _ tt h)
              λ current.
                Keeps-bind _ _
                  (Keeps-lift (
                    map_error (λ e. internal_error ("unable to decode the patch: " <> e))
                      (of_reply (s.value_of_body body))))
                  λ sent.
                    Keeps-bind _ _
                      (Keeps-lift (
                        map_error (λ e. internal_error ("unable to patch the application: " <> e))
                          (of_reply (s.from_value (patched s.merge (s.to_value current) sent)))))
                      λ updated.
                        Keeps-bind _ _ (Keeps-wadm _ _ _ λ op h. u op _ tt h) λ done. Keeps-pure _

      pub delete_application-Keeps :
          (namespace name : String) → Keeps P (delete_application w crates s namespace name)
      unfolding delete_application
      delete_application-Keeps namespace name =
          Keeps-bind _ _ (connect_lattice-Keeps _ namespace) λ connection.
            Keeps-bind _ _ (Keeps-wadm _ _ (delete_manifest connection.1 name) λ op h. u op _ tt h)
              λ _. Keeps-pure _
