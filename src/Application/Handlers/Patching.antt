-- ===== src/Application/Handlers/Patching.antt =====
-- What `patch_application` of src/resources/application.rs puts into wadm.
use wasmcloud_operator.Application.Patch.Change.{IsChanged, patched-IsChanged}
use wasmcloud_operator.Base.{String, ◌≡◌, ◌∙◌, sym, ap, none, List, ◌∷◌, ◌<>◌}
use wasmcloud_operator.Base.Outcome.{ok}
use wasmcloud_operator.Base.Exec.{lift, map_error}
use wasmcloud_operator.Base.Keeps.{bind_ok}
use wasmcloud_operator.Json.{Value}
use wasmcloud_operator.Kube.World.{
  Call, get_manifest, put_manifest, NatsClient, World, Reply, reply, failed, of_reply, ClientError,
  Answer, answer, refused, of_answer, ask_wadm,
}
use wasmcloud_operator.Manifest.Types.{Manifest}
use wasmcloud_operator.Services.Types.{Operator}
use wasmcloud_operator.Controller.Types.{Crates}
use wasmcloud_operator.Http.{Response, internal_error}
use wasmcloud_operator.Application.Patch.{patched, stripped}
use wasmcloud_operator.Application.Listing.{Handler}
use wasmcloud_operator.Application.Handlers.{
  Serde, wadm, deploy, connect_lattice, client_response, quoted_missing, patch_application,
}

-- The calls end with the manifest that is read and the one that is put. This is read from a value
-- that is the value of the former with the patch of the body merged in, by `IsChanged`.
pub record IsPatched (w : World Manifest) (s : Serde) (name body : String) (calls : List Call)
    : Type 0 where
  pub lattice : String
  pub before : List Call
  pub current : Manifest
  pub patch : Value
  pub updated : Manifest
  pub read : w.manifest before lattice name none ≡ answer current
  pub sent : s.value_of_body body ≡ reply patch
  pub base : Value
  pub value : Value
  pub changed : IsChanged s.merge (s.to_value current) patch base value
  pub taken : s.from_value value ≡ reply updated
  pub made :
      calls ≡ put_manifest lattice (s.to_value updated) ∷ get_manifest lattice name none ∷ before

answered :
    {A : Type 0} (f : ClientError → Response) (r : Answer A) (a : A)
    → map_error f (of_answer r) ≡ ok a
    → r ≡ answer a
answered f (answer b) a h = cc
answered f (refused e) a h = cc

replied :
    {A : Type 0} (f : String → Response) (r : Reply A) (a : A)
    → map_error f (of_reply r) ≡ ok a
    → r ≡ reply a
replied f (reply b) a h = cc
replied f (failed e) a h = cc

module _ (w : World Manifest) (crates : Crates) (s : Serde) where
  -- The steps of `patch_application`.
  abbrev connecting : String → Handler (NatsClient × String)
  connecting namespace =
      connect_lattice w crates s "unable to list cosmonic host configs: " namespace

  abbrev reading : String → String → Handler Manifest
  reading lattice name =
      wadm w crates s (client_response (quoted_missing name) "unable to request app from wadm: ")
        (ask_wadm (λ h. w.manifest h lattice name none) (get_manifest lattice name none))

  abbrev decoding : String → Handler Value
  decoding body = lift (
      map_error (λ e. internal_error ("unable to decode the patch: " <> e))
        (of_reply (s.value_of_body body)))

  abbrev merging : Manifest → Value → Handler Manifest
  merging current patch = lift (
      map_error (λ e. internal_error ("unable to patch the application: " <> e))
        (of_reply (s.from_value (patched s.merge (s.to_value current) patch))))

  abbrev putting : String → String → Manifest → Handler (String × String)
  putting lattice name updated =
      wadm w crates s (client_response (quoted_missing name) "could not update application: ")
        (deploy w crates s lattice updated)

  -- If `patch_application` succeeds, its last calls read a manifest and put one that is read from a
  -- value. This is the merge of the patch of the body into a base: the base is the former manifest
  -- without its version and last applied configuration, and the value is the merge with that last
  -- applied configuration, if there was one and the merge has annotations. Base and value differ
  -- from the manifest and the merge in no other annotation, member of the metadata or of the top.
  pub patch_application-IsPatched :
      (namespace name body : String) (op : Operator) (response : Response)
      → (patch_application w crates s namespace name body op).0 ≡ ok response
      → IsPatched w s name body (patch_application w crates s namespace name body op).1.calls
  unfolding patch_application ask_wadm deploy
  patch_application-IsPatched namespace name body op response h =
      let (connection, _, e1) = bind_ok (connecting namespace) _ op h in
      let t = (connecting namespace op).1 in
      let h1 = sym (ap (λ x. x.0) e1) ∙ h in
      let (current, c2, e2) = bind_ok (reading connection.1 name) _ t h1 in
      let u = (reading connection.1 name t).1 in
      let h2 = sym (ap (λ x. x.0) e2) ∙ h1 in
      let (patch, c3, e3) = bind_ok (decoding body) _ u h2 in
      let h3 = sym (ap (λ x. x.0) e3) ∙ h2 in
      let (updated, c4, e4) = bind_ok (merging current patch) _ u h3 in
      let h4 = sym (ap (λ x. x.0) e4) ∙ h3 in
      let (done, _, e5) = bind_ok (putting connection.1 name updated) _ u h4 in
      record {
        lattice = connection.1;
        before = t.calls;
        current = current;
        patch = patch;
        updated = updated;
        read = answered _ _ current c2;
        sent = replied _ _ patch c3;
        base = stripped (s.to_value current);
        value = patched s.merge (s.to_value current) patch;
        changed = patched-IsChanged s.merge (s.to_value current) patch;
        taken = replied _ _ updated c4;
        made = ap (λ x. x.1.calls) (e1 ∙ e2 ∙ e3 ∙ e4 ∙ e5);
      }
