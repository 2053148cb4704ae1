-- ===== src/Startup/Installed.antt =====
-- What a successful `install_crd` of src/main.rs has done.
use wasmcloud_operator.Base.{
  ◌<>◌, String, ◌≡◌, refl, Bool-cases, true, false, Option, none, some, List, ◌∷◌, inl, inr,
}
use wasmcloud_operator.Base.Outcome.{ok}
use wasmcloud_operator.Base.Post.{Post, Post-unwrap, Post-bind, Post-map_error, Post-ok}
use wasmcloud_operator.Kube.World.{ApplyParams, Reply, reply, failed, of_reply, ApplyParams}
use wasmcloud_operator.Startup.{
  InstallCall, get_crd, patch_crd, create_crd, get_registration, replace_registration,
  create_registration, Installer, registration, registration_name, served_from, write, write_crd,
  write_registration, put_crd, register, install_crd, map_err,
}

module _ {Crd : Type 0} (i : Installer Crd) (crd : Crd) where
  abbrev pub Calls : Type 0
  Calls = List (InstallCall Crd)

  -- The definition that is there is the wanted one, or the newest call has written it.
  pub data IsDefined : Calls → Type 0 where
    unchanged :
        (name : String) (h : Calls) (old : Crd)
        → i.found h name ≡ reply old
        → i.differs old crd ≡ false
        → IsDefined (get_crd name ∷ h)
    updated :
        (name : String) (h : Calls) (p : ApplyParams)
        → p.force ≡ true
        → i.written h (patch_crd name p crd) ≡ reply tt
        → IsDefined (patch_crd name p crd ∷ h)
    created : (h : Calls) → i.written h (create_crd crd) ≡ reply tt → IsDefined (create_crd crd ∷ h)

  -- After that, the newest call registers the API, with the resource version that was read.
  pub data IsRegistered : Calls → Type 0 where
    replaced :
        (h : Calls) (v : String) (call : InstallCall Crd)
        → IsDefined h
        → i.registered h registration_name ≡ reply (some v)
        → call ≡ replace_registration registration_name (registration (served_from i) (some v))
        → i.written (get_registration registration_name ∷ h) call ≡ reply tt
        → IsRegistered (call ∷ get_registration registration_name ∷ h)
    added :
        (h : Calls) (call : InstallCall Crd)
        → IsDefined h
        → call ≡ create_registration (registration (served_from i) none)
        → i.written (get_registration registration_name ∷ h) call ≡ reply tt
        → IsRegistered (call ∷ get_registration registration_name ∷ h)

  by_reply :
      (Q : Calls → Type 0) (r : Reply (Unit {0})) (h : Calls)
      → (r ≡ reply tt → Q h)
      → Post (λ _ s. Q s) (λ _. Unit {0}) (of_reply r, h)
  by_reply Q (reply _) h k = k refl
  by_reply Q (failed e) h k = tt

  write-Post :
      (Q : Calls → Type 0) (c : InstallCall Crd) (h : Calls)
      → (i.written h c ≡ reply tt → Q (c ∷ h))
      → Post (λ _ s. Q s) (λ _. Unit {0}) (write i c h)
  unfolding write
  write-Post Q c h k = by_reply Q (i.written h c) (c ∷ h) k

  mapped-Post :
      (f : String → String) (Q : Calls → Type 0) (c : InstallCall Crd) (h : Calls)
      → (i.written h c ≡ reply tt → Q (c ∷ h))
      → Post (λ _ s. Q s) (λ _. Unit {0}) (map_err f (write i c) h)
  mapped-Post f Q c h k =
      Post-map_error f (λ _ s. Q s) (λ _. Unit {0}) (write i c h).0 (write i c h).1
        (write-Post Q c h k)

  write_crd-Post :
      (name : String) (h : Calls) (r : Reply Crd)
      → i.found h name ≡ r
      → Post (λ _ s. IsDefined s) (λ _. Unit {0}) (write_crd i name crd r (get_crd name ∷ h))
  unfolding write_crd
  write_crd-Post name h (reply old) e = elim (Bool-cases (i.differs old crd)) [
    | inl d ↦
        rw (write_crd, d)
          (write-Post IsDefined _ (get_crd name ∷ h)
            (λ d'. updated name (get_crd name ∷ h) _ refl d'))
    | inr d ↦ rw (write_crd, d) (unchanged name h old e d)
  ]
  write_crd-Post name h (failed e') e =
      mapped-Post (λ x. "failed to create crd: " <> x) IsDefined (create_crd crd) (get_crd name ∷ h)
        (λ d'. created (get_crd name ∷ h) d')

  write_registration-Post :
      (h : Calls) (r : Reply (Option String))
      → IsDefined h
      → i.registered h registration_name ≡ r
      → Post
          (λ _ s. IsRegistered s)
          (λ _. Unit {0})
          (write_registration i r (get_registration registration_name ∷ h))
  unfolding write_registration
  write_registration-Post h (reply none) d e = tt
  write_registration-Post h (reply (some v)) d e =
      write-Post IsRegistered _ (get_registration registration_name ∷ h)
        (λ k. replaced h v _ d e refl k)
  write_registration-Post h (failed e') d e =
      mapped-Post (λ x. "failed to create registration: " <> x) IsRegistered _
        (get_registration registration_name ∷ h) (λ k. added h _ d refl k)

  -- If `install_crd` succeeds, the definition that is there is the wanted one or has been written, and
  -- after that the API has been registered, by the newest call and with the resource version of the
  -- registration that was read, if there was one.
  pub install_crd-IsRegistered :
      (h : Calls) → (install_crd i crd h).0 ≡ ok tt → IsRegistered (install_crd i crd h).1
  unfolding install_crd put_crd register
  install_crd-IsRegistered h e =
      Post-ok (λ _ s. IsRegistered s) (λ _. Unit {0}) (install_crd i crd h) tt
        (Post-unwrap _ _ (i.crd_name crd) _ h
          (λ name.
            Post-bind (λ _ s. IsDefined s) _ _ (put_crd i name crd) (λ _. register i) h
              (write_crd-Post name h (i.found h name) refl)
              (λ _ s d. write_registration-Post s (i.registered s registration_name) d refl))
          tt)
        e
