-- ===== src/Services/Commands.antt =====
-- What carrying out a command of src/services.rs gets done, namespace by namespace.
use mathlib.Core.Path.{subst}
use wasmcloud_operator.Base.{
  String, ◌≡◌, refl, sym, false, Option, List, [], ◌∷◌, arith, All, Exists, inl, inr,
}
use wasmcloud_operator.Base.Outcome.{Outcome, ok}
use wasmcloud_operator.Base.Exec.{ignore_error, for_each}
use wasmcloud_operator.Base.Keeps.{
  Keeps, Keeps-ignore, Keeps-for_each, Keeps-bind, Keeps-pure, Keeps-if, bind_ok, Ensures,
  Ensures-bind, Ensures-then,
}
use wasmcloud_operator.Kube.Objects.{OwnerReference, Service}
use wasmcloud_operator.Kube.World.{Call, get_service, apply_service, World, ask, Reply}
use wasmcloud_operator.Controller.Labels.{service_finalizer}
use wasmcloud_operator.Services.Types.{remove_service, ServiceParams}
use wasmcloud_operator.Services.Cluster.{
  put_service, create_or_update_service, delete_service, clear_and_delete, run_command,
  service_object, put_endpoints, create_endpoints,
}
use wasmcloud_operator.Services.Calls.{put_service-Keeps, delete_service-Keeps, put_endpoints-Keeps}

abbrev pub Made : Call → List Call → Type 0
Made c calls = Exists (λ d. d ≡ c) calls

Made-ask : {A : Type 0} (c : Call) (f : List Call → Reply A) (d : Call) → Keeps (Made c) (ask f d)
unfolding ask
Made-ask c f d = record { after = λ s h. inr h }

asked : {A : Type 0} (c : Call) (f : List Call → Reply A) → Ensures (Made c) (ask f c)
unfolding ask
asked c f = record { after = λ s. inl refl }

-- The call that puts the service of an application in a namespace.
abbrev pub put_call : ServiceParams → Option OwnerReference → String → Call
put_call params owner_ref n =
    apply_service n params.name (record { field_manager = service_finalizer; force = false })
      (service_object params owner_ref n)

module _ {M : Type 0} (w : World M) where
  Made-cleared :
      (c : Call) (n name : String) (svc : Service) → Keeps (Made c) (clear_and_delete w n name svc)
  unfolding clear_and_delete
  Made-cleared c n name svc = Keeps-bind _ _ (Made-ask c _ _) λ _. Made-ask c _ _

  Made-put :
      (c : Call) (params : ServiceParams) (o : Option OwnerReference) (n : String)
      → Keeps (Made c) (put_service w params o n)
  Made-put c = put_service-Keeps w (Made c) (λ d calls _ h. inr h) (Made-cleared c)

  Made-delete : (c : Call) (n name : String) → Keeps (Made c) (delete_service w n name)
  Made-delete c = delete_service-Keeps w (Made c) (λ d calls _ h. inr h) (Made-cleared c)

  Made-endpoints :
      (c : Call) (params : ServiceParams) (n : String) (svc : Service)
      → Keeps (Made c) (put_endpoints w params n svc)
  Made-endpoints c = put_endpoints-Keeps w (Made c) (λ d calls _ h. inr h) (Made-cleared c)

  put_service-Made :
      (params : ServiceParams) (o : Option OwnerReference) (n : String)
      → Ensures (Made (put_call params o n)) (put_service w params o n)
  unfolding put_service
  put_service-Made params o n =
      Ensures-bind _ _ (asked (put_call params o n) _) λ svc.
        Keeps-if (create_endpoints params) _ _ (Made-endpoints _ params n svc) (Keeps-pure tt)

  loop-Made :
      (params : ServiceParams) (o : Option OwnerReference) (ns : List String) (calls : List Call)
      → (for_each (put_service w params o) ns calls).0 ≡ ok tt
      → All (λ n. Made (put_call params o n) (for_each (put_service w params o) ns calls).1) ns
  unfolding for_each
  loop-Made params o [] calls h = tt
  loop-Made params o (n ∷ ns) calls h =
      let rest = for_each (put_service w params o) ns in
      let (_, _, same) = bind_ok (put_service w params o n) (λ _. rest) calls h in
      let kept =
        Keeps-for_each (put_service w params o) (λ m. Made-put (put_call params o n) params o m)
          ns in
      subst
        (λ (out : Outcome String (Unit {0}) × List Call).
          All (λ m. Made (put_call params o m) out.1) (n ∷ ns))
        (sym same)
        (
          Ensures-then (put_service w params o n) rest calls (put_service-Made params o n) kept,
          loop-Made params o ns (put_service w params o n calls).1 (rw same at h),
        )

  -- If `create_or_update_service` succeeds, it has applied the service of the parameters in each
  -- of their namespaces.
  pub create_or_update_service-Made :
      (params : ServiceParams) (o : Option OwnerReference) (calls : List Call)
      → (create_or_update_service w params o calls).0 ≡ ok tt
      → All
          (λ n. Made (put_call params o n) (create_or_update_service w params o calls).1)
          params.namespaces
  unfolding create_or_update_service
  create_or_update_service-Made params o calls h = loop-Made params o params.namespaces calls h

  asking : (n name : String) → Ensures (Made (get_service n name)) (delete_service w n name)
  unfolding delete_service
  asking n name = Ensures-bind _ _ (asked (get_service n name) _) (Made-cleared _ n name)

  -- `delete_service` does not panic, and asks for the service first.
  delete_service-calm :
      (n name : String) (calls : List Call)
      → (ignore_error (delete_service w n name) calls).0 ≡ ok tt
  unfolding delete_service clear_and_delete ask ignore_error
  delete_service-calm n name calls = ground arith

  delete_service-Made :
      (n name : String)
      → Ensures (Made (get_service n name)) (ignore_error (delete_service w n name))
  unfolding ignore_error
  delete_service-Made n name = record { after = (asking n name).after }

  removal-Made :
      (name : String) (ns : List String) (calls : List Call)
      → ((for_each (λ n. ignore_error (delete_service w n name)) ns calls).0 ≡ ok tt)
        × All
            (λ n.
              Made
                (get_service n name)
                (for_each (λ n. ignore_error (delete_service w n name)) ns calls).1)
            ns
  unfolding for_each
  removal-Made name [] calls = (refl, tt)
  removal-Made name (n ∷ ns) calls =
      let one = λ (m : String). ignore_error (delete_service w m name) in
      let (done, rest) = removal-Made name ns (one n calls).1 in
      let kept =
        Keeps-for_each one (λ m. Keeps-ignore _ (Made-delete (get_service n name) m name)) ns in
      let same : for_each one (n ∷ ns) calls ≡ for_each one ns (one n calls).1 =
        rw (delete_service-calm n name calls, for_each) in
      subst
        (λ (out : Outcome String (Unit {0}) × List Call).
          (out.0 ≡ ok tt) × All (λ m. Made (get_service m name) out.1) (n ∷ ns))
        (sym same)
        (
          done,
          (Ensures-then (one n) (for_each one ns) calls (delete_service-Made n name) kept, rest),
        )

  -- The command to remove a service always runs to its end, and each namespace has its turn,
  -- whatever became of the namespaces before it.
  pub run_command-remove_service :
      (name : String) (ns : List String) (calls : List Call)
      → ((run_command w (remove_service name ns) calls).0 ≡ ok tt)
        × All (λ n. Made (get_service n name) (run_command w (remove_service name ns) calls).1) ns
  unfolding run_command
  run_command-remove_service name ns calls = removal-Made name ns calls
