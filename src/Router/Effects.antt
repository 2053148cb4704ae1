-- ===== src/Router/Effects.antt =====
-- What the routes of src/router.rs and src/openapi.rs leave as it was.
use wasmcloud_operator.Base.{String, ◌≡◌, refl, true, not, List, keep, arith, ◌and◌, All}
use wasmcloud_operator.Base.HashMap.{HashMap}
use wasmcloud_operator.Base.Keeps.{Keeps}
use wasmcloud_operator.Http.{Response}
use wasmcloud_operator.Json.{Value}
use wasmcloud_operator.Kube.World.{Call, World}
use wasmcloud_operator.Manifest.Types.{Manifest}
use wasmcloud_operator.Services.Types.{ServiceWatcher, NameNamespace, Operator}
use wasmcloud_operator.Controller.Types.{Crates}
use wasmcloud_operator.Application.Listing.{Encoder, Handler}
use wasmcloud_operator.Application.Handlers.{Serde}
use wasmcloud_operator.Services.Frame.{is_read, Undisturbed}
use wasmcloud_operator.Application.Frame.Handlers.{
  list_applications-Keeps, list_all_applications-Keeps, create_application-Keeps,
  get_application-Keeps, patch_application-Keeps, delete_application-Keeps,
}
use wasmcloud_operator.Router.{get, Request, Route, setup, open_api_routes, Response}

-- The calls that may change something outside the operator.
abbrev pub changes : List Call → List Call
changes calls = keep (λ c. not (is_read c)) calls

abbrev pub Reads : Route → Type 0
Reads r =
    r.method ≡ get
    → (q : Request) (op : Operator) → changes (r.handler q op).1.calls ≡ changes op.calls

abbrev IsUnchanged : List Call → Operator → Type 0
IsUnchanged cs op = changes op.calls ≡ cs

IsUnchanged-read : (cs : List Call) → Undisturbed (λ c. is_read c ≡ true) (IsUnchanged cs)
IsUnchanged-read cs op call e h = ground (arith, e, h)

unchanged_by :
    {m : Handler Response}
    → ((cs : List Call) → Keeps (IsUnchanged cs) m)
    → (op : Operator) → changes (m op).1.calls ≡ changes op.calls
unchanged_by k op = (k (changes op.calls)).after op refl

module _ (w : World Manifest) (crates : Crates) (e : Encoder) (s : Serde) where
  -- A route for GET makes no call but those that read: an application is put or deleted by no
  -- request of this method, whatever the answers are and whether or not it fails.
  pub setup-Reads : (document : Value) (v2 : String) → All Reads (setup w crates e s document v2)
  unfolding setup open_api_routes
  setup-Reads document v2 =
      (λ _ q op. refl)
      and (λ _ q. unchanged_by λ cs.
          list_all_applications-Keeps (IsUnchanged cs) (IsUnchanged-read cs) w crates e q.accept)
      and (λ _ q. unchanged_by λ cs.
          list_applications-Keeps (IsUnchanged cs) (IsUnchanged-read cs) w crates e q.accept
            q.namespace)
      and (λ m q op. cc)
      and (λ _ q. unchanged_by λ cs.
          get_application-Keeps (IsUnchanged cs) (IsUnchanged-read cs) w crates s q.accept
            q.namespace q.name)
      and (λ m q op. cc)
      and (λ m q op. cc)
      and (λ _ q op. refl)
      and (λ _ q op. refl)
      and (λ _ q op. refl)
      and (λ _ q op. refl)
      and (λ _ q op. refl)
      and (λ _ q op. refl)
      and tt

abbrev IsSame : ServiceWatcher → HashMap NameNamespace String → Operator → Type 0
IsSame s creds op = (op.services ≡ s) × (op.nats_creds ≡ creds)

IsSame-call :
    (C : Call → Type 0) (s : ServiceWatcher) (creds : HashMap NameNamespace String)
    → Undisturbed C (IsSame s creds)
IsSame-call C s creds op call c h = h

same_by :
    {m : Handler Response}
    → ((s : ServiceWatcher) (creds : HashMap NameNamespace String) → Keeps (IsSame s creds) m)
    → (op : Operator) → ((m op).1.services ≡ op.services) × ((m op).1.nats_creds ≡ op.nats_creds)
same_by k op = (k op.services op.nats_creds).after op (refl, refl)

abbrev pub Apart : Route → Type 0
Apart r =
    (q : Request) (op : Operator)
    → ((r.handler q op).1.services ≡ op.services) × ((r.handler q op).1.nats_creds ≡ op.nats_creds)

module _ (w : World Manifest) (crates : Crates) (e : Encoder) (s : Serde) where
  -- No request changes the service watcher or the credentials, which the controller keeps.
  pub setup-Apart : (document : Value) (v2 : String) → All Apart (setup w crates e s document v2)
  unfolding setup open_api_routes
  setup-Apart document v2 =
      (λ q op. (refl, refl))
      and (λ q.
          same_by
            λ t c. list_all_applications-Keeps (IsSame t c) (IsSame-call _ t c) w crates e q.accept)
      and (λ q. same_by λ t c.
          list_applications-Keeps (IsSame t c) (IsSame-call _ t c) w crates e q.accept q.namespace)
      and (λ q. same_by λ t c.
          create_application-Keeps (IsSame t c) (IsSame-call _ t c) w crates s (IsSame-call _ t c)
            q.namespace q.body)
      and (λ q. same_by λ t c.
          get_application-Keeps (IsSame t c) (IsSame-call _ t c) w crates s q.accept q.namespace
            q.name)
      and (λ q. same_by λ t c.
          patch_application-Keeps (IsSame t c) (IsSame-call _ t c) w crates s (IsSame-call _ t c)
            q.namespace q.name q.body)
      and (λ q. same_by λ t c.
          delete_application-Keeps (IsSame t c) (IsSame-call _ t c) w crates s (IsSame-call _ t c)
            q.namespace q.name)
      and (λ q op. (refl, refl))
      and (λ q op. (refl, refl))
      and (λ q op. (refl, refl))
      and (λ q op. (refl, refl))
      and (λ q op. (refl, refl))
      and (λ q op. (refl, refl))
      and tt
