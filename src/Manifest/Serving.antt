-- ===== src/Manifest/Serving.antt =====
-- When `http_server_component` of src/services.rs finds a service, and at which address.
use wasmcloud_operator.Manifest.Parts.{is_http_server-IsHttpServer}
use wasmcloud_operator.Manifest.LastOf.{LastOf-last, flat}
use wasmcloud_operator.Manifest.Agreement.{
  service_addresses-flat, component_addresses, Provides-component_addresses,
}
use wasmcloud_operator.Manifest.Served.{AsksFor, IsHttpServer, HasScaler, Provides}
use wasmcloud_operator.Manifest.Addresses.{service_addresses, address-http_server_component, last?}
use wasmcloud_operator.Manifest.HttpServer.{
  traits_of, http_servers, find_trait, HttpServerComponent, is_http_server, http_server_component,
}
use wasmcloud_operator.Manifest.Types.{Trait, Component, Manifest}
use mathlib.Core.Option
use wasmcloud_operator.Base.{
  String, ◌≡◌, ◌↔◌, ◌==◌, eq_iff, refl, ◌∙◌, true, false, Option, none, some, List, [], ◌∷◌, Exists,
  Option-cases, Bool-cases, inl, inr, arith, first, is_empty, keep, unwrap_or, ap, Bool,
  if◌then◌else◌, sym,
}

first-Exists :
    (kind : String) (ts : List Trait)
    → (first (λ t. t.trait_type == kind) ts ≡ none → ⊥) ↔ Exists (λ t. t.trait_type ≡ kind) ts
first-Exists kind [] = (λ h. h refl, λ h. absurd h)
first-Exists kind (t ∷ ts) =
    let (there, back) = first-Exists kind ts in
    elim (Bool-cases (t.trait_type == kind)) [
      | inl e ↦ (λ h. inl ((eq_iff t.trait_type kind).0 e), λ h k. let l = rw e at k in cc)
      | inr e ↦ (
        λ h. inr (there (λ k. h (rw e k))),
        elim [
          | inl p ↦ absurd (ground (arith, e, p, eq_iff t.trait_type kind))
          | inr q ↦ λ k. back q (rw e at k)
        ],
      )
    ]

-- One of the http servers has a daemonscaler.
scalers_iff :
    (cs : List Component)
    → (is_empty (traits_of "daemonscaler" (keep (λ c. is_http_server c.properties) cs)) ≡ false)
      ↔ Exists (λ c. IsHttpServer c × HasScaler c) cs
unfolding traits_of find_trait
scalers_iff [] = (λ h. absurd cc, λ h. absurd h)
scalers_iff (c ∷ cs) =
    let (server, back) = is_http_server-IsHttpServer c in
    let (there, home) = scalers_iff cs in
    let (scaled, unscaled) = first-Exists "daemonscaler" (unwrap_or c.traits []) in
    elim (Bool-cases (is_http_server c.properties)) [
      | inl b ↦ elim (Option-cases (find_trait "daemonscaler" c)) [
        | inl e ↦ (
          λ h. inr (there (rw (b, traits_of, e) at h)),
          elim [ inl (_, x) ↦ absurd (unscaled x e) | inr y ↦ rw (b, traits_of, e) (home y) ],
        )
        | inr (t, e) ↦ (
          λ h. inl (server b, scaled (λ k. let l : find_trait "daemonscaler" c ≡ none = k in cc)),
          λ h. rw (b, traits_of, e) refl,
        )
      ]
      | inr b ↦ (
        λ h. inr (there (rw b at h)),
        elim [ inl (x, _) ↦ absurd (let k = back x in cc) | inr y ↦ rw b (home y) ],
      )
    ]

map_address :
    (o : Option HttpServerComponent) (a : String)
    → (Option.map (λ (d : HttpServerComponent). d.address) o ≡ some a)
      ↔ ((d : HttpServerComponent) × (o ≡ some d) × (d.address ≡ a))
map_address none a = (λ h. absurd cc, λ (d, e, h). absurd cc)
map_address (some d) a = (
  λ h. (d, refl, (let k : d.address ≡ a = cc in k)),
  λ (d', e, h). let k : d ≡ d' = cc in rw k (ap some h),
)

-- A guard in front of a result.
guarded :
    {X Y : Type 0} (b : Bool) (o : Option String) (a : String)
    → (b ≡ false) ↔ X
    → Y ↔ (o ≡ some a)
    → ((if b then none else o) ≡ some a) ↔ (X × Y)
guarded true o a f g = (λ h. absurd cc, λ (x, y). absurd (let k = f.1 x in cc))
guarded false o a f g = (λ h. (f.0 refl, g.1 h), λ (x, y). g.0 y)

-- A service is found at an address exactly if some http server component has a daemonscaler and
-- the address is the last one that is provided. An http server component provides the last address
-- among the configurations of its first link, provided that this is a link of `wasi:http` with the
-- interface `incoming-handler`.
pub http_server_component-AsksFor :
    (m : Manifest) (a : String)
    → ((d : HttpServerComponent) × (http_server_component m ≡ some d) × (d.address ≡ a))
      ↔ AsksFor m a
unfolding http_servers service_addresses
http_server_component-AsksFor m a =
    let (found, mapped) = map_address (http_server_component m) a in
    let (serves, served) =
      guarded _ (last? (flat component_addresses m.components)) a (scalers_iff m.components)
        (LastOf-last Provides component_addresses Provides-component_addresses a m.components) in
    let e : Option.map (λ (d : HttpServerComponent). d.address) (http_server_component m) ≡ (
        if is_empty (traits_of "daemonscaler" (http_servers m))
        then none
        else last? (flat component_addresses m.components)) =
      address-http_server_component m
      ∙ ap (λ l. if is_empty (traits_of "daemonscaler" (http_servers m)) then none else last? l)
          (service_addresses-flat m.components) in
    (λ h. serves (sym e ∙ mapped h), λ h. found (e ∙ served h))
