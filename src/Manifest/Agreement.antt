-- ===== src/Manifest/Agreement.antt =====
-- `http_server_component` of src/services.rs against the description of the address it finds.
use wasmcloud_operator.Manifest.Parts.{
  is_incoming-IsIncoming, first-IsFirst, is_http_server-IsHttpServer, LastOf-config_addresses,
}
use wasmcloud_operator.Manifest.LastOf.{flat}
use wasmcloud_operator.Manifest.Addresses.{last?, link_addresses, addresses}
use wasmcloud_operator.Manifest.Served.{Names, IsIncoming, LastOf, Provides, Links}
use wasmcloud_operator.Manifest.Types.{
  Trait, LinkProperty, Component, ConfigDefinition, TraitProperty, link, spread_scaler, custom,
}
use wasmcloud_operator.Manifest.HttpServer.{is_incoming, is_http_server, find_trait, traits_of}
use wasmcloud_operator.Base.{
  String, ◌≡◌, ◌↔◌, refl, ap, Option, none, some, List, [], ◌∷◌, ◌++◌, Option-cases, Bool-cases,
  inl, inr, unwrap_or, if◌then◌else◌, keep,
}

-- What `Links` says of the properties of the first link.
abbrev LinksBy : String → TraitProperty → Type 0
LinksBy a p =
    (props : LinkProperty) × (p ≡ link props)
    × IsIncoming props
    × ((source : ConfigDefinition) × (props.source ≡ some source) × LastOf Names a source.config)

LinksBy-link_addresses :
    (a : String) (p : TraitProperty) → LinksBy a p ↔ (last? (link_addresses p) ≡ some a)
unfolding link_addresses
LinksBy-link_addresses a (spread_scaler s) = (λ (q, e, _, _). absurd cc, λ h. absurd cc)
LinksBy-link_addresses a custom = (λ (q, e, _, _). absurd cc, λ h. absurd cc)
LinksBy-link_addresses a (link props) = elim (Option-cases props.source) [
  | inl e ↦ (
    λ (props', same, inc, (source, f, h)).
        absurd (let k : props ≡ props' = cc in let l = rw (← k) at f in cc),
    λ h. absurd (let k = rw (link_addresses, e) at h in cc),
  )
  | inr (source, e) ↦
      let (in_wasi, back) = is_incoming-IsIncoming props source e in
      let (there, home) = LastOf-config_addresses a source.config in
      elim (Bool-cases (is_incoming props)) [
        | inl b ↦ (
          λ (props', same, inc, (source', f, h)).
              let k : props ≡ props' = cc in
              let l : source' ≡ source = let m = rw (← k) at f in cc in
              rw (link_addresses, e, b) (there (rw l at h)),
          λ h. (props, refl, in_wasi b, (source, e, home (rw (link_addresses, e, b) at h))),
        )
        | inr b ↦ (
          λ (props', same, inc, (source', f, h)).
              absurd (let k : props ≡ props' = cc in let l = back (rw (← k) at inc) in cc),
          λ h. absurd (let k = rw (link_addresses, e, b) at h in cc),
        )
      ]
]

first_addresses : Option Trait → List String
unfolding link_addresses
first_addresses none = []
first_addresses (some t) = link_addresses t.properties

Links-first :
    (a : String) (c : Component)
    → Links a c ↔ (last? (first_addresses (find_trait "link" c)) ≡ some a)
unfolding find_trait first_addresses
Links-first a c = elim (Option-cases (find_trait "link" c)) [
  | inl e ↦ (
    λ (t, f, h). absurd (let k = (first-IsFirst "link" t (unwrap_or c.traits [])).1 f in cc),
    λ h. absurd (let k = rw (e, first_addresses) at h in cc),
  )
  | inr (t, e) ↦
      let (there, back) = LinksBy-link_addresses a t.properties in
      (
        λ (u, f, h).
            let k = (first-IsFirst "link" u (unwrap_or c.traits [])).1 f in
            let same : u ≡ t = cc in rw (e, first_addresses) (there (rw same at h)),
        λ h. (
          t,
          (first-IsFirst "link" t (unwrap_or c.traits [])).0 e,
          back (rw (e, first_addresses) at h),
        ),
      )
]

unfoldable pub component_addresses : Component → List String
unfolding first_addresses find_trait is_http_server
component_addresses c =
    if is_http_server c.properties then first_addresses (find_trait "link" c) else []

pub Provides-component_addresses :
    (a : String) (c : Component) → Provides a c ↔ (last? (component_addresses c) ≡ some a)
unfolding component_addresses
Provides-component_addresses a c =
    let (server, back) = is_http_server-IsHttpServer c in
    let (there, home) = Links-first a c in
    elim (Bool-cases (is_http_server c.properties)) [
      | inl e ↦ (
        λ (p, q). rw (component_addresses, e) (there q),
        λ h. (server e, home (rw (component_addresses, e) at h)),
      )
      | inr e ↦ (
        λ (p, q). absurd (let k = back p in cc),
        λ h. absurd (let k = rw (component_addresses, e) at h in cc),
      )
    ]

pub service_addresses-flat :
    (cs : List Component)
    → addresses (traits_of "link" (keep (λ c. is_http_server c.properties) cs))
      ≡ flat component_addresses cs
unfolding addresses traits_of component_addresses
service_addresses-flat [] = refl
service_addresses-flat (c ∷ cs) = elim (Bool-cases (is_http_server c.properties)) [
  | inl b ↦ elim (Option-cases (find_trait "link" c)) [
    | inl e ↦ rw (b, component_addresses, traits_of, e, first_addresses) (service_addresses-flat cs)
    | inr (t, e) ↦
        rw (b, component_addresses, traits_of, e, first_addresses, addresses)
          (ap (λ r. link_addresses t.properties ++ r) (service_addresses-flat cs))
  ]
  | inr b ↦ rw (b, component_addresses) (service_addresses-flat cs)
]
