-- ===== src/Manifest/Parts.antt =====
-- The tests of `http_server_component` of src/services.rs on configurations, links and components.
use wasmcloud_operator.Manifest.LastOf.{flat, LastOf-last}
use wasmcloud_operator.Manifest.Addresses.{last?, config_addresses}
use wasmcloud_operator.Manifest.Served.{Names, IsFirst, IsIncoming, IsHttpServer, LastOf}
use wasmcloud_operator.Manifest.Types.{
  Trait, ConfigProperty, LinkProperty, Component, ConfigDefinition, Properties, capability,
  component,
}
use wasmcloud_operator.Manifest.HttpServer.{config_address, is_incoming, is_http_server}
use text.Mathlib.Text.{starts_with}
use wasmcloud_operator.Base.{
  String, ◌≡◌, ◌≢◌, ◌↔◌, ◌==◌, eq_iff, refl, ap, true, Option, none, some, List, [], ◌∷◌, Exists,
  Option-cases, Bool-cases, inl, inr, arith, first, any,
}

address_list : Option String → List String
address_list none = []
address_list (some a) = a ∷ []

last-address_list : (o : Option String) → last? (address_list o) ≡ o
unfolding address_list
last-address_list none = refl
last-address_list (some a) = refl

Names-config_address :
    (a : String) (cp : ConfigProperty) → Names a cp ↔ (config_address cp ≡ some a)
unfolding config_address
Names-config_address a cp = elim (Option-cases cp.properties) [
  | inl e ↦ (λ (p, f, g). cc, λ h. absurd (let k = rw (e, config_address) at h in cc))
  | inr (p, e) ↦ (λ (q, f, g). rw (f, config_address) g, λ h. (p, e, rw (e, config_address) at h))
]

config_addresses-flat :
    (cps : List ConfigProperty)
    → config_addresses cps ≡ flat (λ cp. address_list (config_address cp)) cps
unfolding config_addresses address_list
config_addresses-flat [] = refl
config_addresses-flat (cp ∷ cps) = elim (Option-cases (config_address cp)) [
  | inl e ↦ rw (e, config_addresses, address_list) (config_addresses-flat cps)
  | inr (b, e) ↦
      rw (e, config_addresses, address_list) (ap (λ r. b ∷ r) (config_addresses-flat cps))
]

pub LastOf-config_addresses :
    (a : String) (cps : List ConfigProperty)
    → LastOf Names a cps ↔ (last? (config_addresses cps) ≡ some a)
LastOf-config_addresses a cps = rw (config_addresses-flat cps) (
    LastOf-last Names (λ cp. address_list (config_address cp))
      (λ b cp. rw (last-address_list (config_address cp)) (Names-config_address b cp)) a cps)

any-Exists :
    (s : String) (xs : List String) → (any (λ i. i == s) xs ≡ true) ↔ Exists (λ i. i ≡ s) xs
any-Exists s [] = (λ h. cc, λ h. absurd h)
any-Exists s (x ∷ xs) =
    let (there, back) = any-Exists s xs in
    elim (Bool-cases (x == s)) [
      | inl e ↦ (λ h. inl ((eq_iff x s).0 e), λ h. rw e refl)
      | inr e ↦ (
        λ h. inr (there (rw e at h)),
        elim [ inl p ↦ absurd (ground (arith, e, p, eq_iff x s)) | inr q ↦ rw e (back q) ],
      )
    ]

pub first-IsFirst :
    (kind : String) (t : Trait) (ts : List Trait)
    → (first (λ u. u.trait_type == kind) ts ≡ some t) ↔ IsFirst kind t ts
first-IsFirst kind t [] = (λ h. cc, λ h. absurd h)
first-IsFirst kind t (u ∷ us) =
    let (there, back) = first-IsFirst kind t us in
    elim (Bool-cases (u.trait_type == kind)) [
      | inl e ↦
          let same = (eq_iff u.trait_type kind).0 e in
          (
            (λ h. inl (same, (let k = rw e at h in cc))),
            elim [ inl (_, p) ↦ rw e (ap some p) | inr (n, _) ↦ absurd (n same) ],
          )
      | inr e ↦
          let other : u.trait_type ≢ kind = λ p. ground (arith, e, p, eq_iff u.trait_type kind) in
          (
            (λ h. inr (other, there (rw e at h))),
            elim [ inl (p, _) ↦ absurd (other p) | inr (_, q) ↦ rw e (back q) ],
          )
    ]

pub is_incoming-IsIncoming :
    (props : LinkProperty) (source : ConfigDefinition)
    → props.source ≡ some source
    → (is_incoming props ≡ true) ↔ IsIncoming props
unfolding is_incoming
is_incoming-IsIncoming props source e =
    let (there, back) = any-Exists "incoming-handler" props.interfaces in
    (
      (λ h. (
        ground (arith, h, eq_iff props.namespace "wasi"),
        ground (arith, h, eq_iff props.package_name "http"),
        there (ground (arith, h)),
      )),
      λ (p, q, r).
          let s = back r in
          let p' = (eq_iff props.namespace "wasi").1 p in
          let q' = (eq_iff props.package_name "http").1 q in rw (is_incoming, p', q', s, e) refl,
    )

is_server :
    (p : Properties)
    → (is_http_server p ≡ true) ↔ (
        (image : String) × (p ≡ capability image)
        × (starts_with image "ghcr.io/wasmcloud/http-server" ≡ true))
unfolding is_http_server
is_server (capability image) = (λ h. (image, refl, h), λ (x, e, h). cc)
is_server (component image) = (λ h. absurd cc, λ (x, e, h). absurd cc)

pub is_http_server-IsHttpServer :
    (c : Component) → (is_http_server c.properties ≡ true) ↔ IsHttpServer c
unfolding is_http_server
is_http_server-IsHttpServer c = is_server c.properties
