-- ===== src/Manifest/Served.antt =====
-- The address that `http_server_component` of src/services.rs finds, in the manifest's own terms.
use text.Mathlib.Text.{starts_with}
use wasmcloud_operator.Base.HashMap
use wasmcloud_operator.Base.HashMap.{string_key}
use wasmcloud_operator.Base.{
  String, ◌≡◌, ◌≢◌, ◌⊎◌, true, some, List, [], ◌∷◌, Exists, All, unwrap_or,
}
use wasmcloud_operator.Manifest.Types.{
  ConfigProperty, LinkProperty, link, Trait, capability, Component, Manifest, ConfigDefinition,
}

-- `a` belongs to the last element that has anything: no later one has.
abbrev pub LastOf : {A : Type 0} → (String → A → Type 0) → String → List A → Type 0
LastOf P a [] = ⊥
LastOf P a (x ∷ xs) = LastOf P a xs ⊎ P a x × All (λ y. (b : String) → ¬ P b y) xs

-- The first trait of a type.
abbrev pub IsFirst : String → Trait → List Trait → Type 0
IsFirst kind t [] = ⊥
IsFirst kind t (u ∷ us) =
    (u.trait_type ≡ kind) × (u ≡ t) ⊎ (u.trait_type ≢ kind) × IsFirst kind t us

abbrev pub IsHttpServer : Component → Type 0
IsHttpServer c =
    (image : String) × (c.properties ≡ capability image)
    × (starts_with image "ghcr.io/wasmcloud/http-server" ≡ true)

abbrev pub HasScaler : Component → Type 0
HasScaler c = Exists (λ t. t.trait_type ≡ "daemonscaler") (unwrap_or c.traits [])

-- The link is one of `wasi:http`, by the interface `incoming-handler`.
abbrev pub IsIncoming : LinkProperty → Type 0
IsIncoming props =
    (props.namespace ≡ "wasi")
    × (props.package_name ≡ "http")
    × Exists (λ i. i ≡ "incoming-handler") props.interfaces

-- A configuration has the address `a`.
abbrev pub Names : String → ConfigProperty → Type 0
Names a cp =
    (p : HashMap.HashMap String String) × (cp.properties ≡ some p)
    × (HashMap.get "address" p ≡ some a)

-- The first link of a component is such a link, and `a` the last address among the configurations
-- of its source.
abbrev pub Links : String → Component → Type 0
Links a c =
    (t : Trait) × IsFirst "link" t (unwrap_or c.traits [])
    × ((props : LinkProperty) × (t.properties ≡ link props)
        × IsIncoming props
        × ((source : ConfigDefinition) × (props.source ≡ some source)
            × LastOf Names a source.config))

abbrev pub Provides : String → Component → Type 0
Provides a c = IsHttpServer c × Links a c

-- The manifest asks for a service at the address `a`.
abbrev pub AsksFor : Manifest → String → Type 0
AsksFor m a =
    Exists (λ c. IsHttpServer c × HasScaler c) m.components × LastOf Provides a m.components
