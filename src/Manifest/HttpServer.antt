-- ===== src/Manifest/HttpServer.antt =====
-- `http_server_component` of src/services.rs.
use text.Mathlib.Text.{starts_with}
use wasmcloud_operator.Base.{
  String, Bool, true, false, ◌&&◌, Option, none, some, List, [], ◌∷◌, ◌==◌, if◌then◌else◌, any,
  keep, first, is_empty, is_some, unwrap_or,
}
use wasmcloud_operator.Base.HashMap
use wasmcloud_operator.Base.HashMap.{HashMap, string_key}
use wasmcloud_operator.Manifest.Types.{
  ConfigProperty, LinkProperty, Spread, TraitProperty, link, spread_scaler, custom, Trait,
  Properties, component, capability, Component, Manifest,
}

pub record HttpServerComponent : Type 0 where
  pub labels : Option (HashMap String String)
  pub address : String

-- The test of the `filter` on components.
unfoldable pub is_http_server : Properties → Bool
is_http_server (capability image) = starts_with image "ghcr.io/wasmcloud/http-server"
is_http_server (component image) = false

unfoldable pub http_servers : Manifest → List Component
unfolding is_http_server
http_servers manifest = keep (λ c. is_http_server c.properties) manifest.components

-- The first trait of a type in a component, the body of both `filter_map`s.
unfoldable pub find_trait : String → Component → Option Trait
find_trait kind c = first (λ t. t.trait_type == kind) (unwrap_or c.traits [])

unfoldable pub traits_of : String → List Component → List Trait
unfolding find_trait
traits_of kind [] = []
traits_of kind (c ∷ cs) =
    let rest = traits_of kind cs in elim (find_trait kind c) [ none ↦ rest | some t ↦ t ∷ rest ]

-- The guard on a link: `wasi:http` with `incoming-handler`.
unfoldable pub is_incoming : LinkProperty → Bool
is_incoming props =
    props.namespace == "wasi"
    && props.package_name == "http"
    && any (λ i. i == "incoming-handler") props.interfaces
    && is_some props.source

-- `cp.properties.as_ref().and_then(|p| p.get("address"))`
unfoldable pub config_address : ConfigProperty → Option String
config_address cp = elim cp.properties [ none ↦ none | some p ↦ HashMap.get "address" p ]

-- The loop's variables: the details, and whether a service should be created.
pub record Scan : Type 0 where
  pub details : HttpServerComponent
  pub should_create_service : Bool

unfoldable pub scan_config : Scan → List ConfigProperty → Scan
unfolding config_address
scan_config s [] = s
scan_config s (cp ∷ cps) =
    scan_config
      (elim (config_address cp) [
        | none ↦ s
        | some addr ↦ record {
          details = record { labels = s.details.labels; address = addr };
          should_create_service = true;
        }
      ])
      cps

-- `details.labels.get_or_insert_with(HashMap::new).insert(k, v)`
abbrev pub add_requirement : Scan → String → String → Scan
add_requirement s k v = record s {
  details = record {
    labels = some (HashMap.insert k v (unwrap_or s.details.labels []));
    address = s.details.address;
  };
}

unfoldable pub scan_requirements : Scan → List (String × String) → Scan
scan_requirements s [] = s
scan_requirements s ((k, v) ∷ more) = scan_requirements (add_requirement s k v) more

unfoldable pub scan_spread : Scan → List Spread → Scan
unfolding scan_requirements
scan_spread s [] = s
scan_spread s (spread ∷ more) = scan_spread (scan_requirements s spread.requirements) more

-- One round of the loop over `links`, by the trait's properties.
unfoldable pub scan_link : Scan → TraitProperty → Scan
unfolding is_incoming scan_config scan_spread
scan_link s (link props) = elim props.source [
  | none ↦ s
  | some source ↦ if is_incoming props then scan_config s source.config else s
]
scan_link s (spread_scaler scaler) = scan_spread s scaler.spread
scan_link s custom = s

unfoldable pub scan_links : Scan → List Trait → Scan
unfolding scan_link
scan_links s [] = s
scan_links s (l ∷ ls) = scan_links (scan_link s l.properties) ls

abbrev pub start : Scan
start = record { details = record { labels = none; address = "" }; should_create_service = false }

unfoldable pub http_server_component : Manifest → Option HttpServerComponent
unfolding http_servers traits_of scan_links
http_server_component manifest =
    let components = http_servers manifest in
    let scan = scan_links start (traits_of "link" components) in
    if is_empty (traits_of "daemonscaler" components)
    then none
    else if scan.should_create_service
    then some scan.details
    else none
