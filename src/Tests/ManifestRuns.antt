-- ===== src/Tests/ManifestRuns.antt =====
-- `http_server_component` of src/services.rs at a manifest.
use wasmcloud_operator.Manifest.Types.{Trait, Component, link}
use wasmcloud_operator.Manifest.Serving.{http_server_component-AsksFor}
use wasmcloud_operator.Manifest.Served.{AsksFor}
use wasmcloud_operator.Base.HashMap
use wasmcloud_operator.Base.{◌≡◌, refl, none, some, arith, eq_iff, ◌↔◌, map, ◌∷◌, [], unwrap_or}
use wasmcloud_operator.Manifest.HttpServer.{HttpServerComponent, http_server_component}
use wasmcloud_operator.Manifest.Labels.{labels-http_server_component}
use wasmcloud_operator.Tests.Samples.{hello}

abbrev found : HttpServerComponent
found = record { labels = none; address = "0.0.0.0:8080" }

http_server_component-hello : http_server_component hello ≡ some found
unfolding http_server_component HashMap.get
http_server_component-hello = refl

http_server_component-AsksFor_example :
    ((d : HttpServerComponent) × (http_server_component hello ≡ some d)
      × (d.address ≡ "0.0.0.0:8080"))
    ↔ AsksFor hello "0.0.0.0:8080"
http_server_component-AsksFor_example = http_server_component-AsksFor hello "0.0.0.0:8080"

labels-http_server_component_example : found.labels ≡ none
labels-http_server_component_example =
    labels-http_server_component hello found
      ((λ h. tt, (λ h. absurd (ground (arith, eq_iff "daemonscaler" "link", h)), tt)), (tt, tt))
      http_server_component-hello

-- `hello` with a link of another kind before that of `wasi:http`.
abbrev keyvalue_link : Trait
keyvalue_link = record {
  trait_type = "link";
  properties = link (record {
    namespace = "wasi";
    package_name = "keyvalue";
    interfaces = "atomics" ∷ [];
    source = none;
  });
}

abbrev linked_first : Component → Component
linked_first c = record c { traits = some (keyvalue_link ∷ unwrap_or c.traits []) }

http_server_component-linked_first :
    http_server_component (record hello { components = map linked_first hello.components }) ≡ none
unfolding http_server_component
http_server_component-linked_first = refl
