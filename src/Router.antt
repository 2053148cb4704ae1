-- ===== src/Router.antt =====
-- src/router.rs: the routes of the HTTP server and the handlers that answer without a call, with the
-- routes of src/openapi.rs.
pub mod Effects
use wasmcloud_operator.Base.{
  String, true, none, some, List, [], ◌∷◌, map, ◌<>◌, Bool, Option, if◌then◌else◌, ◌&&◌, is_some,
  not,
}
use wasmcloud_operator.Base.Exec.{pure}
use wasmcloud_operator.Base.HashMap
use wasmcloud_operator.Base.HashMap.{HashMap, string_key}
use wasmcloud_operator.Json.{Value}
use wasmcloud_operator.Kube.Objects.{ObjectMeta, default_meta}
use wasmcloud_operator.Kube.World.{World}
use wasmcloud_operator.Manifest.Types.{Manifest}
use wasmcloud_operator.Controller.Types.{Crates}
use wasmcloud_operator.Header.{
  As, table, not_specified, api_group_discovery_list, partial_object_metadata_list, as_to_string,
}
use wasmcloud_operator.Discovery.{
  ListMeta, default_list_meta, ApiGroupDiscovery, ApiResourceDiscovery, GroupVersionKind,
  default_discovery, current, namespaced,
}
use wasmcloud_operator.Http.{
  Response, success, internal_error, ApiResourceList, GroupVersionForDiscovery, group_discovery,
  group_list, resource_list, plain_text, value, openapi_paths,
}
use wasmcloud_operator.Application.Listing.{
  Handler, Encoder, list_applications, list_all_applications,
}
use wasmcloud_operator.Application.Handlers.{
  Serde, create_application, get_application, patch_application, delete_application,
}

-- The methods that routes have.
pub data Method : Type 0 where
  get post patch delete : Method

-- What the extractors of axum make of a request: the Accept header, the parameters of the path and
-- the body.
pub record Request : Type 0 where
  pub accept : As
  pub namespace : String
  pub name : String
  pub body : String

pub record Route : Type 0 where
  pub path : String
  pub method : Method
  pub handler : Request → Handler Response

abbrev pub verbs : List String
verbs = "create" ∷ "get" ∷ "list" ∷ "patch" ∷ "watch" ∷ []

unfoldable pub api_resources : ApiResourceList
api_resources = record {
  group_version = "core.oam.dev/v1beta1";
  resources =
      record {
        group = some "core.oam.dev";
        kind = "Application";
        name = "applications";
        is_namespaced = true;
        short_names = some ("app" ∷ []);
        singular_name = "application";
        categories = some ("oam" ∷ []);
        verbs = verbs;
      }
      ∷ [];
}

abbrev pub application_kind : GroupVersionKind
application_kind = record { group = "core.oam.dev"; version = "v1beta1"; kind = "Application" }

abbrev pub discovered_resource : ApiResourceDiscovery
discovered_resource = record {
  resource = "applications";
  response_kind = application_kind;
  scope = namespaced;
  singular_resource = "application";
  verbs = verbs;
  short_names = "app" ∷ [];
  categories = "oam" ∷ [];
  subresources = [];
}

abbrev pub discovered_group : ApiGroupDiscovery
discovered_group = record {
  kind = none;
  api_version = none;
  metadata = record default_meta { name = some "core.oam.dev" };
  versions =
      record { version = "v1beta1"; resources = discovered_resource ∷ []; freshness = current }
      ∷ [];
}

abbrev pub served_version : GroupVersionForDiscovery
served_version = record { group_version = "core.oam.dev/v1beta1"; version = "v1beta1" }

unfoldable pub api_groups : As → Response
unfolding default_discovery internal_error as_to_string
api_groups api_group_discovery_list =
    success (group_discovery (record default_discovery { items = discovered_group ∷ [] }))
api_groups not_specified = success (
    group_list (
      record {
        name = "core.oam.dev";
        preferred_version = some served_version;
        versions = served_version ∷ [];
      }
      ∷ []))
api_groups table = internal_error ("unknown type request: " <> as_to_string table)
api_groups partial_object_metadata_list =
    internal_error ("unknown type request: " <> as_to_string partial_object_metadata_list)

abbrev pub health : String
health = "healthy"

-- A generic representation of an object with its metadata.
pub record PartialObjectMetadata : Type 0 where
  pub api_version : String
  pub kind : String
  pub metadata : ObjectMeta

pub record PartialObjectMetadataList : Type 0 where
  pub api_version : String
  pub kind : String
  pub metadata : ListMeta
  pub items : List PartialObjectMetadata

abbrev pub default_metadata_list : PartialObjectMetadataList
default_metadata_list = record {
  api_version = "meta.k8s.io/v1";
  kind = "PartialObjectMetadataList";
  metadata = default_list_meta;
  items = [];
}

-- `OpenApiV3Discovery::new`: the relative URL of each path.
unfoldable pub open_api_v3_discovery : HashMap String String
unfolding HashMap.insert
open_api_v3_discovery =
    HashMap.insert "apis/core.oam.dev/v1beta1" "/openapi/v3/apis/core.oam.dev/v1beta1" []

-- `fallback` of src/openapi.rs, for a path that no route has, with the values of the headers as
-- `to_str` gives them. `debug!` evaluates its arguments if its level is enabled, and then the
-- `unwrap` panics on a value that is not visible ASCII, for which `to_str` has no text: `none`.
unfoldable pub fallback : Bool → List (String × Option String) → String → Option Response
fallback debug [] uri = some (record { code = 404; body = plain_text ("No route for " <> uri) })
fallback debug ((hk, hv) ∷ headers) uri =
    let rest = fallback debug headers uri in if debug && not (is_some hv) then none else rest

-- `nest`
abbrev pub nest : String → List Route → List Route
nest prefix routes = map {A = Route} (λ r. record r { path = prefix <> r.path }) routes

-- The routes of src/openapi.rs. `document` is what utoipa derives, `v2` the text of
-- OPENAPI_V2_SPEC_JSON.
unfoldable pub open_api_routes : Value → String → List Route
unfolding open_api_v3_discovery
open_api_routes document v2 =
    record {
      path = "/v3";
      method = get;
      handler = λ _. pure (success (openapi_paths open_api_v3_discovery));
    }
    ∷ record {
      path = "/v3/apis/core.oam.dev/v1beta1";
      method = get;
      handler = λ _. pure (success (value document));
    }
    ∷ record { path = "/v2"; method = get; handler = λ _. pure (success (plain_text v2)) }
    ∷ []

abbrev group_path : String
group_path = "/apis/core.oam.dev/v1beta1"

abbrev applications_path : String
applications_path = "/apis/core.oam.dev/v1beta1/namespaces/:namespace/applications"

abbrev application_path : String
application_path = "/apis/core.oam.dev/v1beta1/namespaces/:namespace/applications/:name"

module _ (w : World Manifest) (crates : Crates) (e : Encoder) (s : Serde) where
  unfoldable pub setup : Value → String → List Route
  unfolding api_resources api_groups open_api_routes list_applications list_all_applications
      create_application get_application patch_application delete_application
  setup document v2 =
      record {
        path = group_path;
        method = get;
        handler = λ _. pure (success (resource_list api_resources));
      }
      ∷ record {
        path = "/apis/core.oam.dev/v1beta1/applications";
        method = get;
        handler = λ r. list_all_applications w crates e r.accept;
      }
      ∷ record {
        path = applications_path;
        method = get;
        handler = λ r. list_applications w crates e r.accept r.namespace;
      }
      ∷ record {
        path = applications_path;
        method = post;
        handler = λ r. create_application w crates s r.namespace r.body;
      }
      ∷ record {
        path = application_path;
        method = get;
        handler = λ r. get_application w crates s r.accept r.namespace r.name;
      }
      ∷ record {
        path = application_path;
        method = patch;
        handler = λ r. patch_application w crates s r.namespace r.name r.body;
      }
      ∷ record {
        path = application_path;
        method = delete;
        handler = λ r. delete_application w crates s r.namespace r.name;
      }
      ∷ record { path = "/apis"; method = get; handler = λ r. pure (api_groups r.accept) }
      ∷ record { path = "/api"; method = get; handler = λ r. pure (api_groups r.accept) }
      ∷ record { path = "/health"; method = get; handler = λ _. pure (success (plain_text health)) }
      ∷ nest "/openapi" (open_api_routes document v2)
