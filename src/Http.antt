-- ===== src/Http.antt =====
-- What the HTTP handlers answer: `internal_error` and `not_found_error` of src/router.rs, and the
-- bodies that the handlers of src/router.rs and src/resources/application.rs serialize.
use wasmcloud_operator.Base.{ℕ, String, Option, some, List, Bool, ◌<>◌}
use wasmcloud_operator.Base.HashMap.{HashMap}
use wasmcloud_operator.Json.{Value}
use wasmcloud_operator.Discovery.{ListMeta, default_list_meta, ApiGroupDiscoveryList}
use wasmcloud_operator.Controller.Types.{Error}
use wasmcloud_operator.Controller.Types
use wasmcloud_operator.Application.Types.{Application, ApplicationList, ApplicationTable}

-- `Status` of k8s-openapi.
pub record StatusKind : Type 0 where
  pub code : Option ℕ
  pub message : Option String
  pub metadata : ListMeta
  pub reason : Option String
  pub status : Option String

pub record GroupVersionForDiscovery : Type 0 where
  pub group_version : String
  pub version : String

pub record ApiGroup : Type 0 where
  pub name : String
  pub preferred_version : Option GroupVersionForDiscovery
  pub versions : List GroupVersionForDiscovery

pub record ApiResource : Type 0 where
  pub group : Option String
  pub kind : String
  pub name : String
  pub is_namespaced : Bool
  pub short_names : Option (List String)
  pub singular_name : String
  pub categories : Option (List String)
  pub verbs : List String

pub record ApiResourceList : Type 0 where
  pub group_version : String
  pub resources : List ApiResource

-- The value under `Json`, or a plain text.
pub data Body : Type 0 where
  application : Application → Body
  application_list : ApplicationList → Body
  application_table : ApplicationTable → Body
  value : Value → Body
  status_kind : StatusKind → Body
  group_discovery : ApiGroupDiscoveryList → Body
  group_list : List ApiGroup → Body
  resource_list : ApiResourceList → Body
  openapi_paths : HashMap String String → Body
  json_text plain_text : String → Body

pub record Response : Type 0 where
  pub code : ℕ
  pub body : Body

abbrev pub success : Body → Response
success body = record { code = 200; body = body }

unfoldable pub internal_error : String → Response
internal_error message = record {
  code = 500;
  body = status_kind (record {
    code = some 500;
    message = some message;
    metadata = default_list_meta;
    reason = some "StatusInternalServerError";
    status = some "Failure";
  });
}

unfoldable pub not_found_error : String → Response
not_found_error message = record {
  code = 404;
  body = status_kind (record {
    code = some 404;
    message = some message;
    metadata = default_list_meta;
    reason = some "NotFound";
    status = some "Failure";
  });
}

-- `impl IntoResponse for Error` of src/lib.rs.
unfoldable pub into_response : Error → Response
unfolding Types.to_string
into_response e = record { code = 500; body = plain_text (Types.to_string e) }

-- `impl IntoResponse for AppError` of src/resources/application.rs, by the text of the error.
unfoldable pub app_error_response : String → Response
app_error_response e = record { code = 500; body = plain_text ("Error: " <> e) }
