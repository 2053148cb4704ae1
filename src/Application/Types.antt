-- ===== src/Application/Types.antt =====
-- The types of src/resources/application.rs and of src/table.rs, with their conversions.
use wasmcloud_operator.Base.{ℕ, String, Option, some, List, [], ◌∷◌, ◌<>◌, map, unwrap_or}
use wasmcloud_operator.Base.BTreeMap
use wasmcloud_operator.Base.BTreeMap.{BTreeMap}
use wasmcloud_operator.Kube.Objects.{ObjectMeta, default_meta}
use wasmcloud_operator.Kube.World.{
  StatusType, undeployed, reconciling, deployed, failed, ModelSummary, Status,
}
use wasmcloud_operator.Manifest.Types.{Manifest}
use wasmcloud_operator.Discovery.{ListMeta, default_list_meta}

pub record TableColumnDefinition : Type 0 where
  pub name : String
  pub kind : String
  pub format : String
  pub description : String
  pub priority : ℕ

-- `impl Default for TableColumnDefinition`
abbrev pub default_column : TableColumnDefinition
default_column = record { name = ""; kind = ""; format = ""; description = ""; priority = 0 }

pub record TableRow : Type 0 where
  pub cells : List String

pub record Application : Type 0 where
  pub api_version : String
  pub kind : String
  pub metadata : ObjectMeta

-- `Application::new`
unfoldable pub new_application : String → Application
new_application name = record {
  api_version = "v1beta1";
  kind = "Application";
  metadata = record default_meta { name = some name };
}

-- The fields that the conversion from a summary sets.
pub record ApplicationPartial : Type 0 where
  pub name : Option String
  pub namespace : Option String
  pub resource_version : Option String
  pub uid : Option String
  pub spec : BTreeMap String
  pub status : BTreeMap String

pub record ApplicationList : Type 0 where
  pub api_version : String
  pub kind : String
  pub items : List ApplicationPartial
  pub metadata : ListMeta

-- `ApplicationList::new`
unfoldable pub new_list : ApplicationList
new_list = record {
  api_version = "core.oam.dev/v1beta1";
  kind = "ApplicationList";
  items = [];
  metadata = default_list_meta;
}

pub record ApplicationTable : Type 0 where
  pub api_version : String
  pub kind : String
  pub column_definitions : List TableColumnDefinition
  pub rows : List TableRow
  pub metadata : ListMeta

-- `ApplicationTable::new`
unfoldable pub new_table : ApplicationTable
new_table = record {
  api_version = "meta.k8s.io/v1";
  kind = "Table";
  column_definitions =
      record {
        name = "Application";
        kind = "string";
        description = "Name of the Application";
        priority = 0;
        format = "name";
      }
      ∷ record default_column {
        name = "Deployed Version";
        kind = "string";
        description = "Currently deployed version of the Application";
        priority = 0;
      }
      ∷ record default_column {
        name = "Latest Version";
        kind = "string";
        description = "Latest available version of the Application";
        priority = 0;
      }
      ∷ record default_column {
        name = "Status";
        kind = "string";
        description = "Current status of the Application";
        priority = 0;
      }
      ∷ [];
  rows = [];
  metadata = default_list_meta;
}

abbrev pub status_text : StatusType → String
status_text undeployed = "Undeployed"
status_text reconciling = "Reconciling"
status_text deployed = "Deployed"
status_text failed = "Failed"

abbrev pub summary_row : ModelSummary → TableRow
summary_row i = record {
  cells = i.name ∷ unwrap_or i.deployed_version "N/A" ∷ i.version ∷ status_text i.status ∷ [];
}

-- `From<Vec<ModelSummary>> for ApplicationTable`
unfoldable pub table_of_summaries : List ModelSummary → ApplicationTable
unfolding new_table
table_of_summaries summaries = record new_table { rows = map summary_row summaries }

pub record CombinedManifest : Type 0 where
  pub manifest : Manifest
  pub status : Status

-- `CombinedManifest::deployed_version`
unfoldable pub deployed_version : CombinedManifest → String
unfolding BTreeMap.get
deployed_version cm = unwrap_or (BTreeMap.get "version" cm.manifest.annotations) "N/A"

abbrev pub combined_row : CombinedManifest → TableRow
combined_row cm = record {
  cells =
      cm.manifest.name
      ∷ deployed_version cm
      ∷ cm.status.version
      ∷ status_text cm.status.status_type
      ∷ [];
}

-- `From<Vec<CombinedManifest>> for ApplicationTable`
unfoldable pub table_of_manifests : List CombinedManifest → ApplicationTable
unfolding new_table
table_of_manifests manifests = record new_table { rows = map combined_row manifests }

-- `From<ModelSummary> for ApplicationPartial`, with the UUID of version 5 of a text.
unfoldable pub partial_of_summary : (String → String) → ModelSummary → ApplicationPartial
partial_of_summary new_v5 summary = record {
  name = some summary.name;
  namespace = some "default";
  resource_version = some (new_v5 (summary.name <> "/" <> summary.version));
  uid = some (new_v5 (summary.name <> "/" <> summary.version));
  spec = [];
  status = [];
}

-- `From<Vec<ApplicationPartial>> for ApplicationList`, with serde's text of the partials.
unfoldable pub list_of_partials :
    (String → String)
    → (List ApplicationPartial → String)
    → List ApplicationPartial
    → ApplicationList
unfolding new_list
list_of_partials new_v5 to_text partials = record new_list {
  metadata = record { resource_version = some (new_v5 (to_text partials)) };
  items = partials;
}
