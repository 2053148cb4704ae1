-- ===== src/Application/Tables.antt =====
-- The tables of src/resources/application.rs against the width that src/table.rs asks for.
use wasmcloud_operator.Base.{◌≡◌, refl, List, [], ◌∷◌, All, length, map}
use wasmcloud_operator.Kube.World.{ModelSummary}
use wasmcloud_operator.Application.Types.{
  ApplicationTable, TableRow, CombinedManifest, summary_row, combined_row, table_of_summaries,
  table_of_manifests,
}

-- Each row has as many cells as there are columns.
abbrev pub IsRectangular : ApplicationTable → Type 0
IsRectangular t = All (λ (r : TableRow). length r.cells ≡ length t.column_definitions) t.rows

summary_rows :
    (apps : List ModelSummary) → All (λ (r : TableRow). length r.cells ≡ 4) (map summary_row apps)
summary_rows [] = tt
summary_rows (a ∷ apps) = (refl, summary_rows apps)

combined_rows :
    (ms : List CombinedManifest) → All (λ (r : TableRow). length r.cells ≡ 4) (map combined_row ms)
combined_rows [] = tt
combined_rows (m ∷ ms) = (refl, combined_rows ms)

-- The tables of summaries and of manifests have rows as wide as their columns.
pub tables-IsRectangular :
    (apps : List ModelSummary) (ms : List CombinedManifest)
    → IsRectangular (table_of_summaries apps) × IsRectangular (table_of_manifests ms)
unfolding table_of_summaries table_of_manifests
tables-IsRectangular apps ms = (summary_rows apps, combined_rows ms)
