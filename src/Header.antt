-- ===== src/Header.antt =====
-- src/header.rs: the Accept header of the Kubernetes API aggregator.
pub mod RoundTrip
use text.Mathlib.Text.{starts_with}
use Prim.Native.Char.{code}
use Prim.Native.String
use wasmcloud_operator.Base.{
  ℕ, String, Bool, ◌==◌, ◌++◌, true, nat_eq, Option, none, some, List, [], ◌∷◌, map, keep,
  if◌then◌else◌, unwrap_or, first,
}

pub data As : Type 0 where
  api_group_discovery_list partial_object_metadata_list table not_specified : As

-- `impl Display for As`
unfoldable pub as_to_string : As → String
as_to_string api_group_discovery_list = "APIGroupDiscoveryList"
as_to_string partial_object_metadata_list = "PartialObjectMetadataList"
as_to_string table = "Table"
as_to_string not_specified = "NotSpecified"

-- `Accept`, a header for the value that it asks for.
pub record Accept : Type 0 where
  pub asked : As

-- `impl From<Accept> for As`
abbrev pub as_of_accept : Accept → As
as_of_accept accept = accept.asked

-- `impl Display for Accept`
unfoldable pub accept_to_string : Accept → String
unfolding as_to_string
accept_to_string accept = as_to_string accept.asked

-- `str::split` at a character.
abbrev pub split : ℕ → String → List String
split c String.[] = "" ∷ []
split c (String.◌∷◌ x s) =
    let rest = split c s in
    if nat_eq (code x) c
    then "" ∷ rest
    else elim rest [ [] ↦ String.◌∷◌ x "" ∷ [] | part ∷ parts ↦ String.◌∷◌ x part ∷ parts ]

-- `str::strip_prefix`
abbrev pub strip_prefix : String → String → Option String
strip_prefix String.[] s = some s
strip_prefix (String.◌∷◌ a p) String.[] = none
strip_prefix (String.◌∷◌ a p) (String.◌∷◌ b s) =
    let rest = strip_prefix p s in if nat_eq (code a) (code b) then rest else none

abbrev pub semicolon : ℕ
semicolon = 59

-- The values of the parameter `as`.
unfoldable pub as_parts : String → List String
as_parts value =
    map (λ p. unwrap_or (strip_prefix "as=" p) "")
      (keep (λ p. starts_with p "as=") (split semicolon value))

unfoldable pub as_of : Option String → As
as_of none = not_specified
as_of (some name) =
    if name == "APIGroupDiscoveryList"
    then api_group_discovery_list
    else if name == "PartialObjectMetadataList"
    then partial_object_metadata_list
    else if name == "Table"
    then table
    else not_specified

-- The first value of the header; `none` stands for a value that is no visible ASCII text.
unfoldable pub decode : List (Option String) → As
unfolding as_parts as_of
decode [] = not_specified
decode (value ∷ _) = as_of (first (λ p. true) (as_parts (unwrap_or value "n/a")))

unfoldable pub encode : As → List (Option String) → List (Option String)
unfolding as_to_string
encode a values = values ++ some (as_to_string a) ∷ []
