-- ===== src/Base/HashSet.antt =====
-- Rust's `HashSet<String>`. The order in which the model keeps the members is the order of their
-- insertion; no theorem depends on it.
use wasmcloud_operator.Base.Core.{if◌then◌else◌}
use Prim.Native.String.{String}
use mathlib.Core.Path.{◌≡◌}
use mathlib.Core.Bool.{Bool, true, false, ◌||◌}
use mathlib.Core.List.{List, [], ◌∷◌}
use native.Mathlib.Omega.{arith}
use text.Mathlib.Text.{◌==◌}
use text.Mathlib.TextEquality.{eq_iff}

unfoldable pub contains : String → List String → Bool
contains a [] = false
contains a (x ∷ xs) = x == a || contains a xs

unfoldable pub insert : String → List String → List String
insert a [] = a ∷ []
insert a (x ∷ xs) = if x == a then x ∷ xs else x ∷ insert a xs

unfoldable pub remove : String → List String → List String
remove a [] = []
remove a (x ∷ xs) = let rest = remove a xs in if x == a then rest else x ∷ rest

pub contains-insert :
    (a b : String) (xs : List String)
    → contains b (insert a xs) ≡ (if a == b then true else contains b xs)
unfolding contains insert
contains-insert a b [] = ground (arith, eq_iff a b)
contains-insert a b (x ∷ xs) =
    ground (arith, eq_iff a b, eq_iff x a, eq_iff x b, contains-insert a b xs)

pub contains-remove :
    (a b : String) (xs : List String)
    → contains b (remove a xs) ≡ (if a == b then false else contains b xs)
unfolding contains remove
contains-remove a b [] = ground arith
contains-remove a b (x ∷ xs) =
    ground (arith, eq_iff a b, eq_iff x a, eq_iff x b, contains-remove a b xs)

pub ruleset set_laws = (contains-insert, contains-remove)
