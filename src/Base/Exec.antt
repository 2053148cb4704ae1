-- ===== src/Base/Exec.antt =====
-- Code that reads and changes a state `S`, and ends with a value, an error or a panic. What was
-- done before an error stays done.
use mathlib.Core.Option.{Option, none, some}
use mathlib.Core.List.{List, [], ◌∷◌}
use wasmcloud_operator.Base.Outcome.{Outcome, ok, err, panic}

abbrev pub Exec : Type 0 → Type 0 → Type 0 → Type 0
Exec E S A = S → Outcome E A × S

abbrev pub settled : {E A : Type 0} → Outcome E A → Outcome E (Unit {0})
settled (ok a) = ok tt
settled (err e) = ok tt
settled panic = panic

abbrev pub map_error : {E F A : Type 0} → (E → F) → Outcome E A → Outcome F A
map_error f (ok a) = ok a
map_error f (err e) = err (f e)
map_error f panic = panic

module _ {E S A : Type 0} where
  abbrev pub pure : A → Exec E S A
  pure a s = (ok a, s)

  abbrev pub fail : E → Exec E S A
  fail e s = (err e, s)

  abbrev pub abort : Exec E S A
  abort s = (panic, s)

  -- `Option::unwrap`
  abbrev pub unwrap : Option A → Exec E S A
  unwrap none s = (panic, s)
  unwrap (some a) s = (ok a, s)

  -- A result that is already at hand, under `?`.
  abbrev pub lift : Outcome E A → Exec E S A
  lift r s = (r, s)

  -- `.ok()` on the result: an error is dropped, a panic is not.
  unfoldable pub ignore_error : Exec E S A → Exec E S (Unit {0})
  ignore_error m s = let (r, s') = m s in (settled r, s')

module _ {E S A B : Type 0} where
  abbrev pub continue : Outcome E A → (A → Exec E S B) → Exec E S B
  continue (ok a) f s = f a s
  continue (err e) f s = (err e, s)
  continue panic f s = (panic, s)

  infixl 5 ◌>>=◌
  abbrev pub ◌>>=◌ : Exec E S A → (A → Exec E S B) → Exec E S B
  ◌>>=◌ m f s = let (r, s') = m s in continue r f s'

infixl 5 ◌>>◌
abbrev pub ◌>>◌ : {E S B : Type 0} → Exec E S (Unit {0}) → Exec E S B → Exec E S B
m >> n = m >>= λ _. n

module _ {E F S A : Type 0} where
  -- `Result::map_err` on the result of an action.
  abbrev pub map_err : (E → F) → Exec E S A → Exec F S A
  map_err f m s = let (r, s') = m s in (map_error f r, s')

-- `for x in xs { … }`, left by the first error.
unfoldable pub for_each :
    {E S A : Type 0} → (A → Exec E S (Unit {0})) → List A → Exec E S (Unit {0})
for_each f [] = pure tt
for_each f (x ∷ xs) = f x >>= λ _. for_each f xs

-- A loop that builds a value from its rounds.
unfoldable pub fold_each : {E S A B : Type 0} → (B → A → Exec E S B) → B → List A → Exec E S B
fold_each f b [] = pure b
fold_each f b (x ∷ xs) = f b x >>= λ c. fold_each f c xs
