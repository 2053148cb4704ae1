-- ===== src/Base/Runs.antt =====
-- Code that does not panic: one rule for each way to build it.
use mathlib.Core.Path.{◌≡◌}
use mathlib.Core.Bool.{Bool, true, false}
use mathlib.Core.Option.{Option, none, some}
use mathlib.Core.List.{List, [], ◌∷◌}
use wasmcloud_operator.Base.Core.{All, is_some, if◌then◌else◌}
use wasmcloud_operator.Base.Outcome.{Outcome, ok, err, panic}
use wasmcloud_operator.Base.Exec.{
  Exec, pure, unwrap, map_err, map_error, continue, ◌>>=◌, ignore_error, for_each, fold_each,
  settled,
}

-- A value with the property, or an error.
abbrev pub Sound : {E A : Type 0} → (A → Type 0) → Outcome E A → Type 0
Sound Q (ok a) = Q a
Sound Q (err e) = Unit
Sound Q panic = ⊥

-- In any state, no panic, and a value has the property.
pub record Runs {E S A : Type 0} (Q : A → Type 0) (m : Exec E S A) : Type 0 where
  pub from : (s : S) → Sound Q (m s).0

abbrev pub Any : {A : Type 0} → A → Type 0
Any a = Unit

module _ {E S A : Type 0} {Q : A → Type 0} where
  pub Runs-pure : (a : A) → Q a → Runs {E = E} {S = S} Q (pure a)
  Runs-pure a q = record { from = λ s. q }

  pub Runs-if : (b : Bool) (m n : Exec E S A) → Runs Q m → Runs Q n → Runs Q (if b then m else n)
  Runs-if true m n k l = k
  Runs-if false m n k l = l

settled-Sound :
    {E A : Type 0} (Q : A → Type 0) (r : Outcome E A) → Sound Q r → Sound Any (settled r)
settled-Sound Q (ok a) h = tt
settled-Sound Q (err e) h = tt
settled-Sound Q panic h = h

module _ {E S A : Type 0} where
  pub Runs-unwrap : (o : Option A) → is_some o ≡ true → Runs {E = E} {S = S} Any (unwrap o)
  Runs-unwrap none h = cc
  Runs-unwrap (some a) h = record { from = λ s. tt }

  pub Runs-ignore : {Q : A → Type 0} (m : Exec E S A) → Runs Q m → Runs Any (ignore_error m)
  unfolding ignore_error
  Runs-ignore {Q} m k = record { from = λ s. settled-Sound Q (m s).0 (k.from s) }

map_error-Sound :
    {E F A : Type 0} (Q : A → Type 0) (f : E → F) (r : Outcome E A)
    → Sound Q r
    → Sound Q (map_error f r)
map_error-Sound Q f (ok a) h = h
map_error-Sound Q f (err e) h = tt
map_error-Sound Q f panic h = h

module _ {E F S A : Type 0} {Q : A → Type 0} where
  pub Runs-map_err : (f : E → F) (m : Exec E S A) → Runs Q m → Runs Q (map_err f m)
  Runs-map_err f m k = record { from = λ s. map_error-Sound Q f (m s).0 (k.from s) }

module _ {E S A B : Type 0} (Q : A → Type 0) {Q' : B → Type 0} where
  continue-Sound :
      (r : Outcome E A) (f : A → Exec E S B) (s : S)
      → Sound Q r
      → ((a : A) → Q a → Runs Q' (f a))
      → Sound Q' (continue r f s).0
  continue-Sound (ok a) f s h k = (k a h).from s
  continue-Sound (err e) f s h k = tt
  continue-Sound panic f s h k = h

  pub Runs-bind :
      (m : Exec E S A) (f : A → Exec E S B)
      → Runs Q m
      → ((a : A) → Q a → Runs Q' (f a))
      → Runs Q' (m >>= f)
  Runs-bind m f k l = record { from = λ s. continue-Sound (m s).0 f (m s).1 (k.from s) l }

module _ {E S A : Type 0} (P : A → Type 0) where
  pub Runs-for_each :
      (f : A → Exec E S (Unit {0}))
      → ((a : A) → P a → Runs Any (f a))
      → (xs : List A) → All P xs
      → Runs Any (for_each f xs)
  unfolding for_each
  Runs-for_each f k [] h = Runs-pure tt tt
  Runs-for_each f k (x ∷ xs) (p, h) = Runs-bind Any (f x) _ (k x p) λ _ _. Runs-for_each f k xs h

  pub Runs-fold_each :
      {B : Type 0} (f : B → A → Exec E S B)
      → ((b : B) (a : A) → P a → Runs Any (f b a))
      → (b : B) (xs : List A) → All P xs
      → Runs Any (fold_each f b xs)
  unfolding fold_each
  Runs-fold_each f k b [] h = Runs-pure b tt
  Runs-fold_each f k b (x ∷ xs) (p, h) =
      Runs-bind Any (f b x) _ (k b x p) λ c _. Runs-fold_each f k c xs h
