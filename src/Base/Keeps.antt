-- ===== src/Base/Keeps.antt =====
-- Invariants of the state under code that may fail: one rule for each way to build such code.
use wasmcloud_operator.Base.Core.{if◌then◌else◌}
use mathlib.Core.Path.{◌≡◌, refl}
use mathlib.Core.Bool.{Bool, true, false}
use mathlib.Core.Option.{Option, none, some}
use mathlib.Core.List.{List, [], ◌∷◌}
use wasmcloud_operator.Base.Outcome.{Outcome, ok, err, panic}
use wasmcloud_operator.Base.Exec.{
  Exec, pure, lift, unwrap, continue, ◌>>=◌, ignore_error, for_each, fold_each,
}

-- Whatever the outcome, the state has the property afterwards if it had it before.
pub record Keeps {E S A : Type 0} (P : S → Type 0) (m : Exec E S A) : Type 0 where
  pub after : (s : S) → P s → P (m s).1

module _ {E S A : Type 0} {P : S → Type 0} where
  pub Keeps-pure : (a : A) → Keeps {E = E} P (pure a)
  Keeps-pure a = record { after = λ s h. h }

  pub Keeps-lift : (r : Outcome E A) → Keeps P (lift r)
  Keeps-lift r = record { after = λ s h. h }

  pub Keeps-unwrap : (o : Option A) → Keeps {E = E} P (unwrap o)
  Keeps-unwrap none = record { after = λ s h. h }
  Keeps-unwrap (some a) = record { after = λ s h. h }

  pub Keeps-if :
      (b : Bool) (m n : Exec E S A) → Keeps P m → Keeps P n → Keeps P (if b then m else n)
  Keeps-if true m n km kn = km
  Keeps-if false m n km kn = kn

  pub Keeps-ignore : (m : Exec E S A) → Keeps P m → Keeps P (ignore_error m)
  unfolding ignore_error
  Keeps-ignore m k = record { after = k.after }

module _ {E S A B : Type 0} {P : S → Type 0} where
  pub Keeps-continue :
      (r : Outcome E A) (f : A → Exec E S B)
      → ((a : A) → Keeps P (f a))
      → (s : S) → P s
      → P (continue r f s).1
  Keeps-continue (ok a) f k s h = (k a).after s h
  Keeps-continue (err e) f k s h = h
  Keeps-continue panic f k s h = h

  pub Keeps-bind :
      (m : Exec E S A) (f : A → Exec E S B)
      → Keeps P m
      → ((a : A) → Keeps P (f a))
      → Keeps P (m >>= f)
  Keeps-bind m f km kf = record {
    after = λ s h. let (r, s') = m s in Keeps-continue r f kf s' (km.after s h);
  }

module _ {E S A B : Type 0} {P : S → Type 0} where
  pub Keeps-fold_each :
      (f : B → A → Exec E S B)
      → ((b : B) (a : A) → Keeps P (f b a))
      → (b : B) (xs : List A) → Keeps P (fold_each f b xs)
  unfolding fold_each
  Keeps-fold_each f k b [] = record { after = λ s h. h }
  Keeps-fold_each f k b (x ∷ xs) =
      Keeps-bind (f b x) (λ c. fold_each f c xs) (k b x) (λ c. Keeps-fold_each f k c xs)

module _ {E S A : Type 0} {P : S → Type 0} where
  pub Keeps-for_each :
      (f : A → Exec E S (Unit {0}))
      → ((a : A) → Keeps P (f a))
      → (xs : List A) → Keeps P (for_each f xs)
  unfolding for_each
  Keeps-for_each f k [] = record { after = λ s h. h }
  Keeps-for_each f k (x ∷ xs) =
      Keeps-bind (f x) (λ _. for_each f xs) (k x) (λ _. Keeps-for_each f k xs)

pub ruleset keeps_rules =
    (Keeps-pure, Keeps-unwrap, Keeps-if, Keeps-ignore, Keeps-bind, Keeps-for_each, Keeps-fold_each)

module _ {E S A B : Type 0} {P : S → Type 0} where
  pub Keeps-option :
      (o : Option A) (m : Exec E S B) (f : A → Exec E S B)
      → Keeps P m
      → ((a : A) → Keeps P (f a))
      → Keeps P (elim o [ none ↦ m | some a ↦ f a ])
  Keeps-option none m f km kf = km
  Keeps-option (some a) m f km kf = kf a

-- The property holds afterwards in any case.
pub record Ensures {E S A : Type 0} (P : S → Type 0) (m : Exec E S A) : Type 0 where
  pub after : (s : S) → P (m s).1

module _ {E S A B : Type 0} {P : S → Type 0} where
  pub Ensures-bind :
      (m : Exec E S A) (f : A → Exec E S B)
      → Ensures P m
      → ((a : A) → Keeps P (f a))
      → Ensures P (m >>= f)
  Ensures-bind m f em kf = record {
    after = λ s. let (r, s') = m s in Keeps-continue r f kf s' (em.after s);
  }

  pub Ensures-then :
      (f : Exec E S A) (g : Exec E S B) (s : S) → Ensures P f → Keeps P g → P (g (f s).1).1
  Ensures-then f g s e k = k.after (f s).1 (e.after s)

module _ {E S A B : Type 0} where
  continue_ok :
      (r : Outcome E A) (f : A → Exec E S B) (s : S) {b : B}
      → (continue r f s).0 ≡ ok b
      → (a : A) × (r ≡ ok a) × (continue r f s ≡ f a s)
  continue_ok (ok a) f s h = (a, refl, refl)
  continue_ok (err e) f s h = cc
  continue_ok panic f s h = cc

  -- A sequence that succeeds is its first part, with a value, and then its second.
  pub bind_ok :
      (m : Exec E S A) (f : A → Exec E S B) (s : S) {b : B}
      → ((m >>= f) s).0 ≡ ok b
      → (a : A) × ((m s).0 ≡ ok a) × ((m >>= f) s ≡ f a (m s).1)
  bind_ok m f s h = continue_ok (m s).0 f (m s).1 h
