-- ===== src/Base/Post.antt =====
-- What a run of code that may fail leaves: one property for a value and its state, another for the
-- state after an error or a panic.
use mathlib.Core.Path.{◌≡◌, refl}
use mathlib.Core.Bool.{Bool, true, false}
use wasmcloud_operator.Base.Core.{if◌then◌else◌}
use mathlib.Core.Option.{Option, none, some}
use wasmcloud_operator.Base.Outcome.{Outcome, ok, err, panic}
use wasmcloud_operator.Base.Exec.{Exec, continue, ◌>>=◌, map_error, unwrap}

module _ {E S A : Type 0} where
  abbrev pub Post : (A → S → Type 0) → (S → Type 0) → Outcome E A × S → Type 0
  Post Q R (ok a, s) = Q a s
  Post Q R (err e, s) = R s
  Post Q R (panic, s) = R s

  pub Post-map :
      (Q Q' : A → S → Type 0) (R R' : S → Type 0) (r : Outcome E A) (s : S)
      → ((a : A) → Q a s → Q' a s)
      → (R s → R' s)
      → Post Q R (r, s)
      → Post Q' R' (r, s)
  Post-map Q Q' R R' (ok a) s f g h = f a h
  Post-map Q Q' R R' (err e) s f g h = g h
  Post-map Q Q' R R' panic s f g h = g h

  pub Post-intro :
      (Q : A → S → Type 0) (R : S → Type 0) (r : Outcome E A) (s : S)
      → ((a : A) → Q a s)
      → R s
      → Post Q R (r, s)
  Post-intro Q R (ok a) s f g = f a
  Post-intro Q R (err e) s f g = g
  Post-intro Q R panic s f g = g

  pub Post-if :
      (Q : A → S → Type 0) (R : S → Type 0) (b : Bool) (x y : Outcome E A × S)
      → (b ≡ true → Post Q R x)
      → (b ≡ false → Post Q R y)
      → Post Q R (if b then x else y)
  Post-if Q R true x y f g = f refl
  Post-if Q R false x y f g = g refl

  pub Post-ok :
      (Q : A → S → Type 0) (R : S → Type 0) (r : Outcome E A × S) (a : A)
      → Post Q R r
      → r.0 ≡ ok a
      → Q a r.1
  Post-ok Q R (ok b, s) a h e = rw (ok_inj e) at h
    where
      ok_inj : {b a : A} → ◌≡◌ {A = Outcome E A} (ok b) (ok a) → b ≡ a
      ok_inj e = cc
  Post-ok Q R (err e', s) a h e = cc
  Post-ok Q R (panic, s) a h e = cc

  pub Post-state : (R : S → Type 0) (r : Outcome E A × S) → Post (λ a s. R s) R r → R r.1
  Post-state R (ok a, s) h = h
  Post-state R (err e, s) h = h
  Post-state R (panic, s) h = h

module _ {E F S A : Type 0} where
  pub Post-map_error :
      (f : E → F) (Q : A → S → Type 0) (R : S → Type 0) (r : Outcome E A) (s : S)
      → Post Q R (r, s)
      → Post Q R (map_error f r, s)
  Post-map_error f Q R (ok a) s h = h
  Post-map_error f Q R (err e) s h = h
  Post-map_error f Q R panic s h = h

module _ {E S A B : Type 0} where
  pub Post-continue :
      (Q : A → S → Type 0) (Q' : B → S → Type 0) (R : S → Type 0) (r : Outcome E A)
      (f : A → Exec E S B) (s : S)
      → Post Q R (r, s)
      → ((a : A) → Q a s → Post Q' R (f a s))
      → Post Q' R (continue r f s)
  Post-continue Q Q' R (ok a) f s h k = k a h
  Post-continue Q Q' R (err e) f s h k = h
  Post-continue Q Q' R panic f s h k = h

  pub Post-bind :
      (Q : A → S → Type 0) (Q' : B → S → Type 0) (R : S → Type 0) (m : Exec E S A)
      (f : A → Exec E S B) (s : S)
      → Post Q R (m s)
      → ((a : A) (t : S) → Q a t → Post Q' R (f a t))
      → Post Q' R ((m >>= f) s)
  Post-bind Q Q' R m f s h k = Post-continue Q Q' R (m s).0 f (m s).1 h (λ a g. k a (m s).1 g)

module _ {E S A B : Type 0} (Q : B → S → Type 0) (R : S → Type 0) where
  -- `unwrap`, and what is done with the value.
  pub Post-unwrap :
      (o : Option A) (f : A → Exec E S B) (s : S)
      → ((a : A) → Post Q R (f a s))
      → R s
      → Post Q R ((unwrap o >>= f) s)
  Post-unwrap none f s k g = g
  Post-unwrap (some a) f s k g = k a
