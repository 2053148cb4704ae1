-- ===== src/Base/Lands.antt =====
-- Code that does not panic in the states at hand: what its value and its state have, if it has one.
use mathlib.Core.Logic.{◌≢◌}
use wasmcloud_operator.Base.Outcome.{Outcome, ok, err, panic}
use wasmcloud_operator.Base.Exec.{Exec, continue, ◌>>=◌, map_err, map_error}
use wasmcloud_operator.Base.Keeps.{Keeps}
use wasmcloud_operator.Base.Runs.{Sound, Runs}

abbrev pub Lands : {E S A : Type 0} → (A → S → Type 0) → Outcome E A × S → Type 0
Lands Q (ok a, s) = Q a s
Lands Q (err e, s) = Unit
Lands Q (panic, s) = ⊥

module _ {E S A B : Type 0} (Q : A → S → Type 0) (Q' : B → S → Type 0) where
  Lands-continue :
      (r : Outcome E A) (f : A → Exec E S B) (s : S)
      → Lands Q (r, s)
      → ((a : A) → Q a s → Lands Q' (f a s))
      → Lands Q' (continue r f s)
  Lands-continue (ok a) f s h k = k a h
  Lands-continue (err e) f s h k = tt
  Lands-continue panic f s h k = h

  pub Lands-bind :
      (m : Exec E S A) (f : A → Exec E S B) (s : S)
      → Lands Q (m s)
      → ((a : A) (t : S) → Q a t → Lands Q' (f a t))
      → Lands Q' ((m >>= f) s)
  Lands-bind m f s h k = Lands-continue (m s).0 f (m s).1 h (λ a. k a (m s).1)

module _ {E F S A : Type 0} (Q : A → S → Type 0) where
  Lands-map_error :
      (f : E → F) (r : Outcome E A) (s : S) → Lands Q (r, s) → Lands Q (map_error f r, s)
  Lands-map_error f (ok a) s h = h
  Lands-map_error f (err e) s h = h
  Lands-map_error f panic s h = h

  pub Lands-map_err : (f : E → F) (m : Exec E S A) (s : S) → Lands Q (m s) → Lands Q (map_err f m s)
  Lands-map_err f m s h = Lands-map_error f (m s).0 (m s).1 h

module _ {E S A : Type 0} (Q : A → Type 0) where
  sound : (r : Outcome E A) (s : S) → Sound Q r → Lands (λ a _. Q a) (r, s)
  sound (ok a) s h = h
  sound (err e) s h = tt
  sound panic s h = h

  pub Lands-any : (m : Exec E S A) (s : S) → Runs Q m → Lands (λ a _. Q a) (m s)
  Lands-any m s k = sound (m s).0 (m s).1 (k.from s)

module _ {E S A : Type 0} (Q : A → Type 0) (P : S → Type 0) where
  sound_state : (r : Outcome E A) (s : S) → Sound Q r → P s → Lands (λ a t. Q a × P t) (r, s)
  sound_state (ok a) s h k = (h, k)
  sound_state (err e) s h k = tt
  sound_state panic s h k = h

  -- Code that does not panic in any state, and that keeps a property of the state.
  pub Lands-both :
      (m : Exec E S A) (s : S) → Runs Q m → Keeps P m → P s → Lands (λ a t. Q a × P t) (m s)
  Lands-both m s h k p = sound_state (m s).0 (m s).1 (h.from s) (k.after s p)

module _ {E S A : Type 0} (Q : A → S → Type 0) where
  pub Lands-safe : (r : Outcome E A × S) → Lands Q r → r.0 ≢ panic
  Lands-safe (ok a, s) h p = cc
  Lands-safe (err e, s) h p = cc
  Lands-safe (panic, s) h p = h
