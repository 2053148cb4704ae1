-- ===== src/Services/Refinement.antt =====
-- The service watcher of src/services.rs against an abstract one, which keeps only which lattice is
-- watched for which namespace.
use wasmcloud_operator.Base.{
  ℕ, String, ◌≡◌, ◌≢◌, refl, sym, ◌∙◌, Bool, true, false, ◌&&◌, List, [], ◌∷◌, ◌==◌, if◌then◌else◌,
  Option-cases, inl, inr, is_empty, arith, some, ◌↔◌, eq_iff,
}
use wasmcloud_operator.Base.Outcome.{Outcome, ok, err, panic}
use wasmcloud_operator.Base.HashMap
use wasmcloud_operator.Base.HashMap.{string_key}
use wasmcloud_operator.Base.HashSet
use wasmcloud_operator.Kube.World.{NatsClient, World}
use wasmcloud_operator.Manifest.Types.{Manifest}
use wasmcloud_operator.Services.Types.{ServiceWatcher, Operator, new, Watcher}
use wasmcloud_operator.Services.Watch.{watch}
use wasmcloud_operator.Services.Watching.{
  KeepsWatchers, watches, watches-watch, watches-stop_watch, watch_again, watch_first,
}
use wasmcloud_operator.Services.Reach.{
  initial, Step, watching, stopping, event, reconciling, draining, Reach, here, next, HasRunning,
  Reach-running_iff, Reach-IsValid, watch_event-keeps, reconcile-keeps, drain-keeps, HasRunning,
  Reach-running_iff, Reach-IsValid,
}

-- What a step means to who asks for it: the client sees whether `watch` succeeds.
pub data Intent : Type 0 where
  join quit : String → String → Intent
  quiet : Intent

abbrev pub on_result : {A : Type 0} → Outcome String A → Intent → Intent
on_result (ok a) act = act
on_result (err e) act = quiet
on_result panic act = quiet

abbrev pub act : {w : World Manifest} {op op' : Operator} → Step w op op' → Intent
act {w} (watching client n l op) = on_result (watch w client n l op).0 (join l n)
act (stopping l n op) = quit l n
act (event t m op _ _) = quiet
act (reconciling apps l op) = quiet
act (draining op) = quiet

-- The actions of a run, newest first.
abbrev pub acts : {w : World Manifest} {start op : Operator} → Reach w start op → List Intent
acts here = []
acts (next r st) = act st ∷ acts r

-- Whether a lattice is watched for a namespace: the last action that names the pair decides.
abbrev pub replay : List Intent → String → String → Bool
replay [] l n = false
replay (join l' n' ∷ past) l n = if l' == l && n' == n then true else replay past l n
replay (quit l' n' ∷ past) l n = if l' == l && n' == n then false else replay past l n
replay (quiet ∷ past) l n = replay past l n

watches_kept :
    {s s' : ServiceWatcher} → KeepsWatchers s s' → (l n : String) → watches s' l n ≡ watches s l n
unfolding watches
watches_kept k l n = rw (k.watchers) refl

-- A failed `watch` leaves the watchers alone.
watch_failed :
    (w : World Manifest) (client : NatsClient) (n l : String) (op : Operator)
    → (watch w client n l op).0 ≢ ok tt
    → (watch w client n l op).1.services ≡ op.services
watch_failed w client n l op bad = elim (Option-cases (HashMap.get l op.services.watchers)) [
  | inl e ↦ elim (watch_first w client n l op e) [
    | inl (_, same) ↦ same
    | inr (good, _) ↦ absurd (bad good)
  ]
  | inr (x, e) ↦ absurd (bad (rw (watch_again w client n l op x e) refl))
]

by_result :
    (r : Outcome String (Unit {0})) (s s' : ServiceWatcher) (l n : String) (past : List Intent)
    (l' n' : String)
    → watches s l' n' ≡ replay past l' n'
    → (r ≡ ok tt → watches s' l' n' ≡ (if l == l' && n == n' then true else watches s l' n'))
    → (r ≢ ok tt → s' ≡ s)
    → watches s' l' n' ≡ replay (on_result r (join l n) ∷ past) l' n'
by_result (ok tt) s s' l n past l' n' h f g = rw (f refl) (rw h refl)
by_result (err e) s s' l n past l' n' h f g = rw (g (λ x. cc)) h
by_result panic s s' l n past l' n' h f g = rw (g (λ x. cc)) h

watched_step :
    (w : World Manifest) (client : NatsClient) (n l : String) (op : Operator) (past : List Intent)
    (l' n' : String)
    → watches op.services l' n' ≡ replay past l' n'
    → watches (watch w client n l op).1.services l' n'
      ≡ replay (on_result (watch w client n l op).0 (join l n) ∷ past) l' n'
watched_step w client n l op past l' n' h =
    by_result (watch w client n l op).0 op.services (watch w client n l op).1.services l n past l'
      n' h (watches-watch w client n l op l' n') (watch_failed w client n l op)

Step-replay :
    {w : World Manifest} {op op' : Operator} (st : Step w op op') (past : List Intent)
    (l n : String)
    → watches op.services l n ≡ replay past l n
    → watches op'.services l n ≡ replay (act st ∷ past) l n
Step-replay {w} (watching client n l op) past l' n' h = watched_step w client n l op past l' n' h
Step-replay (stopping l n op) past l' n' h =
    rw (watches-stop_watch l n op.services l' n') (rw h refl)
Step-replay {w} (event t m op _ _) past l n h =
    watches_kept (watch_event-keeps w t m op.services) l n ∙ h
Step-replay {w} (reconciling apps l op) past l' n h =
    watches_kept (reconcile-keeps w apps l op) l' n ∙ h
Step-replay {w} (draining op) past l n h = watches_kept (drain-keeps w op) l n ∙ h

-- The service watcher refines the abstract one: after any sequence of the steps of `Step`, a lattice
-- is watched for a namespace exactly if the last successful `watch` or the last `stop_watch` that
-- names the pair is a `watch`.
pub Reach-replay :
    (replicas : ℕ) {w : World Manifest} {op : Operator} (r : Reach w (initial replicas) op)
    (l n : String)
    → watches op.services l n ≡ replay (acts r) l n
unfolding watches new HashMap.get
Reach-replay replicas here l n = refl
Reach-replay replicas (next r st) l n = Step-replay st (acts r) l n (Reach-replay replicas r l n)

some_member :
    (xs : List String) → is_empty xs ≡ false → (n : String) × (HashSet.contains n xs ≡ true)
unfolding HashSet.contains
some_member [] h = cc
some_member (x ∷ xs) h = (x, ground (arith, eq_iff x x))

watched_of_entry :
    (s : ServiceWatcher) (l : String) (x : Watcher)
    → HashMap.get l s.watchers ≡ some x
    → is_empty x.namespaces ≡ false
    → (n : String) × (watches s l n ≡ true)
unfolding watches
watched_of_entry s l x e h = let (n, m) = some_member x.namespaces h in (n, rw e m)

entry_of_watched :
    (s : ServiceWatcher) (l n : String)
    → watches s l n ≡ true
    → (x : Watcher) × (HashMap.get l s.watchers ≡ some x)
unfolding watches
entry_of_watched s l n h = elim (Option-cases (HashMap.get l s.watchers)) [
  | inl e ↦ ground (arith, e)
  | inr p ↦ p
]

-- After any sequence of the steps of `Step`, an event loop runs for a lattice exactly if there is a
-- namespace for which the last successful `watch` or the last `stop_watch` that names both is a `watch`.
pub Reach-running_replay :
    (replicas : ℕ) {w : World Manifest} {op : Operator} (r : Reach w (initial replicas) op)
    (l : String)
    → HasRunning op.services l ↔ ((n : String) × (replay (acts r) l n ≡ true))
Reach-running_replay replicas {op} r l =
    let (to, from) = Reach-running_iff replicas r l in
    (
      (λ h.
          let (x, e) = to h in
          let (n, m) =
            watched_of_entry op.services l x e (((Reach-IsValid replicas r).at_key l x e).used) in
          (n, sym (Reach-replay replicas r l n) ∙ m)),
      (λ (n, m). from (entry_of_watched op.services l n (Reach-replay replicas r l n ∙ m))),
    )
