-- ===== src/Services/Validity.antt =====
-- The watchers of src/services.rs and their event loops: one loop runs for each watched lattice.
pub mod Entries
pub mod Steps
use wasmcloud_operator.Base.{
  ℕ, ◌<◌, String, ◌≡◌, ◌≢◌, refl, sym, ap, ◌∙◌, Bool, false, none, some, List, [], ◌∷◌, ◌++◌, arith,
  is_empty, any, nat_eq, All, All-append, Exists, Option-cases, Bool-cases, inl, inr, ◌⊎◌, ◌==◌,
  eq_iff,
}
use wasmcloud_operator.Base.HashMap
use wasmcloud_operator.Base.HashMap.{
  HashMap, string_key, get-insert_cases, get-remove_cases, get-insert_self, get-insert_ne,
  get-remove_ne,
}
use wasmcloud_operator.Base.HashSet
use wasmcloud_operator.Kube.World.{NatsClient, World}
use wasmcloud_operator.Services.Types.{
  Watcher, ServiceWatcher, Operator, new, WatcherCommand, remove_services,
}
use wasmcloud_operator.Services.Watch.{
  watch, stop_watch, leave, send, add_namespace, remove_namespace,
}
use mathlib.Core.Path.{subst}
use wasmcloud_operator.Services.Watching.{
  KeepsWatchers, started, joined, fresh, watch_again, watch_first,
}

abbrev pub is_cancelled : ℕ → List ℕ → Bool
is_cancelled k ks = any (nat_eq k) ks

abbrev pub HasLoop : List Watcher → String → ℕ → Type 0
HasLoop tasks l k = Exists (λ t. (t.shutdown ≡ k) × (t.lattice_id ≡ l)) tasks

-- The entry of a lattice: its namespaces are not empty, and an event loop with its token runs.
pub record IsEntry (s : ServiceWatcher) (l : String) (w : Watcher) : Type 0 where
  pub lattice : w.lattice_id ≡ l
  pub used : is_empty w.namespaces ≡ false
  pub alive : is_cancelled w.shutdown s.cancelled ≡ false
  pub old : w.shutdown < s.next_token
  pub loop : HasLoop s.tasks l w.shutdown

-- A loop that runs belongs to the entry of its lattice.
abbrev pub IsBacked : ServiceWatcher → Watcher → Type 0
IsBacked s t =
    is_cancelled t.shutdown s.cancelled ≡ false
    → (w : Watcher) × (HashMap.get t.lattice_id s.watchers ≡ some w) × (w.shutdown ≡ t.shutdown)

pub record IsValid (s : ServiceWatcher) : Type 0 where
  pub at_key : (l : String) (w : Watcher) → HashMap.get l s.watchers ≡ some w → IsEntry s l w
  pub distinct :
      (l l' : String) (w w' : Watcher)
      → HashMap.get l s.watchers ≡ some w
      → HashMap.get l' s.watchers ≡ some w'
      → w.shutdown ≡ w'.shutdown
      → l ≡ l'
  pub cancelled_old : All (λ k. k < s.next_token) s.cancelled
  pub tasks_old : All (λ (t : Watcher). t.shutdown < s.next_token) s.tasks
  pub backed : All (IsBacked s) s.tasks

pub All-map :
    {A : Type 0} {P Q : A → Type 0} (f : (a : A) → P a → Q a) (xs : List A) → All P xs → All Q xs
All-map f [] h = tt
All-map f (x ∷ xs) (p, h) = (f x p, All-map f xs h)

pub Exists-append :
    {A : Type 0} (P : A → Type 0) (xs ys : List A)
    → (Exists P xs ⊎ Exists P ys)
    → Exists P (xs ++ ys)
Exists-append P [] ys (inl h) = elim h [ ]
Exists-append P [] ys (inr h) = h
Exists-append P (x ∷ xs) ys (inl (inl p)) = inl p
Exists-append P (x ∷ xs) ys (inl (inr h)) = inr (Exists-append P xs ys (inl h))
Exists-append P (x ∷ xs) ys (inr h) = inr (Exists-append P xs ys (inr h))

-- A token that is not yet given out is not cancelled.
pub not_cancelled : (n : ℕ) (ks : List ℕ) → All (λ k. k < n) ks → is_cancelled n ks ≡ false
not_cancelled n [] h = refl
not_cancelled n (k ∷ ks) (p, h) = ground (arith, not_cancelled n ks h)

pub is_empty-insert : (n : String) (xs : List String) → is_empty (HashSet.insert n xs) ≡ false
unfolding HashSet.insert
is_empty-insert n [] = refl
is_empty-insert n (x ∷ xs) = ground arith

pub IsValid-new : (replicas : ℕ) → IsValid (new replicas)
unfolding new HashMap.get
IsValid-new replicas = record {
  at_key = λ l w h. cc h;
  distinct = λ l l' w w' h k e. cc h;
  cancelled_old = tt;
  tasks_old = tt;
  backed = tt;
}

-- Validity is about the watchers, their tasks and their tokens alone.
IsValid-refield :
    (s : ServiceWatcher) (replicas : ℕ) (queue : List WatcherCommand) (open_ : Bool)
    → IsValid s
    → IsValid (record s { stream_replicas = replicas; queue = queue; is_open = open_ })
IsValid-refield s replicas queue open_ v = record {
  at_key = λ l w h.
      let z = v.at_key l w h in
      record { lattice = z.lattice; used = z.used; alive = z.alive; old = z.old; loop = z.loop };
  distinct = v.distinct;
  cancelled_old = v.cancelled_old;
  tasks_old = v.tasks_old;
  backed = v.backed;
}

pub IsValid-keeps : {s s' : ServiceWatcher} → KeepsWatchers s s' → IsValid s → IsValid s'
IsValid-keeps {s} {s'} k v =
    subst IsValid
      (sym λ i. record s' {
        watchers = k.watchers i;
        tasks = k.tasks i;
        cancelled = k.cancelled i;
        next_token = k.next_token i;
      })
      (IsValid-refield s s'.stream_replicas s'.queue s'.is_open v)

pub send-keeps : (c : WatcherCommand) (s : ServiceWatcher) → KeepsWatchers s (send c s).1
unfolding send
send-keeps c s = record {
  watchers = ground arith;
  tasks = ground arith;
  cancelled = ground arith;
  next_token = ground arith;
}
