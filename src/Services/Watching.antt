-- ===== src/Services/Watching.antt =====
-- `watch` and `stop_watch` of src/services.rs against the relation that they maintain: which
-- lattice is watched for which namespace.
use wasmcloud_operator.Base.{
  String, ◌≡◌, refl, Bool, true, false, ◌&&◌, Option, none, some, List, [], ◌∷◌, arith, ◌==◌,
  eq_iff, if◌then◌else◌, is_empty, Option-cases, inl, inr, ◌++◌, ◌≢◌, ◌+◌, ◌⊎◌,
}
use wasmcloud_operator.Base.Outcome.{ok}
use wasmcloud_operator.Base.HashMap
use wasmcloud_operator.Base.HashMap.{HashMap, string_key, get-insert, get-remove}
use wasmcloud_operator.Base.HashSet
use wasmcloud_operator.Base.HashSet.{contains-insert, contains-remove}
use wasmcloud_operator.Kube.World.{NatsClient, World}
use wasmcloud_operator.Services.Types.{Watcher, ServiceWatcher, Operator}
use wasmcloud_operator.Services.Watch.{
  watch, stop_watch, leave, add_namespace, remove_namespace, consumer_name,
}

-- The queue and the state of the receiver are all that may differ.
pub record KeepsWatchers (s s' : ServiceWatcher) : Type 0 where
  pub watchers : s'.watchers ≡ s.watchers
  pub tasks : s'.tasks ≡ s.tasks
  pub cancelled : s'.cancelled ≡ s.cancelled
  pub next_token : s'.next_token ≡ s.next_token

abbrev pub has : String → Option Watcher → Bool
has namespace none = false
has namespace (some w) = HashSet.contains namespace w.namespaces

-- Whether the lattice is watched for the namespace.
unfoldable pub watches : ServiceWatcher → String → String → Bool
watches s lattice_id namespace = has namespace (HashMap.get lattice_id s.watchers)

has-if :
    (b : Bool) (n : String) (w : Watcher) (o : Option Watcher)
    → has n (if b then some w else o) ≡ (if b then HashSet.contains n w.namespaces else has n o)
has-if true n w o = refl
has-if false n w o = refl

-- The watcher that `start_watch` adds.
abbrev pub fresh : NatsClient → String → String → ServiceWatcher → Watcher
fresh client n l s = record {
  namespaces = n ∷ [];
  lattice_id = l;
  nats_client = client;
  shutdown = s.next_token;
  consumer = consumer_name l;
}

abbrev pub started : NatsClient → String → String → ServiceWatcher → ServiceWatcher
started client n l s = record s {
  watchers = HashMap.insert l (fresh client n l s) s.watchers;
  tasks = s.tasks ++ fresh client n l s ∷ [];
  next_token = s.next_token + 1;
}

abbrev pub joined : String → String → Watcher → ServiceWatcher → ServiceWatcher
joined n l x s = record s { watchers = HashMap.insert l (add_namespace n x) s.watchers }

module _ {M : Type 0} (w : World M) where
  -- `watch` on a lattice that has an entry makes no call and cannot fail.
  pub watch_again :
      (client : NatsClient) (n l : String) (op : Operator) (x : Watcher)
      → HashMap.get l op.services.watchers ≡ some x
      → watch w client n l op ≡ (ok tt, record op { services = joined n l x op.services })
  unfolding watch
  watch_again client n l op x e = ground (arith, e)

  -- On a new lattice it either fails and leaves the watchers alone, or starts one.
  pub watch_first :
      (client : NatsClient) (n l : String) (op : Operator)
      → HashMap.get l op.services.watchers ≡ none
      → ((watch w client n l op).0 ≢ ok tt) × ((watch w client n l op).1.services ≡ op.services)
        ⊎ ((watch w client n l op).0 ≡ ok tt)
          × ((watch w client n l op).1.services ≡ started client n l op.services)
  unfolding watch
  watch_first client n l op e = ground (arith, e)

  -- A successful `watch` adds the namespace to the lattice, and changes no other pair.
  pub watches-watch :
      (client : NatsClient) (n l : String) (op : Operator) (l' n' : String)
      → (watch w client n l op).0 ≡ ok tt
      → watches (watch w client n l op).1.services l' n'
        ≡ (if l == l' && n == n' then true else watches op.services l' n')
  unfolding watches HashSet.contains add_namespace
  watches-watch client n l op l' n' h = elim (Option-cases (HashMap.get l op.services.watchers)) [
    | inl e ↦ elim (watch_first client n l op e) [
      | inl (bad, _) ↦ absurd (bad h)
      | inr (_, same) ↦ rw same (
          ground (
            arith,
            e,
            get-insert l l' (fresh client n l op.services) op.services.watchers,
            eq_iff l l',
          ))
    ]
    | inr (x, e) ↦ rw (watch_again client n l op x e) (
        ground (
          arith,
          e,
          get-insert l l' (add_namespace n x) op.services.watchers,
          contains-insert n n' x.namespaces,
          eq_iff l l',
          eq_iff n n',
        ))
  ]

contains_of_is_empty :
    (n : String) (xs : List String) → is_empty xs ≡ true → HashSet.contains n xs ≡ false
unfolding HashSet.contains
contains_of_is_empty n [] h = refl
contains_of_is_empty n (x ∷ xs) h = cc

-- What `stop_watch` leaves of the watchers, whatever becomes of its command.
pub watchers-stop_watch :
    (l n : String) (s : ServiceWatcher) (x : Watcher)
    → HashMap.get l s.watchers ≡ some x
    → (stop_watch l n s).1.watchers ≡ (leave l n x s).watchers
unfolding stop_watch
watchers-stop_watch l n s x e = ground (arith, e)

-- `stop_watch` removes the namespace from the lattice, and changes no other pair, whether or not
-- its command can be sent.
pub watches-stop_watch :
    (l n : String) (s : ServiceWatcher) (l' n' : String)
    → watches (stop_watch l n s).1 l' n' ≡ (if l == l' && n == n' then false else watches s l' n')
unfolding stop_watch watches leave
watches-stop_watch l n s l' n' = elim (Option-cases (HashMap.get l s.watchers)) [
  | inl e ↦ ground (arith, e, eq_iff l l', eq_iff n n')
  | inr (x, e) ↦ rw (watchers-stop_watch l n s x e) (
      ground (
        arith,
        e,
        get-insert l l' (remove_namespace n x) s.watchers,
        get-remove {V = Watcher} l l' s.watchers,
        contains-remove n n' x.namespaces,
        contains_of_is_empty n' (HashSet.remove n x.namespaces),
        eq_iff l l',
        eq_iff n n',
      ))
]
