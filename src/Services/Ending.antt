-- ===== src/Services/Ending.antt =====
-- The end of an event loop of src/services.rs whose stream of messages fails or runs out.
use wasmcloud_operator.Base.{
  ℕ, String, ◌≡◌, refl, sym, ◌∙◌, true, false, some, List, [], ◌∷◌, arith, All, Exists, inl, inr,
}
use wasmcloud_operator.Base.Outcome.{ok}
use wasmcloud_operator.Base.HashMap
use wasmcloud_operator.Base.HashMap.{string_key}
use wasmcloud_operator.Kube.World.{NatsClient, World}
use wasmcloud_operator.Manifest.Types.{Manifest}
use wasmcloud_operator.Services.Types.{Watcher, ServiceWatcher, Operator}
use wasmcloud_operator.Services.Watch.{watch, drop_watcher, is_running}
use wasmcloud_operator.Services.Watching.{joined, watch_again}
use wasmcloud_operator.Services.Validity.{IsValid, IsBacked, is_cancelled}
use wasmcloud_operator.Services.Reach.{HasRunning}

-- `watch_events` returns, and the task drops the clone that it owns.
unfoldable pub ended : Watcher → ServiceWatcher → ServiceWatcher
unfolding drop_watcher
ended t s = drop_watcher t s

other : (k j : ℕ) (ks : List ℕ) → is_cancelled k (j ∷ ks) ≡ false → ¬ (k ≡ j)
other k j ks h e = ground (arith, h, e)

same_token :
    (s : ServiceWatcher) (l : String) (t x y : Watcher)
    → t.lattice_id ≡ l
    → HashMap.get l s.watchers ≡ some x
    → HashMap.get t.lattice_id s.watchers ≡ some y
    → y.shutdown ≡ t.shutdown
    → t.shutdown ≡ x.shutdown
same_token s l t x y p e at same = cc

none_runs :
    (s : ServiceWatcher) (l n : String) (t x : Watcher) (tasks : List Watcher)
    → HashMap.get l s.watchers ≡ some x
    → t.shutdown ≡ x.shutdown
    → All (IsBacked s) tasks
    → ¬ Exists (λ u. (u.lattice_id ≡ l) × (is_running (joined n l x (ended t s)) u ≡ true)) tasks
unfolding is_running ended drop_watcher
none_runs s l n t x [] e same b h = h
none_runs s l n t x (u ∷ us) e same (b, _) (inl (p, q)) =
    let (y, at, token) = b (ground (arith, q)) in
    other u.shutdown t.shutdown s.cancelled (ground (arith, q))
      (same_token s l u x y p e at token ∙ sym same)
none_runs s l n t x (u ∷ us) e same (_, b) (inr h) = none_runs s l n t x us e same b h

-- In a valid state, once the event loop of a lattice ends because its stream fails or runs out, a
-- `watch` of the lattice succeeds, but no event loop runs for it afterwards.
pub watch-ended :
    (w : World Manifest) (client : NatsClient) (n l : String) (op : Operator) (t x : Watcher)
    → IsValid op.services
    → HashMap.get l op.services.watchers ≡ some x
    → t.shutdown ≡ x.shutdown
    → ((watch w client n l (record op { services = ended t op.services })).0 ≡ ok tt)
      × (¬ HasRunning
          (watch w client n l (record op { services = ended t op.services })).1.services
          l)
unfolding ended drop_watcher
watch-ended w client n l op t x v e same =
    rw (watch_again w client n l (record op { services = ended t op.services }) x e)
      (refl, none_runs op.services l n t x op.services.tasks e same v.backed)
