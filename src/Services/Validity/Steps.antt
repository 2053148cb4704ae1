-- ===== src/Services/Validity/Steps.antt =====
-- `watch` and `stop_watch` of src/services.rs keep the watchers and their event loops valid.
use wasmcloud_operator.Services.Validity.{IsValid, IsValid-keeps, send-keeps}
use wasmcloud_operator.Services.Validity.Entries.{
  started-IsValid, IsEntry-joined, replaced-IsValid, leave-IsValid,
}
use wasmcloud_operator.Base.{String, refl, [], ◌∷◌, Option-cases, inl, inr}
use wasmcloud_operator.Base.HashMap
use wasmcloud_operator.Base.HashMap.{
  HashMap, string_key, get-insert_cases, get-remove_cases, get-insert_self, get-insert_ne,
  get-remove_ne,
}
use wasmcloud_operator.Kube.World.{NatsClient, World}
use wasmcloud_operator.Services.Types.{ServiceWatcher, Operator, remove_services}
use wasmcloud_operator.Services.Watch.{watch, stop_watch, leave, add_namespace}
use wasmcloud_operator.Services.Watching.{watch_again, watch_first}

-- If the watchers and their event loops are valid, then they are valid after `watch`, whatever its
-- outcome.
pub watch-IsValid :
    {M : Type 0} (w : World M) (client : NatsClient) (n l : String) (op : Operator)
    → IsValid op.services
    → IsValid (watch w client n l op).1.services
unfolding add_namespace
watch-IsValid w client n l op v = elim (Option-cases (HashMap.get l op.services.watchers)) [
  | inr (x, e) ↦ rw (watch_again w client n l op x e) (
      replaced-IsValid n l op.services x v e (add_namespace n x) refl
        (IsEntry-joined n l op.services x v e))
  | inl e ↦ elim (watch_first w client n l op e) [
    | inl (_, same) ↦ rw same v
    | inr (_, same) ↦ rw same (started-IsValid client n l op.services v e)
  ]
]

-- If the watchers and their event loops are valid, then they are valid after `stop_watch`, whether
-- or not its command can be sent.
pub stop_watch-IsValid :
    (l n : String) (s : ServiceWatcher) → IsValid s → IsValid (stop_watch l n s).1
unfolding stop_watch
stop_watch-IsValid l n s v = elim (Option-cases (HashMap.get l s.watchers)) [
  | inl e ↦ rw (e, stop_watch) v
  | inr (x, e) ↦
      rw (e, stop_watch)
        (IsValid-keeps (send-keeps (remove_services (n ∷ [])) (leave l n x s))
          (leave-IsValid n l s x v e))
]
