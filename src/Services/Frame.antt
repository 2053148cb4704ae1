-- ===== src/Services/Frame.antt =====
-- Calls, and what they leave as it was: rules for a property of the operator that calls of a kind do
-- not disturb.
use wasmcloud_operator.Base.{String, Bool, true, false, List, ◌∷◌, if◌then◌else◌}
use wasmcloud_operator.Base.Exec.{map_err}
use wasmcloud_operator.Base.Keeps.{Keeps}
use wasmcloud_operator.Kube.World.{
  Call, get_host_config, get_secret, get_config_map, list_host_configs, list_all_host_configs,
  connect, list_manifests, get_manifest, get_manifest_status, Net, Reply, ask,
}
use wasmcloud_operator.Services.Types.{Operator}
use wasmcloud_operator.Services.Watch.{on_calls}

-- The calls of the controller and of the handlers that change nothing outside the operator.
abbrev pub is_read : Call → Bool
is_read (get_host_config namespace name) = true
is_read (get_secret namespace name) = true
is_read (get_config_map namespace name) = true
is_read (list_host_configs namespace) = true
is_read list_all_host_configs = true
is_read (connect address creds) = true
is_read (list_manifests lattice_id) = true
is_read (get_manifest lattice_id name version) = true
is_read (get_manifest_status lattice_id name) = true
is_read _ = false

abbrev pub with_calls : Operator → List Call → Operator
with_calls op calls = record op { calls = calls }

abbrev pub Undisturbed : (Call → Type 0) → (Operator → Type 0) → Type 0
Undisturbed C P =
    (op : Operator) (call : Call) → C call → P op → P (with_calls op (call ∷ op.calls))

pub after_if :
    {A S : Type 0} (P : S → Type 0) (b : Bool) (x y : A × S)
    → P x.1
    → P y.1
    → P (if b then x else y).1
after_if P true x y p q = p
after_if P false x y p q = q

module _ {A : Type 0} (P : Operator → Type 0) where
  pub Keeps-on_calls :
      {F : Type 0} (f : String → F) (m : Net A)
      → ((op : Operator) → Keeps (λ calls. P (with_calls op calls)) m)
      → Keeps P (map_err f (on_calls m))
  Keeps-on_calls f m k = record { after = λ op h. (k op).after op.calls h }

module _ {C : Call → Type 0} (P : Operator → Type 0) (r : Undisturbed C P) where
  pub Keeps-ask :
      {A : Type 0} (op : Operator) (g : List Call → Reply A) (call : Call)
      → C call
      → Keeps (λ calls. P (with_calls op calls)) (ask g call)
  unfolding ask
  Keeps-ask op g call e = record { after = λ calls h. r (with_calls op calls) call e h }

  pub Keeps-request :
      {A F : Type 0} (f : String → F) (g : List Call → Reply A) (call : Call)
      → C call
      → Keeps P (map_err f (on_calls (ask g call)))
  unfolding ask
  Keeps-request f g call e = record { after = λ op h. r op call e h }
