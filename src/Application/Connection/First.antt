-- ===== src/Application/Connection/First.antt =====
-- `get_lattice_connection` of src/resources/application.rs when the servers do not change meanwhile.
use wasmcloud_operator.Base.{
  String, ◌≡◌, refl, sym, Bool, true, false, Option, none, some, List, [], ◌∷◌, arith, first, ◌⊎◌,
  inl, inr, Option-cases,
}
use wasmcloud_operator.Base.Outcome.{Outcome, ok, err, panic}
use wasmcloud_operator.Base.Exec.{pure, continue}
use wasmcloud_operator.Base.HashMap
use wasmcloud_operator.Base.HashMap.{HashMap}
use wasmcloud_operator.HostConfig.{WasmCloudHostConfig}
use wasmcloud_operator.Kube.World.{
  Call, NatsClient, World, Reply, reply, failed, of_reply, ask, connect,
}
use wasmcloud_operator.Manifest.Types.{Manifest}
use wasmcloud_operator.Services.Types.{NameNamespace, name_namespace_key, Operator}
use wasmcloud_operator.Controller.Types.{Crates}
use wasmcloud_operator.Controller.Reconcile.{get_nats_client, nats_address, expected_creds}
use wasmcloud_operator.Http.{Response, internal_error}
use wasmcloud_operator.Application.Connection.{get_lattice_connection}

abbrev pub is_reply : {A : Type 0} → Reply A → Bool
is_reply (reply a) = true
is_reply (failed e) = false

-- Credentials are well formed, and a server is up or down for the time of a request.
pub record IsSteady (w : World Manifest) (up : String → Option String → Bool) : Type 0 where
  pub accepted : (creds : String) → w.credentials creds ≡ reply tt
  pub steady :
      (h : List Call) (address : String) (creds : Option String)
      → is_reply (w.connected h address creds) ≡ up address creds

abbrev pub key_in : String → String → NameNamespace
key_in namespace name = record { name = name; namespace = namespace }

-- The client of a configuration, if it has a name.
abbrev pub client_of :
    String → HashMap NameNamespace String → WasmCloudHostConfig → String → NatsClient
client_of namespace creds cfg name = record {
  address = nats_address cfg.spec;
  creds = HashMap.get (key_in namespace name) creds;
}

abbrev pub is_reached :
    (String → Option String → Bool)
    → String
    → HashMap NameNamespace String
    → WasmCloudHostConfig
    → Bool
is_reached up namespace creds cfg = elim cfg.name [
  | none ↦ false
  | some name ↦ up (nats_address cfg.spec) (HashMap.get (key_in namespace name) creds)
]

-- The connection to the first configuration that can be reached.
abbrev pub first_reached :
    (String → Option String → Bool)
    → String
    → HashMap NameNamespace String
    → List WasmCloudHostConfig
    → Outcome Response (NatsClient × String)
first_reached up namespace creds configs = elim (first (is_reached up namespace creds) configs) [
  | none ↦ err (internal_error "unable to initialize nats client")
  | some cfg ↦ elim cfg.name [
    | none ↦ panic
    | some name ↦ ok (client_of namespace creds cfg name, cfg.spec.lattice)
  ]
]

by_reply :
    (r : Reply (Unit {0})) (client : NatsClient) (op : Operator) (b : Bool)
    → is_reply r ≡ b
    → ((continue {E = String} (of_reply r) (λ _. pure client) op).1.nats_creds ≡ op.nats_creds)
      × ((b ≡ true) × ((continue {E = String} (of_reply r) (λ _. pure client) op).0 ≡ ok client)
          ⊎ (b ≡ false)
            × ((e : String) × ((continue {E = String} (of_reply r) (λ _. pure client) op).0
                  ≡ err e)))
by_reply (reply _) client op b h = (refl, inl (sym h, refl))
by_reply (failed e) client op b h = (refl, inr (sym h, (e, refl)))

module _ (w : World Manifest) (crates : Crates) (up : String → Option String → Bool)
    (st : IsSteady w up) where
  creds_accepted : (o : Option String) → expected_creds w crates o ≡ ok tt
  unfolding expected_creds
  creds_accepted none = ground arith
  creds_accepted (some c) = ground (arith, st.accepted c)

  -- What becomes of one connection.
  connection_cases :
      (address : String) (key : NameNamespace) (op : Operator)
      → ((get_nats_client w crates address key op).1.nats_creds ≡ op.nats_creds)
        × ((up address (HashMap.get key op.nats_creds) ≡ true)
              × ((get_nats_client w crates address key op).0
                  ≡ ok (record { address = address; creds = HashMap.get key op.nats_creds }))
            ⊎ (up address (HashMap.get key op.nats_creds) ≡ false)
              × ((e : String) × ((get_nats_client w crates address key op).0 ≡ err e)))
  unfolding get_nats_client ask
  connection_cases address key op = rw (creds_accepted (HashMap.get key op.nats_creds)) (
      by_reply (w.connected op.calls address (HashMap.get key op.nats_creds))
        (record { address = address; creds = HashMap.get key op.nats_creds })
        (record op { calls = connect address (HashMap.get key op.nats_creds) ∷ op.calls })
        (up address (HashMap.get key op.nats_creds))
        (st.steady op.calls address (HashMap.get key op.nats_creds)))

  -- If credentials are well formed and servers stay up or down, `get_lattice_connection` connects to
  -- the first named configuration that can be reached, and answers an error if there is none.
  pub get_lattice_connection-first_reached :
      (namespace : String) (configs : List WasmCloudHostConfig) (op : Operator)
      → (get_lattice_connection w crates namespace configs op).0
        ≡ first_reached up namespace op.nats_creds configs
  unfolding get_lattice_connection internal_error
  get_lattice_connection-first_reached namespace [] op = refl
  get_lattice_connection-first_reached namespace (cfg ∷ cfgs) op = elim (Option-cases cfg.name) [
    | inl e ↦ rw e (get_lattice_connection-first_reached namespace cfgs op)
    | inr (name, e) ↦
        let key = key_in namespace name in
        let (kept, cases) = connection_cases (nats_address cfg.spec) key op in
        let rest =
          get_lattice_connection-first_reached namespace cfgs
            (get_nats_client w crates (nats_address cfg.spec) key op).1 in
        elim cases [
          | inl (b, r) ↦ ground (arith, e, b, r)
          | inr (b, (e', r)) ↦ ground (arith, e, b, r, rest, kept)
        ]
  ]
