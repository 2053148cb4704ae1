-- ===== src/Application/Listing/Once.antt =====
-- `list_applications` and `list_all_applications` of src/resources/application.rs: how often each
-- lattice is asked for its applications.
use wasmcloud_operator.Base.{
  ℕ, ◌+◌, ◌≤◌, arith, String, ◌≡◌, Bool, ◌||◌, ◌==◌, List, ◌∷◌, ◌<>◌, any, [],
}
use wasmcloud_operator.Base.HashSet
use wasmcloud_operator.Base.HashSet.{contains-insert}
use wasmcloud_operator.Base.Exec.{pure, ◌>>=◌, unwrap, fold_each, map_error}
use wasmcloud_operator.Base.Post.{Post, Post-map, Post-bind, Post-continue, Post-intro, Post-unwrap}
use wasmcloud_operator.HostConfig.{WasmCloudHostConfig}
use wasmcloud_operator.Kube.World.{
  reply, list_host_configs, list_all_host_configs, World, of_reply, ask,
}
use wasmcloud_operator.Manifest.Types.{Manifest}
use wasmcloud_operator.Services.Types.{name_namespace_key, Operator}
use wasmcloud_operator.Controller.Types.{Crates}
use wasmcloud_operator.Header.{As}
use wasmcloud_operator.Http.{Response, internal_error}
use wasmcloud_operator.Application.Listing.Rounds.{
  requests, one, Counted, key_of, some_most, round-requests,
}
use wasmcloud_operator.Application.Listing.{
  Handler, Encoder, shown, Listing, list_applications, list_all_applications, kube_client,
  configs_in, list_round, list_in, list_anywhere, list_applications, kube_client, configs_in,
  Encoder,
}

module _ {B : Type 0} (Q : B → Operator → Type 0) (R : Operator → Type 0) where
  -- What follows the client of Kubernetes, which leaves the state alone.
  Post-kube_client :
      (w : World Manifest) (f : Handler B) (op : Operator)
      → Post Q R (f op)
      → R op
      → Post Q R ((kube_client w >>= λ _. f) op)
  unfolding kube_client internal_error
  Post-kube_client w f op h g =
      let r =
        map_error (λ e. internal_error ("unable to initialize kubernetes client: " <> e))
          (of_reply (w.kube_client op.calls)) in
      Post-continue (λ _ _. Unit {0}) Q R r (λ _. f) op (Post-intro _ _ r op (λ _. tt) g) (λ _ _. h)

module _ (w : World Manifest) (crates : Crates) (l : String) where
  abbrev here : WasmCloudHostConfig → Bool
  here c = c.spec.lattice == l

  -- A loop whose rounds add to the count as `list_round` does.
  fold-requests :
      (round : Listing → WasmCloudHostConfig → Handler Listing)
      → ((b : Listing) (cfg : WasmCloudHostConfig) (n : ℕ) (op : Operator)
          → requests l op.calls ≡ n + one (HashSet.contains l b.lattices)
          → Post
              (Counted l n (HashSet.contains l b.lattices || cfg.spec.lattice == l))
              (λ op'. requests l op'.calls ≤ n + 1)
              (round b cfg op))
      → (configs : List WasmCloudHostConfig) (b : Listing) (n : ℕ) (op : Operator)
      → requests l op.calls ≡ n + one (HashSet.contains l b.lattices)
      → Post
          (Counted l n (HashSet.contains l b.lattices || any here configs))
          (λ op'. requests l op'.calls ≤ n + 1)
          (fold_each round b configs op)
  unfolding fold_each
  fold-requests round k [] b n op h = (ground arith, h)
  fold-requests round k (cfg ∷ configs) b n op h =
      Post-bind (Counted l n (HashSet.contains l b.lattices || cfg.spec.lattice == l)) _
        (λ op'. requests l op'.calls ≤ n + 1) (round b cfg) (λ c. fold_each round c configs) op
        (k b cfg n op h)
        (λ c op' (e, h').
          Post-map (Counted l n (HashSet.contains l c.lattices || any here configs)) _
            (λ op'. requests l op'.calls ≤ n + 1) _ (fold_each round c configs op').0
            (fold_each round c configs op').1 (λ d (e', g). (ground (arith, e, e'), g)) (λ g. g)
            (fold-requests round k configs c n op' h'))

  list_in-requests :
      (namespace : String) (b : Listing) (cfg : WasmCloudHostConfig) (n : ℕ) (op : Operator)
      → requests l op.calls ≡ n + one (HashSet.contains l b.lattices)
      → Post
          (Counted l n (HashSet.contains l b.lattices || cfg.spec.lattice == l))
          (λ op'. requests l op'.calls ≤ n + 1)
          (list_in w crates namespace b cfg op)
  unfolding list_in
  list_in-requests namespace b cfg n op h =
      Post-unwrap _ _ cfg.name (λ name. list_round w crates b cfg (key_of name namespace)) op
        (λ name. round-requests w crates l b cfg (key_of name namespace) n op h)
        (some_most l n b op h)

  list_anywhere-requests :
      (b : Listing) (cfg : WasmCloudHostConfig) (n : ℕ) (op : Operator)
      → requests l op.calls ≡ n + one (HashSet.contains l b.lattices)
      → Post
          (Counted l n (HashSet.contains l b.lattices || cfg.spec.lattice == l))
          (λ op'. requests l op'.calls ≤ n + 1)
          (list_anywhere w crates b cfg op)
  unfolding list_anywhere
  list_anywhere-requests b cfg n op h =
      Post-unwrap _ _ cfg.name
        (λ name.
          unwrap cfg.namespace >>= λ namespace. list_round w crates b cfg (key_of name namespace))
        op
        (λ name.
          Post-unwrap _ _ cfg.namespace
            (λ namespace. list_round w crates b cfg (key_of name namespace)) op
            (λ namespace. round-requests w crates l b cfg (key_of name namespace) n op h)
            (some_most l n b op h))
        (some_most l n b op h)

  listed-requests :
      (round : Listing → WasmCloudHostConfig → Handler Listing) (answer : Listing → Response)
      → ((b : Listing) (cfg : WasmCloudHostConfig) (n : ℕ) (op : Operator)
          → requests l op.calls ≡ n + one (HashSet.contains l b.lattices)
          → Post
              (Counted l n (HashSet.contains l b.lattices || cfg.spec.lattice == l))
              (λ op'. requests l op'.calls ≤ n + 1)
              (round b cfg op))
      → (configs : List WasmCloudHostConfig) (op : Operator)
      → Post
          (λ _ op'. requests l op'.calls ≡ requests l op.calls + one (any here configs))
          (λ op'. requests l op'.calls ≤ requests l op.calls + 1)
          ((fold_each round (record { apps = []; lattices = [] }) configs >>= λ b. pure (answer b))
            op)
  unfolding HashSet.contains
  listed-requests round answer k configs op =
      Post-bind {E = Response} (Counted l (requests l op.calls) (any here configs)) _
        (λ op'. requests l op'.calls ≤ requests l op.calls + 1)
        (fold_each round (record { apps = []; lattices = [] }) configs) (λ b. pure (answer b)) op
        (fold-requests round k configs (record { apps = []; lattices = [] }) (requests l op.calls)
          op (omega arith))
        (λ b op' (e, g). rw e at g)

  -- If the API server lists host configurations, `list_applications` asks each lattice at most once
  -- for its applications, and on success exactly the lattices of the configurations.
  pub list_applications-requests :
      (e : Encoder) (accept : As) (namespace : String) (op : Operator)
      (configs : List WasmCloudHostConfig)
      → w.host_configs op.calls namespace ≡ reply configs
      → Post
          (λ _ op'. requests l op'.calls ≡ requests l op.calls + one (any here configs))
          (λ op'. requests l op'.calls ≤ requests l op.calls + 1)
          (list_applications w crates e accept namespace op)
  unfolding list_applications kube_client configs_in ask
  list_applications-requests e accept namespace op configs h =
      Post-kube_client _ _ w _ op
        (rw h (
          listed-requests (list_in w crates namespace) (λ b. shown e accept b.apps)
            (list_in-requests namespace) configs
            (record op { calls = list_host_configs namespace ∷ op.calls })))
        (omega arith)

  -- If the API server lists the host configurations of all namespaces, `list_all_applications` asks
  -- each lattice at most once for its applications, and on success exactly the lattices of the
  -- configurations.
  pub list_all_applications-requests :
      (e : Encoder) (accept : As) (op : Operator) (configs : List WasmCloudHostConfig)
      → w.all_host_configs op.calls ≡ reply configs
      → Post
          (λ _ op'. requests l op'.calls ≡ requests l op.calls + one (any here configs))
          (λ op'. requests l op'.calls ≤ requests l op.calls + 1)
          (list_all_applications w crates e accept op)
  unfolding list_all_applications kube_client ask
  list_all_applications-requests e accept op configs h =
      Post-kube_client _ _ w _ op
        (rw h (
          listed-requests (list_anywhere w crates) (λ b. shown e accept b.apps)
            list_anywhere-requests configs
            (record op { calls = list_all_host_configs ∷ op.calls })))
        (omega arith)
