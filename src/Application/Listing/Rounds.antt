-- ===== src/Application/Listing/Rounds.antt =====
-- `list_applications` and `list_all_applications` of src/resources/application.rs: what one
-- round of their loops adds to the requests for the applications of a lattice.
use wasmcloud_operator.Base.{
  ℕ, ◌+◌, ◌≤◌, arith, String, ◌≡◌, refl, Bool, true, false, ◌||◌, ◌==◌, eq_iff, Option, List, ◌∷◌,
  ◌++◌, ◌<>◌, keep, length,
}
use wasmcloud_operator.Base.HashMap
use wasmcloud_operator.Base.HashSet
use wasmcloud_operator.Base.HashSet.{contains-insert}
use wasmcloud_operator.Base.Outcome.{Outcome, ok, err, panic}
use wasmcloud_operator.Base.Exec.{pure, map_err, map_error}
use wasmcloud_operator.Base.Post.{Post, Post-map, Post-bind, Post-continue, Post-intro, Post-if}
use wasmcloud_operator.HostConfig.{WasmCloudHostConfig}
use wasmcloud_operator.Kube.World.{
  Call, list_manifests, connect, World, of_reply, ask, Net, ModelSummary,
}
use wasmcloud_operator.Manifest.Types.{Manifest}
use wasmcloud_operator.Services.Types.{NameNamespace, name_namespace_key, Operator}
use wasmcloud_operator.Services.Watch.{on_calls}
use wasmcloud_operator.Controller.Types.{Crates}
use wasmcloud_operator.Controller.Reconcile.{list_apps, checked_creds, nats_address}
use wasmcloud_operator.Http.{Response, internal_error}
use wasmcloud_operator.Application.Listing.{Listing, list_round}

-- The requests for the applications of a lattice among the calls made.
abbrev pub is_request : String → Call → Bool
is_request l (list_manifests m) = m == l
is_request l _ = false

abbrev pub requests : String → List Call → ℕ
requests l calls = length (keep (is_request l) calls)

abbrev pub one : Bool → ℕ
one true = 1
one false = 0

one_le : (b : Bool) (n : ℕ) → n ≤ n + one b
one_le true n = omega arith
one_le false n = omega arith

one_most : (b : Bool) → one b ≤ 1
one_most true = omega arith
one_most false = omega arith

requests_request :
    (l m : String) (calls : List Call)
    → requests l (list_manifests m ∷ calls) ≡ requests l calls + one (m == l)
requests_request l m calls = ground arith

module _ (l m : String) (lattices : List String) where
  listed_again :
      HashSet.contains m lattices ≡ true
      → HashSet.contains l lattices ≡ (HashSet.contains l lattices || m == l)
  listed_again h = ground (arith, eq_iff m l)

  listed_first :
      HashSet.contains l (HashSet.insert m lattices) ≡ (HashSet.contains l lattices || m == l)
  listed_first = ground (arith, contains-insert m l lattices)

  counted_first :
      HashSet.contains m lattices ≡ false
      → one (HashSet.contains l lattices) + one (m == l)
        ≡ one (HashSet.contains l (HashSet.insert m lattices))
  counted_first h = ground (arith, eq_iff m l, contains-insert m l lattices)

  counted_most :
      HashSet.contains m lattices ≡ false → one (HashSet.contains l lattices) + one (m == l) ≤ 1
  counted_most h = ground (arith, eq_iff m l)

module _ {A : Type 0} (Q : A → List Call → Type 0) (R : List Call → Type 0)
    (f : String → Response) where
  asked_result :
      (r : Outcome String A) (calls : List Call) (op : Operator)
      → Post Q R (r, calls)
      → Post
          (λ a op'. Q a op'.calls)
          (λ op'. R op'.calls)
          (map_error f r, record op { calls = calls })
  asked_result (ok a) calls op h = h
  asked_result (err e) calls op h = h
  asked_result panic calls op h = h

  -- A call of a handler, whose error becomes a response.
  pub Post-asked :
      (m : Net A) (op : Operator)
      → Post Q R (m op.calls)
      → Post (λ a op'. Q a op'.calls) (λ op'. R op'.calls) (map_err f (on_calls m) op)
  Post-asked m op h = asked_result (m op.calls).0 (m op.calls).1 op h

-- The listing has the lattice exactly if `seen`, and it was asked for exactly once more then.
abbrev pub Counted : String → ℕ → Bool → Listing → Operator → Type 0
Counted l n seen b op =
    (HashSet.contains l b.lattices ≡ seen)
    × (requests l op.calls ≡ n + one (HashSet.contains l b.lattices))

abbrev pub key_of : String → String → NameNamespace
key_of name namespace = record { name = name; namespace = namespace }

pub some_most :
    (l : String) (n : ℕ) (b : Listing) (op : Operator)
    → requests l op.calls ≡ n + one (HashSet.contains l b.lattices)
    → requests l op.calls ≤ n + 1
some_most l n b op h = omega (arith, h, one_most (HashSet.contains l b.lattices))

module _ (w : World Manifest) (crates : Crates) (l : String) where
  list_apps-requests :
      (address : String) (creds : Option String) (m : String) (calls : List Call)
      → Post
          (λ _ s. requests l s ≡ requests l calls + one (m == l))
          (λ s. requests l s ≤ requests l calls + one (m == l))
          (list_apps w crates address creds m calls)
  unfolding list_apps ask
  list_apps-requests address creds m calls =
      let most = one_le (m == l) (requests l calls) in
      let later = connect address creds ∷ calls in
      Post-continue (λ _ s. requests l s ≡ requests l calls) _ _ (checked_creds w crates creds) _
        calls (Post-intro _ _ (checked_creds w crates creds) calls (λ _. refl) most)
        (λ _ _.
          Post-continue (λ _ s. requests l s ≡ requests l calls) _ _
            (of_reply (w.connected calls address creds)) _ later
            (Post-intro _ _ (of_reply (w.connected calls address creds)) later (λ _. refl) most)
            (λ _ _.
              Post-intro _ _ (of_reply (w.manifests later m)) (list_manifests m ∷ later)
                (λ _. requests_request l m calls) (omega (arith, requests_request l m calls))))

  pub round-requests :
      (b : Listing) (cfg : WasmCloudHostConfig) (key : NameNamespace) (n : ℕ) (op : Operator)
      → requests l op.calls ≡ n + one (HashSet.contains l b.lattices)
      → Post
          (Counted l n (HashSet.contains l b.lattices || cfg.spec.lattice == l))
          (λ op'. requests l op'.calls ≤ n + 1)
          (list_round w crates b cfg key op)
  unfolding list_round
  round-requests b cfg key n op h =
      let m = cfg.spec.lattice in
      let creds = HashMap.get key op.nats_creds in
      let seen = HashSet.contains l b.lattices in
      Post-if _ _ (HashSet.contains m b.lattices) (ok b, op) _
        (λ e. (listed_again l m b.lattices e, h))
        (λ e.
          Post-bind {E = Response} {A = List ModelSummary} {B = Listing}
            (λ _ op'. requests l op'.calls ≡ n + one seen + one (m == l))
            (Counted l n (seen || m == l)) (λ op'. requests l op'.calls ≤ n + 1)
            (map_err (λ e'. internal_error ("unable to list applications: " <> e'))
              (on_calls (list_apps w crates (nats_address cfg.spec) creds m)))
            (λ apps.
              pure (record { apps = b.apps ++ apps; lattices = HashSet.insert m b.lattices }))
            op
            (Post-asked (λ _ s. requests l s ≡ n + one seen + one (m == l))
              (λ s. requests l s ≤ n + 1)
              (λ e'. internal_error ("unable to list applications: " <> e'))
              (list_apps w crates (nats_address cfg.spec) creds m) op
              (Post-map (λ _ s. requests l s ≡ requests l op.calls + one (m == l)) _
                (λ s. requests l s ≤ requests l op.calls + one (m == l)) _ _ _
                (λ _ q. omega (arith, q, h))
                (λ q. omega (arith, q, h, counted_most l m b.lattices e))
                (list_apps-requests (nats_address cfg.spec) creds m op.calls)))
            (λ apps s q.
              (listed_first l m b.lattices, omega (arith, q, counted_first l m b.lattices e))))
