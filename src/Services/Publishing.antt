-- ===== src/Services/Publishing.antt =====
-- What an event loop of src/services.rs makes of a published manifest, in the manifest's own terms.
use mathlib.Core.Option
use wasmcloud_operator.Services.EventLaws.{watch_event_lem, service_wanted}
use wasmcloud_operator.Manifest.Serving.{http_server_component-AsksFor}
use wasmcloud_operator.Manifest.HttpServer.{http_server_component, HttpServerComponent}
use wasmcloud_operator.Manifest.Served.{AsksFor}
use wasmcloud_operator.Services.Events.{Acknowledgement, watch_event, ack, published, nak}
use wasmcloud_operator.Services.Types.{
  Watcher, WatcherCommand, ServiceWatcher, ServiceParams, upsert_service,
}
use wasmcloud_operator.Manifest.Types.{Manifest}
use wasmcloud_operator.Kube.World.{World}
use wasmcloud_operator.Base.{
  String, ◌≡◌, ◌⊎◌, refl, none, some, [], ◌∷◌, ◌++◌, if◌then◌else◌, Option-cases, inl, inr, ℕ, ◌∙◌,
}

module _ (w : World Manifest) where
  -- The parameters of the service are those of the manifest, the loop's watcher and the port, with
  -- the host labels that are found with the address.
  pub record IsFor (self : Watcher) (m : Manifest) (port : ℕ) (params : ServiceParams)
      : Type 0 where
    pub name : params.name ≡ m.name
    pub namespaces : params.namespaces ≡ self.namespaces
    pub lattice_id : params.lattice_id ≡ self.lattice_id
    pub port_of_address : params.port ≡ port
    pub host_labels :
        Option.map (λ (d : HttpServerComponent). d.labels) (http_server_component m)
        ≡ some params.host_labels

  -- A command is put into the channel, or the message is handed back where this is closed.
  abbrev pub queued : WatcherCommand → ServiceWatcher → Acknowledgement × ServiceWatcher
  queued c s = if s.is_open then (ack, record s { queue = s.queue ++ c ∷ [] }) else (nak, s)

  abbrev pub IsUpserted :
      Watcher → Manifest → ServiceWatcher → Acknowledgement × ServiceWatcher → Type 0
  IsUpserted self m s r =
      (a : String) × AsksFor m a
      × ((port : ℕ) × (w.socket_port a ≡ some port)
          × ((params : ServiceParams) × IsFor self m port params
              × (r ≡ queued (upsert_service params) s)))

  abbrev pub IsPassedOver : Manifest → ServiceWatcher → Acknowledgement × ServiceWatcher → Type 0
  IsPassedOver m s r = ((a : String) → AsksFor m a → w.socket_port a ≡ none) × (r ≡ (ack, s))

  -- If the manifest asks for a service at an address that has a port, a command to make this
  -- service is sent, for the watcher's namespaces and lattice, and the message is acknowledged
  -- unless the channel is closed. If it asks for none, or at an address without a port, the message
  -- is acknowledged and nothing changes.
  pub watch_event-published :
      (self : Watcher) (m : Manifest) (s : ServiceWatcher)
      → IsUpserted self m s (watch_event w self (published m) s)
        ⊎ IsPassedOver m s (watch_event w self (published m) s)
  watch_event-published self m s = elim (Option-cases (http_server_component m)) [
    | inl e ↦ inr (
      λ a h. let (d, f, g) = (http_server_component-AsksFor m a).1 h in absurd cc,
      watch_event_lem w self (published m) s ∙ rw (service_wanted, e) refl,
    )
    | inr (d, e) ↦ elim (Option-cases (w.socket_port d.address)) [
      | inl f ↦ inr (
        λ a h.
            let (d', g, at_) = (http_server_component-AsksFor m a).1 h in
            let same : d' ≡ d = cc in rw (← at_, same, f) refl,
        watch_event_lem w self (published m) s ∙ rw (service_wanted, e, f) refl,
      )
      | inr (port, f) ↦ inl (
        d.address,
        (http_server_component-AsksFor m d.address).0 (d, e, refl),
        (
          port,
          f,
          (
            record {
              name = m.name;
              namespaces = self.namespaces;
              lattice_id = self.lattice_id;
              port = port;
              host_labels = d.labels;
            },
            record {
              name = refl;
              namespaces = refl;
              lattice_id = refl;
              port_of_address = refl;
              host_labels = rw e refl;
            },
            watch_event_lem w self (published m) s ∙ rw (service_wanted, e, f) refl,
          ),
        ),
      )
    ]
  ]
