-- ===== src/Manifest/Addresses.antt =====
-- `http_server_component` against a description of its result that has no loop variables.
use wasmcloud_operator.Base.{
  String, Bool, ◌≡◌, refl, sym, ap, ◌∙◌, true, false, Option, none, some, List, [], ◌∷◌, ◌++◌,
  arith, if◌then◌else◌, is_empty, Option-cases, Bool-cases, inl, inr,
}
use mathlib.Core.Option
use wasmcloud_operator.Manifest.Types.{
  ConfigProperty, TraitProperty, link, spread_scaler, custom, Trait, Spread, Manifest,
}
use wasmcloud_operator.Manifest.HttpServer.{
  Scan, HttpServerComponent, add_requirement, http_servers, traits_of, is_incoming, config_address,
  scan_config, scan_requirements, scan_spread, scan_link, scan_links, start, http_server_component,
}

-- The addresses that the configurations of a link name, in order.
unfoldable pub config_addresses : List ConfigProperty → List String
unfolding config_address
config_addresses [] = []
config_addresses (cp ∷ cps) =
    let rest = config_addresses cps in
    elim (config_address cp) [ none ↦ rest | some addr ↦ addr ∷ rest ]

unfoldable pub link_addresses : TraitProperty → List String
unfolding config_addresses is_incoming
link_addresses (link props) = elim props.source [
  | none ↦ []
  | some source ↦ if is_incoming props then config_addresses source.config else []
]
link_addresses (spread_scaler s) = []
link_addresses custom = []

unfoldable pub addresses : List Trait → List String
unfolding link_addresses
addresses [] = []
addresses (l ∷ ls) = link_addresses l.properties ++ addresses ls

-- The last of some texts, or the first argument if there is none.
abbrev pub last_or : String → List String → String
last_or d [] = d
last_or d (a ∷ as_) = last_or a as_

pub last_or-append :
    (d : String) (as_ bs : List String) → last_or d (as_ ++ bs) ≡ last_or (last_or d as_) bs
last_or-append d [] bs = refl
last_or-append d (a ∷ as_) bs = last_or-append a as_ bs

if_same : (b : Bool) → (if b then true else true) ≡ true
if_same true = refl
if_same false = refl

-- What a scan has found after the addresses `as_`.
record Found (s t : Scan) (as_ : List String) : Type 0 where
  address : t.details.address ≡ last_or s.details.address as_
  flag : t.should_create_service ≡ (if is_empty as_ then s.should_create_service else true)

Found-trans :
    (s t u : Scan) (as_ bs : List String) → Found s t as_ → Found t u bs → Found s u (as_ ++ bs)
Found-trans s t u [] bs f g = record {
  address = rw (← f.address) g.address;
  flag = rw (← f.flag) g.flag;
}
Found-trans s t u (a ∷ as_) bs f g = record {
  address = g.address ∙ rw f.address (sym (last_or-append a as_ bs));
  flag = ground (arith, g.flag, f.flag);
}

Found-config :
    (s : Scan) (cps : List ConfigProperty) → Found s (scan_config s cps) (config_addresses cps)
unfolding scan_config config_addresses
Found-config s [] = record { address = refl; flag = refl }
Found-config s (cp ∷ cps) = elim (Option-cases (config_address cp)) [
  | inl e ↦ rw (e, scan_config, config_addresses) (Found-config s cps)
  | inr (addr, e) ↦
      rw (e, scan_config, config_addresses)
        (let s' : Scan = record {
          details = record { labels = s.details.labels; address = addr };
          should_create_service = true;
        } in
          let f = Found-config s' cps in
          record { address = f.address; flag = f.flag ∙ if_same (is_empty (config_addresses cps)) })
]

Found-requirements : (s : Scan) (m : List (String × String)) → Found s (scan_requirements s m) []
unfolding scan_requirements
Found-requirements s [] = record { address = refl; flag = refl }
Found-requirements s ((k, v) ∷ more) =
    let f = Found-requirements (add_requirement s k v) more in
    record { address = f.address; flag = f.flag }

Found-spread : (s : Scan) (m : List Spread) → Found s (scan_spread s m) []
unfolding scan_spread
Found-spread s [] = record { address = refl; flag = refl }
Found-spread s (spread ∷ more) =
    Found-trans _ _ _ [] [] (Found-requirements s spread.requirements)
      (Found-spread (scan_requirements s spread.requirements) more)

Found-link : (s : Scan) (t : TraitProperty) → Found s (scan_link s t) (link_addresses t)
unfolding scan_link link_addresses
Found-link s (link props) = elim (Option-cases props.source) [
  | inl e ↦ rw (e, scan_link, link_addresses) (record { address = refl; flag = refl })
  | inr (source, e) ↦ elim (Bool-cases (is_incoming props)) [
    | inl b ↦ rw (e, scan_link, link_addresses) (rw b (Found-config s source.config))
    | inr b ↦ rw (e, scan_link, link_addresses) (rw b (record { address = refl; flag = refl }))
  ]
]
Found-link s (spread_scaler scaler) = Found-spread s scaler.spread
Found-link s custom = record { address = refl; flag = refl }

Found-links : (s : Scan) (ls : List Trait) → Found s (scan_links s ls) (addresses ls)
unfolding scan_links addresses
Found-links s [] = record { address = refl; flag = refl }
Found-links s (l ∷ ls) =
    Found-trans _ _ _ (link_addresses l.properties) (addresses ls) (Found-link s l.properties)
      (Found-links (scan_link s l.properties) ls)

abbrev pub last? : List String → Option String
last? [] = none
last? (a ∷ as_) = some (last_or a as_)

wanted :
    {t : Scan} {as_ : List String}
    → Found start t as_
    → (b : Bool)
    → Option.map
        (λ (d : HttpServerComponent). d.address)
        (if b then none else if t.should_create_service then some t.details else none)
      ≡ (if b then none else last? as_)
wanted f true = refl
wanted {as_ = []} f false = rw f.flag
wanted {as_ = a ∷ as_} f false = rw f.flag (ap some f.address)

-- The addresses that count for a manifest.
unfoldable pub service_addresses : Manifest → List String
unfolding addresses http_servers traits_of
service_addresses manifest = addresses (traits_of "link" (http_servers manifest))

-- The address of the result is the last of the addresses that count, if a daemonscaler is there.
pub address-http_server_component :
    (m : Manifest)
    → Option.map (λ (d : HttpServerComponent). d.address) (http_server_component m) ≡ (
        if is_empty (traits_of "daemonscaler" (http_servers m))
        then none
        else last? (service_addresses m))
unfolding http_server_component service_addresses
address-http_server_component m =
    wanted (Found-links start (traits_of "link" (http_servers m)))
      (is_empty (traits_of "daemonscaler" (http_servers m)))
