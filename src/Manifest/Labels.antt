-- ===== src/Manifest/Labels.antt =====
-- The host labels that `http_server_component` of src/services.rs collects.
use wasmcloud_operator.Base.{
  ◌≡◌, refl, none, some, List, [], ◌∷◌, arith, All, ◌==◌, eq_iff, unwrap_or, Option-cases,
  Bool-cases, inl, inr, true, ◌∙◌, first, Bool, keep,
}
use wasmcloud_operator.Manifest.Types.{
  ConfigProperty, TraitProperty, link, spread_scaler, custom, Trait, Component, Manifest,
}
use wasmcloud_operator.Manifest.HttpServer.{
  Scan, HttpServerComponent, http_servers, is_http_server, find_trait, traits_of, config_address,
  scan_config, scan_link, scan_links, start, http_server_component,
}

abbrev pub IsNoScaler : TraitProperty → Type 0
IsNoScaler (link props) = Unit
IsNoScaler (spread_scaler s) = ⊥
IsNoScaler custom = Unit

-- The traits of type "link" have the properties of a link, or custom ones.
abbrev pub IsLinkTyped : Component → Type 0
IsLinkTyped c = All (λ t. t.trait_type ≡ "link" → IsNoScaler t.properties) (unwrap_or c.traits [])

labels-scan_config :
    (s : Scan) (cps : List ConfigProperty) → (scan_config s cps).details.labels ≡ s.details.labels
unfolding scan_config
labels-scan_config s [] = refl
labels-scan_config s (cp ∷ cps) = elim (Option-cases (config_address cp)) [
  | inl e ↦ rw (e, scan_config) (labels-scan_config s cps)
  | inr (addr, e) ↦
      rw (e, scan_config)
        (labels-scan_config
          (record {
            details = record { labels = s.details.labels; address = addr };
            should_create_service = true;
          })
          cps)
]

labels-scan_link :
    (s : Scan) (t : TraitProperty)
    → IsNoScaler t
    → (scan_link s t).details.labels ≡ s.details.labels
unfolding scan_link
labels-scan_link s (link props) h = elim (Option-cases props.source) [
  | inl e ↦ rw (e, scan_link)
  | inr (source, e) ↦ rw (e, scan_link) (ground (arith, labels-scan_config s source.config))
]
labels-scan_link s (spread_scaler scaler) h = absurd h
labels-scan_link s custom h = refl

labels-scan_links :
    (s : Scan) (ls : List Trait)
    → All (λ t. IsNoScaler t.properties) ls
    → (scan_links s ls).details.labels ≡ s.details.labels
unfolding scan_links
labels-scan_links s [] h = refl
labels-scan_links s (l ∷ ls) (p, h) =
    labels-scan_links (scan_link s l.properties) ls h ∙ labels-scan_link s l.properties p

NoScaler-first :
    (ts : List Trait)
    → All (λ t. t.trait_type ≡ "link" → IsNoScaler t.properties) ts
    → (t : Trait) → first (λ t. t.trait_type == "link") ts ≡ some t
    → IsNoScaler t.properties
NoScaler-first [] h t e = cc
NoScaler-first (u ∷ ts) (p, h) t e = elim (Bool-cases (u.trait_type == "link")) [
  | inl b ↦ let same : u ≡ t = cc (rw b at e) in rw same at (p ((eq_iff _ _).0 b))
  | inr b ↦ NoScaler-first ts h t (rw b at e)
]

NoScaler-find :
    (c : Component) {t : Trait}
    → IsLinkTyped c
    → find_trait "link" c ≡ some t
    → IsNoScaler t.properties
unfolding find_trait
NoScaler-find c {t} p e = NoScaler-first (unwrap_or c.traits []) p t e

NoScaler-traits_of :
    (cs : List Component)
    → All IsLinkTyped cs
    → All (λ t. IsNoScaler t.properties) (traits_of "link" cs)
unfolding traits_of
NoScaler-traits_of [] h = tt
NoScaler-traits_of (c ∷ cs) (p, h) = elim (Option-cases (find_trait "link" c)) [
  | inl e ↦ rw (e, traits_of) (NoScaler-traits_of cs h)
  | inr (t, e) ↦ rw (e, traits_of) (NoScaler-find c p e, NoScaler-traits_of cs h)
]

All-keep :
    (P : Component → Type 0) (p : Component → Bool) (cs : List Component)
    → All P cs
    → All P (keep p cs)
All-keep P p [] h = tt
All-keep P p (c ∷ cs) (q, h) = elim (Bool-cases (p c)) [
  | inl b ↦ rw b (q, All-keep P p cs h)
  | inr b ↦ rw b (All-keep P p cs h)
]

-- If the traits of type "link" are links, the service has no host labels, whatever spread
-- requirements the daemonscalers of the manifest state.
pub labels-http_server_component :
    (m : Manifest) (d : HttpServerComponent)
    → All IsLinkTyped m.components
    → http_server_component m ≡ some d
    → d.labels ≡ none
unfolding http_server_component http_servers
labels-http_server_component m d h e = ground (
  arith,
  labels-scan_links start (traits_of "link" (http_servers m)) (
      NoScaler-traits_of (http_servers m)
        (All-keep IsLinkTyped (λ c. is_http_server c.properties) m.components h)),
)
