-- ===== src/Controller/Mounting.antt =====
-- The volumes and the mounts that `pod_template` of src/controller.rs makes of the authorities.
use wasmcloud_operator.Base.{
  String, ◌≡◌, refl, Bool, true, false, ◌&&◌, not, none, some, List, [], ◌∷◌, ◌++◌, ◌⊎◌, inl, inr,
  All, All-append, Exists, Option-cases, Bool-cases, is_empty, is_some, if◌then◌else◌, arith,
}
use wasmcloud_operator.Base.Outcome.{Outcome, ok, err, panic}
use wasmcloud_operator.Base.Exec.{Exec, pure, continue, ◌>>=◌, fold_each}
use wasmcloud_operator.Kube.Pods.{Volume, VolumeMount}
use wasmcloud_operator.Kube.World.{World}
use wasmcloud_operator.Services.Types.{Operator}
use wasmcloud_operator.Controller.Types.{Error}
use wasmcloud_operator.Controller.Certificates.{
  Mounts, volume_name, push_volume, mount, Progress, skipped, found, finish,
  discover_secret_certificates, discover_configmap_certificates, secret_part, configmap_part,
  then_configmap, add_authority, add_authorities,
}

abbrev pub HasVolume : String → List Volume → Type 0
HasVolume name volumes = Exists (λ (v : Volume). v.name ≡ name) volumes

-- Each mount is of a volume that is there, and so is the configuration of NATS.
abbrev pub IsMounted : Mounts → Type 0
IsMounted m =
    All (λ (v : VolumeMount). HasVolume v.name m.volumes) m.volume_mounts
    × HasVolume "nats-config" m.volumes

-- A value, if there is one, has the property.
abbrev pub IsGood : {E A : Type 0} → (A → Type 0) → Outcome E A → Type 0
IsGood Q (ok a) = Q a
IsGood Q (err e) = Unit
IsGood Q panic = Unit

abbrev pub Yields : {E A : Type 0} → (A → Type 0) → Exec E Operator A → Type 0
Yields Q m = (op : Operator) → IsGood Q (m op).0

module _ {E A B : Type 0} (R : A → Type 0) (Q : B → Type 0) where
  IsGood-continue :
      (r : Outcome E A) (f : A → Exec E Operator B) (op : Operator)
      → IsGood R r
      → ((a : A) → R a → Yields Q (f a))
      → IsGood Q (continue r f op).0
  IsGood-continue (ok a) f op g k = k a g op
  IsGood-continue (err e) f op g k = tt
  IsGood-continue panic f op g k = tt

  pub Yields-bind :
      (m : Exec E Operator A) (f : A → Exec E Operator B)
      → Yields R m
      → ((a : A) → R a → Yields Q (f a))
      → Yields Q (m >>= f)
  Yields-bind m f y k op = IsGood-continue (m op).0 f (m op).1 (y op) k

pub any_value : {E A : Type 0} (m : Exec E Operator A) → Yields (λ a. Unit {0}) m
any_value m op = elim (m op).0 as (λ r. IsGood (λ a. Unit {0}) r) [
  | ok a ↦ tt
  | err e ↦ tt
  | panic ↦ tt
]

HasVolume-push_old :
    (n : String) (v : Volume) (vs : List Volume) → HasVolume n vs → HasVolume n (vs ++ v ∷ [])
HasVolume-push_old n v [] h = elim h [ ]
HasVolume-push_old n v (u ∷ vs) (inl p) = inl p
HasVolume-push_old n v (u ∷ vs) (inr h) = inr (HasVolume-push_old n v vs h)

HasVolume-push_new : (v : Volume) (vs : List Volume) → HasVolume v.name (vs ++ v ∷ [])
HasVolume-push_new v [] = inl refl
HasVolume-push_new v (u ∷ vs) = inr (HasVolume-push_new v vs)

mounted_still :
    (v : Volume) (vs : List Volume) (ms : List VolumeMount)
    → All (λ (x : VolumeMount). HasVolume x.name vs) ms
    → All (λ (x : VolumeMount). HasVolume x.name (vs ++ v ∷ [])) ms
mounted_still v vs [] h = tt
mounted_still v vs (x ∷ ms) (p, h) = (HasVolume-push_old x.name v vs p, mounted_still v vs ms h)

-- What a round knows so far: the volume of the authority is there, unless it has no such source.
abbrev IsReady : Type 0 → Volume → Progress → Type 0
IsReady Missing a (skipped m) = IsMounted m
IsReady Missing a (found items m) = IsMounted m × (HasVolume (volume_name a) m.volumes ⊎ Missing)

IsMounted-finish : (a : Volume) (p : Progress) → IsReady ⊥ a p → IsMounted (finish a p)
unfolding finish mount
IsMounted-finish a (skipped m) h = h
IsMounted-finish a (found items m) ((h, c), inl v) =
    (All-append (λ (x : VolumeMount). HasVolume x.name m.volumes) m.volume_mounts _ h (v, tt), c)
IsMounted-finish a (found items m) (h, inr e) = elim e [ ]

pushed :
    (Missing : Type 0) (a : Volume) (m : Mounts) (items : List String) (b : Bool) (v : Volume)
    → v.name ≡ volume_name a
    → IsMounted m
    → Yields {E = Error}
        (IsReady Missing a)
        (if b then pure (skipped m) else pure (found items (push_volume v m)))
pushed Missing a m items true v p h op = h
pushed Missing a m items false v p (h, c) op = (
  (mounted_still v m.volumes m.volume_mounts h, HasVolume-push_old _ v m.volumes c),
  inl (rw (← p) (HasVolume-push_new v m.volumes)),
)

module _ {M : Type 0} (w : World M) where
  secret_part-IsReady :
      (n : String) (a : Volume) (m : Mounts)
      → IsMounted m
      → Yields (IsReady (a.secret ≡ none) a) (secret_part w n a m)
  unfolding secret_part
  secret_part-IsReady n a m h = elim (Option-cases a.secret) [
    | inl e ↦ rw (e, secret_part) (λ op. (h, inr refl))
    | inr (source, e) ↦ elim (Option-cases source.secret_name) [
      | inl f ↦ rw (e, f, secret_part) (λ op. tt)
      | inr (name, f) ↦
          rw (e, f, secret_part)
            (Yields-bind (λ items. Unit {0}) _ (discover_secret_certificates w n name) _
              (any_value (discover_secret_certificates w n name))
              λ items _.
                pushed _ a m items (is_empty items)
                  (record {
                    name = volume_name a;
                    secret = some (record { secret_name = some name });
                    config_map = none;
                  })
                  refl h)
    ]
  ]

  -- The sources that an authority may lack.
  abbrev IsBare : Volume → Type 0
  IsBare a = (a.secret ≡ none) × (a.config_map ≡ none)

  configmap_part-IsReady :
      (n : String) (a : Volume) (before : List String) (m : Mounts)
      → IsReady (a.secret ≡ none) a (found before m)
      → Yields (IsReady (IsBare a) a) (configmap_part w n a before m)
  unfolding configmap_part
  configmap_part-IsReady n a before m (h, v) = elim (Option-cases a.config_map) [
    | inl e ↦ rw (e, configmap_part) (λ op. (h, elim v [ inl u ↦ inl u | inr f ↦ inr (f, refl) ]))
    | inr (source, e) ↦ elim (Option-cases source.name) [
      | inl f ↦ rw (e, f, configmap_part) (λ op. tt)
      | inr (name, f) ↦
          rw (e, f, configmap_part)
            (Yields-bind (λ items. Unit {0}) _ (discover_configmap_certificates w n name) _
              (any_value (discover_configmap_certificates w n name))
              λ items _.
                pushed _ a m items (is_empty items)
                  (record {
                    name = volume_name a;
                    secret = none;
                    config_map = some (record { name = some name });
                  })
                  refl h)
    ]
  ]

  full : (a : Volume) (p : Progress) → (IsBare a → ⊥) → IsReady (IsBare a) a p → IsReady ⊥ a p
  full a (skipped m) f h = h
  full a (found items m) f (h, inl v) = (h, inl v)
  full a (found items m) f (h, inr b) = (h, inr (f b))

  then_configmap-IsMounted :
      (n : String) (a : Volume) (p : Progress)
      → (IsBare a → ⊥)
      → IsReady (a.secret ≡ none) a p
      → Yields IsMounted (then_configmap w n a p)
  unfolding then_configmap
  then_configmap-IsMounted n a (skipped m) f h = λ op. h
  then_configmap-IsMounted n a (found items m) f h =
      Yields-bind (IsReady (IsBare a) a) IsMounted (configmap_part w n a items m) _
        (configmap_part-IsReady n a items m h) λ p g op. IsMounted-finish a p (full a p f g)

  add_authority-IsMounted :
      (n : String) (m : Mounts) (a : Volume)
      → IsMounted m
      → Yields IsMounted (add_authority w n m a)
  unfolding add_authority
  add_authority-IsMounted n m a h =
      elim (Bool-cases (not (is_some a.secret) && not (is_some a.config_map))) [
        | inl e ↦ rw (e, add_authority) (λ op. tt)
        | inr e ↦
            rw (e, add_authority)
              (Yields-bind (IsReady (a.secret ≡ none) a) IsMounted (secret_part w n a m) _
                (secret_part-IsReady n a m h)
                λ p g. then_configmap-IsMounted n a p (λ (b, c). ground (arith, e, b, c)) g)
      ]

  -- The loop over the authorities, whatever the API server holds.
  pub add_authorities-IsMounted :
      (n : String) (m : Mounts) (authorities : List Volume)
      → IsMounted m
      → Yields IsMounted (add_authorities w n m authorities)
  unfolding add_authorities fold_each
  add_authorities-IsMounted n m [] h = λ op. h
  add_authorities-IsMounted n m (a ∷ more) h =
      Yields-bind IsMounted IsMounted (add_authority w n m a) _ (add_authority-IsMounted n m a h)
        λ m' g. add_authorities-IsMounted n m' more g
