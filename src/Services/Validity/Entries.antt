-- ===== src/Services/Validity/Entries.antt =====
-- The changes that `watch` and `stop_watch` of src/services.rs make to the map of watchers: a new
-- entry, another entry in the place of one, and no entry any more.
use wasmcloud_operator.Services.Validity.{
  IsValid, IsEntry, IsBacked, is_cancelled, All-map, Exists-append, not_cancelled, is_empty-insert,
}
use wasmcloud_operator.Base.{
  String, ◌≡◌, ◌≢◌, refl, sym, ap, ◌∙◌, false, none, some, ◌∷◌, arith, is_empty, All-append,
  Bool-cases, inl, inr, ◌==◌, eq_iff,
}
use wasmcloud_operator.Base.HashMap
use wasmcloud_operator.Base.HashMap.{
  HashMap, string_key, get-insert_cases, get-remove_cases, get-insert_self, get-insert_ne,
  get-remove_ne,
}
use wasmcloud_operator.Kube.World.{NatsClient}
use wasmcloud_operator.Services.Types.{Watcher, ServiceWatcher}
use wasmcloud_operator.Services.Watch.{leave, add_namespace, remove_namespace}
use wasmcloud_operator.Services.Watching.{started, joined, fresh}

module _ (client : NatsClient) (n l : String) (s : ServiceWatcher) (v : IsValid s) where
  IsEntry-started :
      {l' : String} {w : Watcher} → IsEntry s l' w → IsEntry (started client n l s) l' w
  IsEntry-started {l'} {w} x = record {
    lattice = x.lattice;
    used = x.used;
    alive = x.alive;
    old = omega (arith, x.old);
    loop = Exists-append _ s.tasks _ (inl x.loop);
  }

  IsEntry-fresh : IsEntry (started client n l s) l (fresh client n l s)
  IsEntry-fresh = record {
    lattice = refl;
    used = refl;
    alive = not_cancelled s.next_token s.cancelled v.cancelled_old;
    old = omega arith;
    loop = Exists-append _ s.tasks _ (inr (inl (refl, refl)));
  }

  IsBacked-started :
      HashMap.get l s.watchers ≡ none
      → (t : Watcher) → IsBacked s t
      → IsBacked (started client n l s) t
  IsBacked-started e t b alive =
      let (w, at, same) = b alive in
      (
        w,
        get-insert_ne l t.lattice_id (fresh client n l s) s.watchers (λ p. cc (p, e, at)) ∙ at,
        same,
      )

  distinct-started :
      (a b : String) (w u : Watcher)
      → HashMap.get a (started client n l s).watchers ≡ some w
      → HashMap.get b (started client n l s).watchers ≡ some u
      → w.shutdown ≡ u.shutdown
      → a ≡ b
  distinct-started a b w u h k e = elim (get-insert_cases l a (fresh client n l s) w s.watchers h) [
    | inl (p, q) ↦ elim (get-insert_cases l b (fresh client n l s) u s.watchers k) [
      | inl (p', _) ↦ cc
      | inr (_, k') ↦
          absurd (omega (arith, (v.at_key b u k').old, ap (λ (x : Watcher). x.shutdown) q))
    ]
    | inr (_, h') ↦ elim (get-insert_cases l b (fresh client n l s) u s.watchers k) [
      | inl (_, q) ↦
          absurd (omega (arith, (v.at_key a w h').old, ap (λ (x : Watcher). x.shutdown) q))
      | inr (_, k') ↦ v.distinct a b w u h' k' e
    ]
  ]

  pub started-IsValid : HashMap.get l s.watchers ≡ none → IsValid (started client n l s)
  started-IsValid e = record {
    at_key = λ l' w h. elim (get-insert_cases l l' (fresh client n l s) w s.watchers h) [
      | inl (p, q) ↦ rw (← p, ← q) IsEntry-fresh
      | inr (_, h') ↦ IsEntry-started (v.at_key l' w h')
    ];
    distinct = distinct-started;
    cancelled_old = All-map (λ k p. omega arith) s.cancelled v.cancelled_old;
    tasks_old =
        All-append _ s.tasks _ (All-map (λ t p. omega arith) s.tasks v.tasks_old) (omega arith, tt);
    backed =
        All-append _ s.tasks _ (All-map (IsBacked-started e) s.tasks v.backed)
          ((λ _. (fresh client n l s, get-insert_self l _ s.watchers, refl)), tt);
  }

module _ (n l : String) (s : ServiceWatcher) (x : Watcher) (v : IsValid s)
    (e : HashMap.get l s.watchers ≡ some x) where
  pub IsEntry-joined : IsEntry (joined n l x s) l (add_namespace n x)
  unfolding add_namespace
  IsEntry-joined =
      let y = v.at_key l x e in
      record {
        lattice = y.lattice;
        used = is_empty-insert n x.namespaces;
        alive = y.alive;
        old = y.old;
        loop = y.loop;
      }

  -- The entry that replaces the entry of `l`, with its token.
  module _ (y : Watcher) (same : y.shutdown ≡ x.shutdown) where
    abbrev replaced : ServiceWatcher
    replaced = record s { watchers = HashMap.insert l y s.watchers }

    distinct-replaced :
        (a b : String) (w u : Watcher)
        → HashMap.get a replaced.watchers ≡ some w
        → HashMap.get b replaced.watchers ≡ some u
        → w.shutdown ≡ u.shutdown
        → a ≡ b
    distinct-replaced a b w u h k eq = elim (get-insert_cases l a y w s.watchers h) [
      | inl (p, q) ↦ elim (get-insert_cases l b y u s.watchers k) [
        | inl (p', _) ↦ cc
        | inr (_, k') ↦ sym p ∙ v.distinct l b x u e k' (cc)
      ]
      | inr (_, h') ↦ elim (get-insert_cases l b y u s.watchers k) [
        | inl (p, q) ↦ v.distinct a l w x h' e (cc) ∙ p
        | inr (_, k') ↦ v.distinct a b w u h' k' eq
      ]
    ]

    IsBacked-replaced : (t : Watcher) → IsBacked s t → IsBacked replaced t
    IsBacked-replaced t b alive =
        let (w, at, tok) = b alive in
        elim (Bool-cases (l == t.lattice_id)) [
          | inl p ↦ (
            y,
            rw (← (eq_iff _ _).0 p) (get-insert_self l y s.watchers),
            same ∙ cc (e, at, (eq_iff l t.lattice_id).0 p, tok),
          )
          | inr p ↦ (
            w,
            get-insert_ne l t.lattice_id y s.watchers (λ q. cc (p, (eq_iff _ _).1 q)) ∙ at,
            tok,
          )
        ]

    pub replaced-IsValid : IsEntry replaced l y → IsValid replaced
    replaced-IsValid entry = record {
      at_key = λ l' w h. elim (get-insert_cases l l' y w s.watchers h) [
        | inl (p, q) ↦ rw (← p, ← q) entry
        | inr (_, h') ↦
            let z = v.at_key l' w h' in
            record {
              lattice = z.lattice;
              used = z.used;
              alive = z.alive;
              old = z.old;
              loop = z.loop;
            }
      ];
      distinct = distinct-replaced;
      cancelled_old = v.cancelled_old;
      tasks_old = v.tasks_old;
      backed = All-map IsBacked-replaced s.tasks v.backed;
    }

  -- The entry of `l` goes, and its token is cancelled.
  abbrev dropped : ServiceWatcher
  dropped = record s {
    watchers = HashMap.remove l s.watchers;
    cancelled = x.shutdown ∷ s.cancelled;
  }

  alive-dropped :
      (l' : String) (w : Watcher)
      → l ≢ l'
      → HashMap.get l' s.watchers ≡ some w
      → is_cancelled w.shutdown dropped.cancelled ≡ false
  alive-dropped l' w ne h =
      let other : ¬ (x.shutdown ≡ w.shutdown) = λ q. ne (v.distinct l l' x w e h q) in
      ground (arith, other, (v.at_key l' w h).alive)

  IsBacked-dropped : (t : Watcher) → IsBacked s t → IsBacked dropped t
  IsBacked-dropped t b alive =
      let (w, at, tok) = b (ground (arith, alive)) in
      let other : t.shutdown ≢ x.shutdown = ground (arith, alive) in
      (w, get-remove_ne l t.lattice_id s.watchers (λ p. other (sym tok ∙ cc (p, e, at))) ∙ at, tok)

  dropped-IsValid : IsValid dropped
  dropped-IsValid = record {
    at_key = λ l' w h.
        let (ne, h') = get-remove_cases l l' w s.watchers h in
        let z = v.at_key l' w h' in
        record {
          lattice = z.lattice;
          used = z.used;
          alive = alive-dropped l' w ne h';
          old = z.old;
          loop = z.loop;
        };
    distinct = λ a b w u h k eq.
        v.distinct a b w u (get-remove_cases l a w s.watchers h).1
          (get-remove_cases l b u s.watchers k).1 eq;
    cancelled_old = ((v.at_key l x e).old, v.cancelled_old);
    tasks_old = v.tasks_old;
    backed = All-map IsBacked-dropped s.tasks v.backed;
  }

  pub leave-IsValid : IsValid (leave l n x s)
  unfolding leave
  leave-IsValid = elim (Bool-cases (is_empty (remove_namespace n x).namespaces)) [
    | inl b ↦ rw b dropped-IsValid
    | inr b ↦ rw b (
        let z = v.at_key l x e in
        replaced-IsValid (remove_namespace n x) refl
          (record { lattice = z.lattice; used = b; alive = z.alive; old = z.old; loop = z.loop }))
  ]
