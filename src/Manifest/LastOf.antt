-- ===== src/Manifest/LastOf.antt =====
-- The last of the addresses that a list's elements have.
use wasmcloud_operator.Base.{
  String, ◌≡◌, ◌↔◌, refl, sym, ◌∙◌, none, some, List, [], ◌∷◌, ◌++◌, All, Option-cases, inl, inr,
}
use wasmcloud_operator.Manifest.Addresses.{last_or-append, last?}
use wasmcloud_operator.Manifest.Served.{LastOf}

abbrev pub flat : {A : Type 0} → (A → List String) → List A → List String
flat f [] = []
flat f (x ∷ xs) = f x ++ flat f xs

last-append_none : (as_ bs : List String) → last? bs ≡ none → last? (as_ ++ bs) ≡ last? as_
last-append_none [] [] h = refl
last-append_none (a ∷ as_) [] h = rw (last_or-append a as_ []) refl
last-append_none as_ (b ∷ bs) h = cc

last-append_some :
    (as_ bs : List String) (b : String) → last? bs ≡ some b → last? (as_ ++ bs) ≡ some b
last-append_some as_ [] b h = cc
last-append_some [] (c ∷ bs) b h = h
last-append_some (a ∷ as_) (c ∷ bs) b h = rw (last_or-append a as_ (c ∷ bs)) h

module _ {A : Type 0} (P : String → A → Type 0) (f : A → List String)
    (has : (a : String) (x : A) → P a x ↔ (last? (f x) ≡ some a)) where
  -- Where nothing is found, nothing is there.
  silent : (xs : List A) → last? (flat f xs) ≡ none → All (λ y. (b : String) → ¬ P b y) xs
  silent [] h = tt
  silent (x ∷ xs) h = elim (Option-cases (last? (flat f xs))) [
    | inl e ↦ (
      (λ b p. let k = (has b x).0 p in let l = last-append_none (f x) (flat f xs) e in cc),
      silent xs e,
    )
    | inr (b, e) ↦ let l = last-append_some (f x) (flat f xs) b e in cc
  ]

  not_silent : (xs : List A) (b : String) → LastOf P b xs → All (λ y. (b : String) → ¬ P b y) xs → ⊥
  not_silent [] b h n = h
  not_silent (x ∷ xs) b (inl h) (_, n) = not_silent xs b h n
  not_silent (x ∷ xs) b (inr (p, _)) (absent, _) = absent b p

  pub LastOf-last : (a : String) (xs : List A) → LastOf P a xs ↔ (last? (flat f xs) ≡ some a)
  LastOf-last a [] = (λ h. absurd h, λ h. cc)
  LastOf-last a (x ∷ xs) =
      let (there, back) = LastOf-last a xs in
      elim (Option-cases (last? (flat f xs))) [
        | inl e ↦
            let l = last-append_none (f x) (flat f xs) e in
            (
              elim [ inl later ↦ let k = there later in cc | inr (p, _) ↦ l ∙ (has a x).0 p ],
              (λ h. inr ((has a x).1 (sym l ∙ h), silent xs e)),
            )
        | inr (b, e) ↦
            let l = last-append_some (f x) (flat f xs) b e in
            (
              elim [
                | inl later ↦ l ∙ sym e ∙ there later
                | inr (p, none_later) ↦ absurd (not_silent xs b ((LastOf-last b xs).1 e) none_later)
              ],
              (λ h. inl (back (e ∙ sym l ∙ h))),
            )
      ]
