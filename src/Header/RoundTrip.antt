-- ===== src/Header/RoundTrip.antt =====
-- `Accept::decode` of src/header.rs against headers as the API aggregator writes them.
use text.Mathlib.Text.{starts_with}
use Prim.Native.Char.{code}
use text.Mathlib.TextLemmas.{nil-append, cons-append}
use wasmcloud_operator.Base.{
  ℕ, String, ◌≡◌, refl, ap, ◌∙◌, Bool, true, false, ◌||◌, nat_eq, Option, some, List, [], ◌∷◌, ◌++◌,
  map, keep, first, unwrap_or, ◌<>◌, join, All, arith, All-append,
}
use wasmcloud_operator.Header.{
  As, api_group_discovery_list, partial_object_metadata_list, table, not_specified, as_to_string,
  split, strip_prefix, semicolon, as_parts, as_of, decode, encode,
}

abbrev pub has_code : ℕ → String → Bool
has_code c String.[] = false
has_code c (String.◌∷◌ x s) = nat_eq (code x) c || has_code c s

split-single : (c : ℕ) (s : String) → has_code c s ≡ false → split c s ≡ s ∷ []
split-single c String.[] h = refl
split-single c (String.◌∷◌ x s) h = ground (arith, h, split-single c s)

separator-append : (t : String) → ";" <> t ≡ String.◌∷◌ ";" t
separator-append t = cons-append ";" "" t ∙ ap (String.◌∷◌ ";") (nil-append t)

split-first :
    (s t : String)
    → has_code semicolon s ≡ false
    → split semicolon (s <> ";" <> t) ≡ s ∷ split semicolon t
split-first String.[] t h = rw (nil-append (";" <> t), separator-append t)
split-first (String.◌∷◌ x s) t h =
    rw (cons-append x s (";" <> t)) (ground (arith, h, split-first s t))

-- `split` undoes `join`.
abbrev pub IsPart : String → Type 0
IsPart p = has_code semicolon p ≡ false

split-join :
    (p : String) (ps : List String)
    → IsPart p
    → All IsPart ps
    → split semicolon (join ";" (p ∷ ps)) ≡ p ∷ ps
split-join p [] h hs = split-single semicolon p h
split-join p (q ∷ ps) h (g, hs) =
    split-first p (join ";" (q ∷ ps)) h ∙ ap (λ r. p ∷ r) (split-join q ps g hs)

split-join_middle :
    (before : List String) (p : String) (after : List String)
    → All IsPart before
    → IsPart p
    → All IsPart after
    → split semicolon (join ";" (before ++ p ∷ after)) ≡ before ++ p ∷ after
split-join_middle [] p after hb h ha = split-join p after h ha
split-join_middle (q ∷ before) p after (g, hb) h ha =
    split-join q (before ++ p ∷ after) g (All-append IsPart before (p ∷ after) hb (h, ha))

keep-append :
    (f : String → Bool) (before after : List String)
    → All (λ p. f p ≡ false) before
    → keep f (before ++ after) ≡ keep f after
keep-append f [] after h = refl
keep-append f (p ∷ before) after (g, h) = rw g (keep-append f before after h)

-- The parameter `as` for a value, as the aggregator writes it.
abbrev pub parameter : As → String
parameter a = "as=" <> as_to_string a

parameter-IsPart : (a : As) → IsPart (parameter a)
unfolding as_to_string
parameter-IsPart api_group_discovery_list = refl
parameter-IsPart partial_object_metadata_list = refl
parameter-IsPart table = refl
parameter-IsPart not_specified = refl

as_of-parameter :
    (a : As) (after : List String)
    → as_of (
        first
          (λ p. true)
          (map
            (λ p. unwrap_or (strip_prefix "as=" p) "")
            (keep (λ p. starts_with p "as=") (parameter a ∷ after))))
      ≡ a
unfolding as_of as_to_string
as_of-parameter api_group_discovery_list after = refl
as_of-parameter partial_object_metadata_list after = refl
as_of-parameter table after = refl
as_of-parameter not_specified after = refl

-- A header whose parts hold no semicolon is read as the value of its first part that starts with
-- "as=", if that part names one of the values; further values of the header do not matter.
pub decode-parameter :
    (a : As) (before after : List String) (more : List (Option String))
    → All IsPart before
    → All IsPart after
    → All (λ p. starts_with p "as=" ≡ false) before
    → decode (some (join ";" (before ++ parameter a ∷ after)) ∷ more) ≡ a
unfolding decode as_parts
decode-parameter a before after more hb ha none_before =
    rw
      (
        split-join_middle before (parameter a) after hb (parameter-IsPart a) ha,
        keep-append (λ p. starts_with p "as=") before (parameter a ∷ after) none_before,
      )
      (as_of-parameter a after)

-- What `encode` writes is read as no value, whichever value it was.
pub decode-encode : (a : As) → decode (encode a []) ≡ not_specified
unfolding decode encode as_parts as_of as_to_string
decode-encode api_group_discovery_list = refl
decode-encode partial_object_metadata_list = refl
decode-encode table = refl
decode-encode not_specified = refl
