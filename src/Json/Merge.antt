-- ===== src/Json/Merge.antt =====
-- A merge patch of RFC 7386, which shows that what is asked of `json_patch::merge` can hold.
use wasmcloud_operator.Base.{
  String, ◌≡◌, refl, ◌==◌, eq_iff, Option, none, some, List, [], ◌∷◌, if◌then◌else◌, arith, inl,
  inr, Option-cases, ap, ◌≢◌, ◌∙◌,
}
use wasmcloud_operator.Json.{
  Value, null, bool, number, text, array, object, Fields, end, field, lookup, put, drop,
}
use wasmcloud_operator.Json.Laws.{lookup-put, lookup-drop}

-- A patch says nothing about the end of a path: it is an object along the path, and then lacks the
-- next member.
unfoldable pub IsSilent : List String → Value → Type 0
unfolding lookup
IsSilent [] v = ⊥
IsSilent (k ∷ ks) (object fs) = elim (lookup k fs) [ none ↦ Unit | some v ↦ IsSilent ks v ]
IsSilent (k ∷ ks) _ = ⊥

abbrev pub fields_or_end : Value → Fields
fields_or_end (object fs) = fs
fields_or_end _ = end

abbrev pub or_null : Option Value → Value
or_null none = null
or_null (some v) = v

abbrev set_member : String → Value → Value → Fields → Fields
set_member k null new fs = drop k fs
set_member k _ new fs = put k new fs

unfoldable mutual
  pub merge : Value → Value → Value
  merge t (object fs) = object (merge_fields (fields_or_end t) fs)
  merge t null = null
  merge t (bool b) = bool b
  merge t (number n) = number n
  merge t (text s) = text s
  merge t (array xs) = array xs

  pub merge_fields : Fields → Fields → Fields
  merge_fields ts end = ts
  merge_fields ts (field k v fs) =
      set_member k v (merge (or_null (lookup k ts)) v) (merge_fields ts fs)

unfoldable after : Option Value → Option Value → Option Value
unfolding merge
after t none = t
after t (some null) = none
after t (some v) = some (merge (or_null t) v)

lookup-set_member :
    (k j : String) (v : Value) (ts fs : Fields)
    → lookup j (set_member k v (merge (or_null (lookup k ts)) v) fs)
      ≡ (if k == j then after (lookup j ts) (some v) else lookup j fs)
unfolding after
lookup-set_member k j null ts fs = ground (arith, lookup-drop k j fs)
lookup-set_member k j (bool b) ts fs =
    ground (arith, eq_iff k j, lookup-put k j (merge (or_null (lookup k ts)) (bool b)) fs)
lookup-set_member k j (number b) ts fs =
    ground (arith, eq_iff k j, lookup-put k j (merge (or_null (lookup k ts)) (number b)) fs)
lookup-set_member k j (text b) ts fs =
    ground (arith, eq_iff k j, lookup-put k j (merge (or_null (lookup k ts)) (text b)) fs)
lookup-set_member k j (array b) ts fs =
    ground (arith, eq_iff k j, lookup-put k j (merge (or_null (lookup k ts)) (array b)) fs)
lookup-set_member k j (object b) ts fs =
    ground (arith, eq_iff k j, lookup-put k j (merge (or_null (lookup k ts)) (object b)) fs)

lookup-merge_fields :
    (j : String) (ts fs : Fields)
    → lookup j (merge_fields ts fs) ≡ after (lookup j ts) (lookup j fs)
unfolding merge lookup after
lookup-merge_fields j ts end = refl
lookup-merge_fields j ts (field k v fs) =
    ground (arith, lookup-set_member k j v ts (merge_fields ts fs), lookup-merge_fields j ts fs)

-- The members below a member.
abbrev pub below : Option Value → Fields
below o = fields_or_end (or_null o)

unfoldable pub dig : String → List String → Fields → Option Value
dig k [] fs = lookup k fs
dig k (j ∷ ks) fs = dig j ks (below (lookup k fs))

dig-end : (k : String) (ks : List String) → dig k ks end ≡ none
unfolding dig lookup
dig-end k [] = refl
dig-end k (j ∷ ks) = dig-end j ks

below-after :
    (j : String) (ks : List String) (o : Option Value) (v : Value)
    → IsSilent (j ∷ ks) v
    → below (after o (some v)) ≡ fields_or_end (merge (or_null o) v)
unfolding after merge IsSilent
below-after j ks o (object fs) h = refl
below-after j ks o null h = absurd h
below-after j ks o (bool b) h = refl
below-after j ks o (number b) h = refl
below-after j ks o (text b) h = refl
below-after j ks o (array b) h = refl

-- A merge leaves alone what the patch is silent on.
pub dig-merge_silent :
    (k : String) (ks : List String) (t p : Value)
    → IsSilent (k ∷ ks) p
    → dig k ks (fields_or_end (merge t p)) ≡ dig k ks (fields_or_end t)
unfolding dig merge IsSilent after
dig-merge_silent k [] t (object fs) h = elim (Option-cases (lookup k fs)) [
  | inl e ↦ rw (lookup-merge_fields k (fields_or_end t) fs, e)
  | inr (v, e) ↦ absurd (rw (e, IsSilent) at h)
]
dig-merge_silent k (j ∷ ks) t (object fs) h = elim (Option-cases (lookup k fs)) [
  | inl e ↦ rw (lookup-merge_fields k (fields_or_end t) fs, e)
  | inr (v, e) ↦
      rw (lookup-merge_fields k (fields_or_end t) fs, e)
        (ap (dig j ks) (below-after j ks (lookup k (fields_or_end t)) v (rw (e, IsSilent) at h))
          ∙ dig-merge_silent j ks (or_null (lookup k (fields_or_end t))) v (rw (e, IsSilent) at h))
]
dig-merge_silent k ks t null h = absurd h
dig-merge_silent k ks t (bool b) h = absurd h
dig-merge_silent k ks t (number b) h = absurd h
dig-merge_silent k ks t (text b) h = absurd h
dig-merge_silent k ks t (array b) h = absurd h

no_text : (k : String) (ks : List String) (s : String) → dig k ks end ≢ some (text s)
no_text k ks s h = cc (dig-end k ks, h)

deeper :
    (j : String) (ks : List String) (o : Option Value) (v : Value) (s : String)
    → dig j ks (fields_or_end v) ≡ some (text s)
    → dig j ks (fields_or_end (merge (or_null o) v)) ≡ some (text s)
    → dig j ks (below (after o (some v))) ≡ some (text s)
unfolding after merge
deeper j ks o null s h g = absurd (no_text j ks s h)
deeper j ks o (bool b) s h g = g
deeper j ks o (number b) s h g = g
deeper j ks o (text b) s h g = g
deeper j ks o (array b) s h g = g
deeper j ks o (object b) s h g = g

-- A merge takes over a text of the patch.
pub dig-merge_text :
    (k : String) (ks : List String) (t p : Value) (s : String)
    → dig k ks (fields_or_end p) ≡ some (text s)
    → dig k ks (fields_or_end (merge t p)) ≡ some (text s)
unfolding dig merge after
dig-merge_text k [] t (object fs) s h = rw (lookup-merge_fields k (fields_or_end t) fs, h)
dig-merge_text k (j ∷ ks) t (object fs) s h = elim (Option-cases (lookup k fs)) [
  | inl e ↦ absurd (no_text j ks s (rw e at h))
  | inr (v, e) ↦
      rw (lookup-merge_fields k (fields_or_end t) fs, e)
        (deeper j ks (lookup k (fields_or_end t)) v s (rw e at h)
          (dig-merge_text j ks (or_null (lookup k (fields_or_end t))) v s (rw e at h)))
]
dig-merge_text k ks t null s h = absurd (no_text k ks s h)
dig-merge_text k ks t (bool b) s h = h
dig-merge_text k ks t (number b) s h = h
dig-merge_text k ks t (text b) s h = h
dig-merge_text k ks t (array b) s h = h
