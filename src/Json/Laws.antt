-- ===== src/Json/Laws.antt =====
-- Laws of the members of a JSON value.
use wasmcloud_operator.Base.{
  String, ◌≡◌, refl, ◌==◌, eq_iff, none, some, if◌then◌else◌, arith, inl, inr, Option-cases,
}
use wasmcloud_operator.Json.{
  Value, null, bool, number, text, array, object, Fields, end, field, lookup, put, drop, member,
  change_member,
}

pub lookup-put :
    (k j : String) (v : Value) (fs : Fields)
    → lookup j (put k v fs) ≡ (if k == j then some v else lookup j fs)
unfolding lookup put
lookup-put k j v end = refl
lookup-put k j v (field i u fs) =
    ground (arith, eq_iff k j, eq_iff i k, eq_iff i j, lookup-put k j v fs)

pub lookup-drop :
    (k j : String) (fs : Fields) → lookup j (drop k fs) ≡ (if k == j then none else lookup j fs)
unfolding lookup drop
lookup-drop k j end = ground arith
lookup-drop k j (field i u fs) =
    ground (arith, eq_iff k j, eq_iff i k, eq_iff i j, lookup-drop k j fs)

pub member-change_member :
    (k j : String) (f : Value → Value) (v : Value)
    → member j (change_member k f v)
      ≡ (if k == j then elim (member j v) [ none ↦ none | some u ↦ some (f u) ] else member j v)
unfolding member change_member
member-change_member k j f (object fs) = elim (Option-cases (lookup k fs)) [
  | inl e ↦ ground (arith, e, eq_iff k j)
  | inr (u, e) ↦ ground (arith, e, eq_iff k j, lookup-put k j (f u) fs)
]
member-change_member k j f null = ground arith
member-change_member k j f (bool b) = ground arith
member-change_member k j f (number n) = ground arith
member-change_member k j f (text s) = ground arith
member-change_member k j f (array xs) = ground arith
