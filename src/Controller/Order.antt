-- ===== src/Controller/Order.antt =====
-- The objects that the code of src/controller.rs applies, in the order of its calls.
pub mod Steps
pub mod Sequence
use wasmcloud_operator.Base.{
  String, ◌≡◌, refl, sym, ap, ◌∙◌, Bool, true, false, Option, none, some, List, [], ◌∷◌, ◌++◌,
  if◌then◌else◌,
}
use wasmcloud_operator.Base.Outcome.{Outcome, ok, err, panic}
use wasmcloud_operator.Base.Exec.{Exec, pure, unwrap, continue, ◌>>=◌, map_err, map_error}
use wasmcloud_operator.Base.Keeps.{Keeps}
use wasmcloud_operator.Base.Post.{Post, Post-map, Post-map_error}
use wasmcloud_operator.Kube.World.{
  Call, apply_config_map, apply_account, apply_role, apply_binding, apply_deployment,
  apply_daemon_set, apply_service, patch_status,
}
use wasmcloud_operator.Services.Types.{Operator}

pub data Kind : Type 0 where
  config_map service_account role role_binding deployment daemon_set service status : Kind

-- An object that is applied, by its kind, namespace and name.
pub record Target : Type 0 where
  pub kind : Kind
  pub namespace : String
  pub name : String

abbrev pub cons_target : Kind → String → String → List Target → List Target
cons_target kind namespace name ts = record { kind = kind; namespace = namespace; name = name } ∷ ts

-- The objects that calls apply, in the order of the calls.
unfoldable pub targets : List Call → List Target
targets [] = []
targets (apply_config_map ns name p o ∷ calls) = cons_target config_map ns name (targets calls)
targets (apply_account ns name p o ∷ calls) = cons_target service_account ns name (targets calls)
targets (apply_role ns name p o ∷ calls) = cons_target role ns name (targets calls)
targets (apply_binding ns name p o ∷ calls) = cons_target role_binding ns name (targets calls)
targets (apply_deployment ns name p o ∷ calls) = cons_target deployment ns name (targets calls)
targets (apply_daemon_set ns name p o ∷ calls) = cons_target daemon_set ns name (targets calls)
targets (apply_service ns name p o ∷ calls) = cons_target service ns name (targets calls)
targets (patch_status ns name o ∷ calls) = cons_target status ns name (targets calls)
targets (_ ∷ calls) = targets calls

-- The older part of a list whose newest element comes first.
abbrev pub IsPart : List Target → List Target → Type 0
IsPart ys xs = (zs : List Target) × (xs ≡ zs ++ ys)

-- What is applied after `ts`: all of `xs`, or the older part of it.
abbrev pub AllApplied : List Target → List Target → Operator → Type 0
AllApplied xs ts op = targets op.calls ≡ xs ++ ts

abbrev pub PartApplied : List Target → List Target → Operator → Type 0
PartApplied xs ts op = (ys : List Target) × IsPart ys xs × (targets op.calls ≡ ys ++ ts)

-- A success applies the objects, newest first; a failure applies the older ones among them.
pub record Applies {E A : Type 0} (xs : List Target) (m : Exec E Operator A) : Type 0 where
  pub run :
      (op : Operator)
      → Post
          (λ _ op'. AllApplied xs (targets op.calls) op')
          (PartApplied xs (targets op.calls))
          (m op)

append_assoc : (xs ys zs : List Target) → xs ++ ys ++ zs ≡ xs ++ (ys ++ zs)
append_assoc [] ys zs = refl
append_assoc (x ∷ xs) ys zs = ap (λ l. x ∷ l) (append_assoc xs ys zs)

module _ (xs ys ts : List Target) (op' : Operator) where
  later_all :
      (op : Operator)
      → AllApplied xs ts op
      → AllApplied ys (targets op.calls) op'
      → AllApplied (ys ++ xs) ts op'
  later_all op h k = k ∙ ap (λ l. ys ++ l) h ∙ sym (append_assoc ys xs ts)

  later_part :
      (op : Operator)
      → AllApplied xs ts op
      → PartApplied ys (targets op.calls) op'
      → PartApplied (ys ++ xs) ts op'
  later_part op h (us, (zs, e), k) = (
    us ++ xs,
    (zs, ap (λ l. l ++ xs) e ∙ append_assoc zs us xs),
    k ∙ ap (λ l. us ++ l) h ∙ sym (append_assoc us xs ts),
  )

  earlier_part : PartApplied xs ts op' → PartApplied (ys ++ xs) ts op'
  earlier_part (us, (zs, e), k) =
      (us, (ys ++ zs, ap (λ l. ys ++ l) e ∙ sym (append_assoc ys zs us)), k)

module _ {E A B : Type 0} (xs ys : List Target) where
  Applies-continue :
      (r : Outcome E A) (f : A → Exec E Operator B) (ts : List Target) (op : Operator)
      → Post (λ _ op'. AllApplied xs ts op') (PartApplied xs ts) (r, op)
      → ((a : A) → Applies ys (f a))
      → Post (λ _ op'. AllApplied (ys ++ xs) ts op') (PartApplied (ys ++ xs) ts) (continue r f op)
  Applies-continue (ok a) f ts op h k =
      Post-map _ _ _ _ (f a op).0 (f a op).1 (λ _ g. later_all xs ys ts (f a op).1 op h g)
        (λ g. later_part xs ys ts (f a op).1 op h g) ((k a).run op)
  Applies-continue (err e) f ts op h k = earlier_part xs ys ts op h
  Applies-continue panic f ts op h k = earlier_part xs ys ts op h

  pub Applies-bind :
      (m : Exec E Operator A) (f : A → Exec E Operator B)
      → Applies xs m
      → ((a : A) → Applies ys (f a))
      → Applies (ys ++ xs) (m >>= f)
  Applies-bind m f h k = record {
    run = λ op. Applies-continue (m op).0 f (targets op.calls) (m op).1 (h.run op) k;
  }

module _ {E A : Type 0} where
  pub Applies-pure : (a : A) → Applies {E = E} [] (pure a)
  Applies-pure a = record { run = λ op. refl }

  -- Code that applies nothing.
  nothing_applied :
      (r : Outcome E A) (ts : List Target) (op' : Operator)
      → targets op'.calls ≡ ts
      → Post (λ _ op''. AllApplied [] ts op'') (PartApplied [] ts) (r, op')
  nothing_applied (ok a) ts op' h = h
  nothing_applied (err e) ts op' h = ([], ([], refl), h)
  nothing_applied panic ts op' h = ([], ([], refl), h)

  pub Applies-quiet :
      (m : Exec E Operator A)
      → ((ts : List Target) → Keeps (λ op. targets op.calls ≡ ts) m)
      → Applies [] m
  Applies-quiet m k = record {
    run = λ op.
        nothing_applied (m op).0 (targets op.calls) (m op).1 ((k (targets op.calls)).after op refl);
  }

  pub Applies-if :
      (xs : List Target) (b : Bool) (m n : Exec E Operator A)
      → Applies xs m
      → Applies xs n
      → Applies xs (if b then m else n)
  Applies-if xs true m n h k = h
  Applies-if xs false m n h k = k

  -- A value that is known to be there.
  pub Applies-unwrap :
      (xs : List Target) {B : Type 0} (o : Option B) (b : B) (f : B → Exec E Operator A)
      → o ≡ some b
      → Applies xs (f b)
      → Applies xs (unwrap o >>= f)
  Applies-unwrap xs o b f e h = rw e h
