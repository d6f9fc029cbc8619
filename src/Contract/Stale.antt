-- ===== src/Contract/Stale.antt =====
-- The contract for `deleteStaleManagedResources` of
-- internal/controller/namespace_reconciler.go.
use namespace_class.Base.{String, ◌≡◌, refl, ◌∙◌, ◌⊎◌, inl, inr, true, List, [], ◌∷◌, Bool-cases}
use namespace_class.Base.Dict.{has}
use namespace_class.Base.Lists.{All}
use namespace_class.Errors.{Error, Result, ok, err, is_not_found}
use namespace_class.Json.{Fields}
use namespace_class.Api.{Namespace, ResourceRef}
use namespace_class.Policy.{Policy}
use namespace_class.Libraries.{Libraries}
use namespace_class.Inventory.{resource_ref_key}
use namespace_class.Inventory.Merge.{keys}
use namespace_class.Resources.Objects.{is_managed_by_namespace, read_request}
use namespace_class.Resources.Stale.{
  object_from_resource_ref, after_delete, after_read, delete_one, stale_loop,
  delete_stale_managed_resources,
}
use namespace_class.Cluster.{Exec, delete_object}
use namespace_class.Cluster.Safety.{History, past, Extends, here, later, Safe, Safe-post}
use namespace_class.Contract.{Seen, Gone, Deletable, applied_refs, Duty}
use namespace_class.Contract.Monotone.{Seen-Extends, Gone-Extends}

module _ (lib : Libraries) (policy : Policy) (namespace : Namespace) (desired : List String) where
  -- The reference is still desired, or its object is gone.
  abbrev pub Settled : History → ResourceRef → Type 0
  Settled h ref = (has (resource_ref_key ref) desired ≡ true) ⊎ Gone lib ref h

  -- Nothing is applied, and success means that all references are settled.
  pub record Swept (g : History) (refs : List ResourceRef) (h : History) (r : Result (Unit {0}))
      : Type 0 where
    pub same : applied_refs lib h ≡ applied_refs lib g
    pub settled : r ≡ ok tt → All (Settled h) refs

  abbrev Loop : History → List ResourceRef → Exec (Unit {0}) → Type 0
  Loop h refs m = Safe (Duty lib policy) (Swept h refs) h m

  -- The rest of the loop, from a later history in which the first reference is gone.
  continue :
      (ref : ResourceRef) (refs : List ResourceRef) (g h : History) (m : Exec (Unit {0}))
      → applied_refs lib h ≡ applied_refs lib g
      → Gone lib ref h
      → Loop h refs m
      → Safe (Duty lib policy) (Swept g (ref ∷ refs)) h m
  continue ref refs g h m e gone s =
      Safe-post (Duty lib policy) (Swept h refs) (Swept g (ref ∷ refs)) h m s λ h' r swept x.
        record {
          same = swept.same ∙ e;
          settled = λ done. (inr (Gone-Extends lib x gone), swept.settled done);
        }

  fails :
      (refs : List ResourceRef) (g h : History) (e : Error)
      → applied_refs lib h ≡ applied_refs lib g
      → Swept g refs h (err e)
  fails refs g h e same = record { same = same; settled = λ done. cc done }

  module _ (ref : ResourceRef) (refs : List ResourceRef) (others : Exec (Unit {0})) where
    abbrev After : History → History → Exec (Unit {0}) → Type 0
    After g h m = Safe (Duty lib policy) (Swept g (ref ∷ refs)) h m

    after_delete-Safe :
        (g h : History) (object found : Fields)
        → applied_refs lib h ≡ applied_refs lib g
        → object_from_resource_ref lib ref ≡ ok object
        → ((h : History) → Extends g h → Loop h refs others)
        → Extends g h
        → (r : Result (Unit {0}))
        → After g
            (past (past h (read_request lib object) (ok found)) (delete_object found) r)
            (after_delete lib ref others r)
    unfolding applied_refs
    after_delete-Safe g h object found same e rest x (ok tt) =
        continue ref refs g _ others same (Gone.deleted object found e)
          (rest _ (later _ _ (later _ _ x)))
    after_delete-Safe g h object found same e rest x (err error) =
        elim (Bool-cases (is_not_found error)) [
          | inl none_left ↦ rw none_left (
              continue ref refs g _ others same (Gone.vanished object found error e none_left)
                (rest _ (later _ _ (later _ _ x))))
          | inr failed ↦ rw failed (fails (ref ∷ refs) g _ _ same)
        ]

    after_read-Safe :
        (g h : History) (object : Fields)
        → applied_refs lib h ≡ applied_refs lib g
        → object_from_resource_ref lib ref ≡ ok object
        → Seen namespace h
        → ((h : History) → Extends g h → Loop h refs others)
        → Extends g h
        → (r : Result Fields)
        → After g (past h (read_request lib object) r) (after_read lib namespace ref others r)
    unfolding applied_refs after_read
    after_read-Safe g h object same e seen rest x (ok found) =
        elim (Bool-cases (is_managed_by_namespace lib found namespace)) [
          | inl mine ↦ rw mine (
            Deletable.just_read _ _ _ namespace seen mine,
            after_delete-Safe g h object found same e rest x,
          )
          | inr foreign ↦ rw foreign (fails (ref ∷ refs) g _ _ same)
        ]
    after_read-Safe g h object same e seen rest x (err error) =
        elim (Bool-cases (is_not_found error)) [
          | inl none_left ↦ rw none_left (
              continue ref refs g _ others same (Gone.absent object error e none_left)
                (rest _ (later _ _ x)))
          | inr failed ↦ rw failed (fails (ref ∷ refs) g _ _ same)
        ]

    delete_one-Safe :
        (g : History)
        → Seen namespace g
        → ((h : History) → Extends g h → Loop h refs others)
        → (r : Result Fields) → object_from_resource_ref lib ref ≡ r
        → After g g (delete_one lib namespace ref others r)
    unfolding delete_one
    delete_one-Safe g seen rest (ok object) e =
        (tt, after_read-Safe g g object refl e seen rest here)
    delete_one-Safe g seen rest (err error) e = fails (ref ∷ refs) g g _ refl

  stale_loop-Safe :
      (refs : List ResourceRef) (h : History)
      → Seen namespace h
      → Loop h refs (stale_loop lib namespace desired refs)
  unfolding stale_loop
  stale_loop-Safe [] h seen = record { same = refl; settled = λ _. tt }
  stale_loop-Safe (ref ∷ refs) h seen = elim (Bool-cases (has (resource_ref_key ref) desired)) [
    | inl wanted ↦ rw wanted (
        Safe-post (Duty lib policy) (Swept h refs) (Swept h (ref ∷ refs)) h _
          (stale_loop-Safe refs h seen)
          λ h' r swept x. record {
            same = swept.same;
            settled = λ done. (inl wanted, swept.settled done);
          })
    | inr unwanted ↦ rw unwanted (
        delete_one-Safe ref refs _ h seen (λ h' x. stale_loop-Safe refs h' (Seen-Extends x seen))
          (object_from_resource_ref lib ref) refl)
  ]

-- The same for the whole operation, whose desired references are given.
pub delete_stale-Safe :
    (lib : Libraries) (policy : Policy) (namespace : Namespace) (previous wanted : List ResourceRef)
    (h : History)
    → Seen namespace h
    → Safe
        (Duty lib policy)
        (Swept lib policy namespace (keys wanted) h previous)
        h
        (delete_stale_managed_resources lib namespace previous wanted)
unfolding delete_stale_managed_resources
delete_stale-Safe lib policy namespace previous wanted h seen =
    stale_loop-Safe lib policy namespace (keys wanted) previous h seen
