-- ===== src/Contract/Prepare.antt =====
-- The contract for `prepareManagedResources` of
-- internal/controller/namespace_reconciler.go.
use namespace_class.Render.{raw_to_unstructured, render_object_templates, template_values}
use namespace_class.Inventory.{resource_ref_key}
use namespace_class.Base.{suc}
use namespace_class.Cluster.{fail}
use namespace_class.Resources.Prepare.{duplicate, prepare_resource}
use namespace_class.Resources.Prepare.{prefixed, conditioned_at}
use namespace_class.Base.Lists.{All, All-map, All-append}
use namespace_class.Base.{ℕ}
use namespace_class.Cluster.{next, pure}
use namespace_class.Base.{
  String, ◌≡◌, ◌≢◌, refl, ◌∙◌, sym, inl, inr, eq_iff, Option, none, some, List, [], ◌∷◌, ◌++◌,
  arith,
}
use namespace_class.Base.Dict.{Dict, get}
use namespace_class.Errors.{Error, Result, ok, err, ok-injective, Result-cases}
use namespace_class.Json.{Fields}
use namespace_class.Api.{Namespace, NamespaceClass, RawExtension, ResourceRef}
use namespace_class.Policy.{Policy, validate}
use namespace_class.Libraries.{Libraries, IsLawful}
use namespace_class.Resources.Objects.{can_manage, place, ref_of, read_request}
use namespace_class.Resources.Prepare.{
  PreparedManagedResource, check_object, finish, prepare_managed_resource, prepare_loop,
  prepare_managed_resources,
}
use namespace_class.Cluster.{Exec}
use namespace_class.Cluster.Safety.{History, past, Extends, Safe, Safe-post, Safe-bind}
use namespace_class.Contract.{Free, Ready, applied_refs, Duty}
use namespace_class.Contract.Monotone.{Ready-Extends}
use namespace_class.Contract.Finish.{
  kind-place, name-place, finished, kind-finish, namespace-finish, name-finish, marked-finish,
}

module _ (lib : Libraries) (law : IsLawful lib) where
  open lib use {group_version_kind, get_namespace, get_name, get_labels, get_annotations}

  -- A prepared resource, with what makes it ready in a history.
  abbrev pub Sure : Policy → Namespace → History → PreparedManagedResource → Type 0
  Sure policy namespace h p = Ready lib policy namespace p.object h × (p.ref ≡ ref_of lib p.object)

  named_of_check :
      (policy : Policy) (o : Fields)
      → check_object lib policy o ≡ ok tt
      → (get_name o ≢ "") × (validate policy (group_version_kind o) ≡ ok tt)
  unfolding check_object
  named_of_check policy o h = (λ e. ground (arith, (eq_iff (get_name o) "").1 e), ground arith)

  Free-of_can_manage :
      (namespace : Namespace) (o : Fields) (h : History) (r : Result Fields)
      → can_manage lib namespace r ≡ ok tt
      → Free lib namespace
          (group_version_kind o)
          (get_namespace o)
          (get_name o)
          (past h (read_request lib o) r)
  unfolding can_manage
  Free-of_can_manage namespace o h (ok existing) e = Free.owned existing (ground arith)
  Free-of_can_manage namespace o h (err error) e = Free.absent error (ground arith)

  module _ (policy : Policy) (namespace : Namespace) (class_name : String) where
    Ready-finish :
        (o : Fields) (h : History)
        → get_name o ≢ ""
        → validate policy (group_version_kind o) ≡ ok tt
        → Free lib namespace (group_version_kind o) (get_namespace o) (get_name o) h
        → Ready lib policy namespace (finished lib law o namespace class_name) h
    Ready-finish o h named valid free = record {
      permitted = rw (kind-finish lib law o namespace class_name) valid;
      marked = marked-finish lib law o namespace class_name named;
      free =
          rw
            (
              kind-finish lib law o namespace class_name,
              namespace-finish lib law o namespace class_name,
              name-finish lib law o namespace class_name,
            )
            free;
    }

    -- Nothing is applied, and what comes out is sure.
    pub record Prepared {A : Type 0} (P : History → A → Type 0) (g h : History) (r : Result A)
        : Type 0 where
      pub same : applied_refs lib h ≡ applied_refs lib g
      pub sure : (a : A) → r ≡ ok a → P h a

    nothing :
        {A : Type 0} (P : History → A → Type 0) (g h : History) (e : Error)
        → applied_refs lib h ≡ applied_refs lib g
        → Prepared P g h (err e)
    nothing P g h e same = record { same = same; sure = λ a x. cc x }

    abbrev Post : History → History → Result PreparedManagedResource → Type 0
    Post = Prepared (Sure policy namespace)

    after_check :
        (o : Fields) (g h : History)
        → applied_refs lib h ≡ applied_refs lib g
        → get_name o ≢ ""
        → validate policy (group_version_kind o) ≡ ok tt
        → (r : Result Fields) (c : Result (Unit {0})) → can_manage lib namespace r ≡ c
        → Safe
            (Duty lib policy)
            (Post g)
            (past h (read_request lib o) r)
            (next (λ _. pure (finish lib o namespace class_name)) c)
    unfolding applied_refs
    after_check o g h same named valid r (ok tt) e = record {
      same = same;
      sure = λ p x. rw (← ok-injective x) (
        Ready-finish o _ named valid (Free-of_can_manage namespace o h r e),
        unfold finish in refl,
      );
    }
    after_check o g h same named valid r (err error) e = nothing _ g _ error same

    prepare_managed_resource-Safe :
        (o : Fields) (h : History)
        → Safe
            (Duty lib policy)
            (Post h)
            h
            (prepare_managed_resource lib policy o namespace class_name)
    unfolding prepare_managed_resource applied_refs
    prepare_managed_resource-Safe o h = elim (Result-cases (check_object lib policy o)) [
      | inl (a, e) ↦
          let (named, valid) = named_of_check policy o e in
          rw e (
            tt,
            elim [
              | ok scope ↦ (
                tt,
                λ r.
                    after_check (place lib scope namespace o) h _ refl
                      (λ x. named (sym (name-place lib law scope namespace o) ∙ x))
                      (rw (kind-place lib law scope namespace o) valid) r
                      (can_manage lib namespace r) refl,
              )
              | err error ↦ nothing _ h _ _ refl
            ],
          )
      | inr (error, e) ↦ rw e (nothing _ h h error refl)
    ]

    abbrev AllSure : History → List PreparedManagedResource → Type 0
    AllSure h = All (Sure policy namespace h)

    Sure-Extends :
        {g h : History}
        → Extends g h
        → (p : PreparedManagedResource) → Sure policy namespace g p
        → Sure policy namespace h p
    Sure-Extends x p s = (Ready-Extends lib policy x s.0, s.1)

    AllSure-Extends :
        {g h : History}
        → Extends g h
        → (l : List PreparedManagedResource) → AllSure g l
        → AllSure h l
    AllSure-Extends x l s = All-map _ _ l (Sure-Extends x) s

    prefixed-Safe :
        (o : Fields) (g h : History) (r : Result PreparedManagedResource)
        → Post g h r
        → Safe (Duty lib policy) (Post g) h (prefixed lib o r)
    prefixed-Safe o g h (ok p) post = post
    prefixed-Safe o g h (err e) post = nothing _ g h _ post.same

    -- The rest of a computation from a later history.
    rebase :
        {A : Type 0} (P : History → A → Type 0) (g h : History) (m : Exec A)
        → applied_refs lib h ≡ applied_refs lib g
        → Safe (Duty lib policy) (Prepared P h) h m
        → Safe (Duty lib policy) (Prepared P g) h m
    rebase P g h m same s =
        Safe-post (Duty lib policy) (Prepared P h) (Prepared P g) h m s
          λ h' r p x. record { same = p.same ∙ same; sure = p.sure }

    prepare_resource-Safe :
        (index : ℕ) (raw : RawExtension) (h : History)
        → Safe
            (Duty lib policy)
            (Post h)
            h
            (prepare_resource lib policy namespace class_name index raw)
    unfolding prepare_resource
    prepare_resource-Safe index raw h =
        elim (Result-cases
          (conditioned_at lib "parse resource " index (raw_to_unstructured lib raw))) [
            | inr (e, failed) ↦ rw failed (nothing _ h h e refl)
            | inl (parsed, done) ↦
                rw done
                  (elim (Result-cases (
                    conditioned_at lib "render resource " index
                      (render_object_templates parsed (template_values namespace class_name)))) [
                        | inr (e, failed) ↦ rw failed (nothing _ h h e refl)
                        | inl (o, done') ↦ rw done' (
                            Safe-bind (Duty lib policy) (Post h) (Post h) h _ (prefixed lib o)
                              (prepare_managed_resource-Safe o h)
                              λ h' r post x. prefixed-Safe o h h' r post)
                      ])
          ]

    -- After the test for duplicates.
    collect :
        (g h : History) (p : PreparedManagedResource) (existing : Option ResourceRef)
        (more : Exec (List PreparedManagedResource))
        → applied_refs lib h ≡ applied_refs lib g
        → Safe (Duty lib policy) (Prepared AllSure h) h more
        → Safe (Duty lib policy) (Prepared AllSure g) h (elim existing [
          | some ref ↦ fail (duplicate lib (resource_ref_key p.ref) ref)
          | none ↦ more
        ])
    collect g h p none more same s = rebase AllSure g h more same s
    collect g h p (some ref) more same s = nothing _ g h _ same

    prepare_loop-Safe :
        (raws : List RawExtension) (index : ℕ) (seen : Dict ResourceRef)
        (resources : List PreparedManagedResource) (h : History)
        → AllSure h resources
        → Safe
            (Duty lib policy)
            (Prepared AllSure h)
            h
            (prepare_loop lib policy namespace class_name index raws seen resources)
    unfolding prepare_loop
    prepare_loop-Safe [] index seen resources h ready = record {
      same = refl;
      sure = λ l e. rw (← ok-injective e) ready;
    }
    prepare_loop-Safe (raw ∷ raws) index seen resources h ready =
        Safe-bind (Duty lib policy) (Prepared AllSure h) (Post h) h _ _
          (prepare_resource-Safe index raw h)
          λ h'. elim [
            | err e ↦ λ post x. nothing _ h h' e post.same
            | ok p ↦ λ post x. collect h h' p (get (resource_ref_key p.ref) seen) _ post.same (
                prepare_loop-Safe raws (suc index) _ (resources ++ p ∷ []) h' (
                  All-append _ resources (p ∷ []) (AllSure-Extends x resources ready)
                    (post.sure p refl, tt)))
          ]

    pub prepare_managed_resources-Safe :
        (class : NamespaceClass) (h : History)
        → class.name ≡ class_name
        → Safe
            (Duty lib policy)
            (Prepared AllSure h)
            h
            (prepare_managed_resources lib policy namespace class)
    unfolding prepare_managed_resources
    prepare_managed_resources-Safe class h e = rw e (prepare_loop-Safe class.resources 0 [] [] h tt)
