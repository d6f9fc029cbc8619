-- ===== src/Contract/Requests/Objects.antt =====
-- The requests of preparing and deleting objects in internal/controller/namespace_reconciler.go.
use namespace_class.Base.{String, Option, none, some, List, [], ◌∷◌, map, not, ◌++◌, ℕ, suc}
use namespace_class.Base.Dict.{Dict, has, get, set}
use namespace_class.Errors.{Result, ok, err, is_not_found}
use namespace_class.GroupVersionKind.{GroupVersionKind}
use namespace_class.Json.{Fields}
use namespace_class.Api.{Namespace, NamespaceClass, RawExtension, ResourceRef}
use namespace_class.Policy.{Policy}
use namespace_class.Libraries.{Libraries}
use namespace_class.Inventory.{resource_ref_key}
use namespace_class.Render.{raw_to_unstructured, template_values, render_object_templates}
use namespace_class.Resources.Objects.{is_managed_by_namespace, can_manage, place}
use namespace_class.Resources.Prepare.{
  PreparedManagedResource, check_object, duplicate, finish, prefixed, conditioned_at,
  prepare_managed_resource, prepare_resource, prepare_loop, prepare_managed_resources,
}
use namespace_class.Resources.Stale.{
  object_from_resource_ref, after_delete, after_read, delete_one, stale_loop,
  delete_stale_managed_resources,
}
use namespace_class.Cluster.{
  Request, Exec, call, pure, fail, get_object, rest_mapping, delete_object,
}
use namespace_class.Cluster.Safety.{History}
use namespace_class.Contract.Requests.{Only, Only-bind, Only-next, Only-if}

module _ (P : Request → Type 0) where
  module _ (lib : Libraries) (namespace : Namespace)
      (reads : (kind : GroupVersionKind) (space name : String)
        → P (get_object kind space name)) where
    module _ (deletes : (object : Fields) → P (delete_object object)) where
      after_delete-Only :
          (ref : ResourceRef) (others : Exec (Unit {0})) (h : History) (r : Result (Unit {0}))
          → ((h' : History) → Only P h' others)
          → Only P h (after_delete lib ref others r)
      after_delete-Only ref others h (ok done) go = go h
      after_delete-Only ref others h (err e) go =
          Only-if P h (is_not_found e) others _ (λ _. go h) (λ _. tt)

      after_read-Only :
          (ref : ResourceRef) (others : Exec (Unit {0})) (h : History) (r : Result Fields)
          → ((h' : History) → Only P h' others)
          → Only P h (after_read lib namespace ref others r)
      unfolding after_read
      after_read-Only ref others h (ok object) go =
          Only-if P h (not (is_managed_by_namespace lib object namespace)) _
            (call (delete_object object) (after_delete lib ref others)) (λ _. tt)
            (λ _. (deletes object, λ r. after_delete-Only ref others _ r go))
      after_read-Only ref others h (err e) go =
          Only-if P h (is_not_found e) others _ (λ _. go h) (λ _. tt)

      delete_one-Only :
          (ref : ResourceRef) (others : Exec (Unit {0})) (h : History) (r : Result Fields)
          → ((h' : History) → Only P h' others)
          → Only P h (delete_one lib namespace ref others r)
      unfolding delete_one
      delete_one-Only ref others h (ok object) go =
          (reads _ _ _, λ r. after_read-Only ref others _ r go)
      delete_one-Only ref others h (err e) go = tt

      stale_loop-Only :
          (desired : List String) (refs : List ResourceRef) (h : History)
          → Only P h (stale_loop lib namespace desired refs)
      unfolding stale_loop
      stale_loop-Only desired [] h = tt
      stale_loop-Only desired (ref ∷ refs) h =
          Only-if P h (has (resource_ref_key ref) desired) (stale_loop lib namespace desired refs) _
            (λ _. stale_loop-Only desired refs h)
            (λ _.
              delete_one-Only ref (stale_loop lib namespace desired refs) h
                (object_from_resource_ref lib ref) (λ h'. stale_loop-Only desired refs h'))

      -- The deletion of stale resources reads and deletes objects.
      pub delete_stale-Only :
          (previous desired : List ResourceRef) (h : History)
          → Only P h (delete_stale_managed_resources lib namespace previous desired)
      unfolding delete_stale_managed_resources
      delete_stale-Only previous desired h =
          stale_loop-Only (map resource_ref_key desired) previous h

    module _ (maps : (kind : GroupVersionKind) → P (rest_mapping kind)) (policy : Policy)
        (class_name : String) where
      prepare_managed_resource-Only :
          (object : Fields) (h : History)
          → Only P h (prepare_managed_resource lib policy object namespace class_name)
      unfolding prepare_managed_resource
      prepare_managed_resource-Only object h =
          Only-next P _
            (λ h' _. (
              maps _,
              elim [
                | ok scope ↦ (
                  reads _ _ _,
                  λ r.
                      Only-next P
                        (λ _.
                          pure (finish lib (place lib scope namespace object) namespace class_name))
                        (λ _ _. tt) _ (can_manage lib namespace r),
                )
                | err e ↦ tt
              ],
            ))
            h (check_object lib policy object)

      prefixed-Only :
          (object : Fields) (h : History) (r : Result PreparedManagedResource)
          → Only P h (prefixed lib object r)
      prefixed-Only object h (ok p) = tt
      prefixed-Only object h (err e) = tt

      prepare_resource-Only :
          (index : ℕ) (raw : RawExtension) (h : History)
          → Only P h (prepare_resource lib policy namespace class_name index raw)
      unfolding prepare_resource
      prepare_resource-Only index raw h =
          Only-next P _
            (λ h' parsed.
              Only-next P _
                (λ g object.
                  Only-bind P g (prepare_managed_resource lib policy object namespace class_name)
                    (prefixed lib object) (prepare_managed_resource-Only object g)
                    (λ g' r. prefixed-Only object g' r))
                h'
                (conditioned_at lib "render resource " index
                  (render_object_templates parsed (template_values namespace class_name))))
            h (conditioned_at lib "parse resource " index (raw_to_unstructured lib raw))

      collect-Only :
          (p : PreparedManagedResource) (existing : Option ResourceRef) (h : History)
          (more : Exec (List PreparedManagedResource))
          → Only P h more
          → Only P h (elim existing [
            | some ref ↦ fail (duplicate lib (resource_ref_key p.ref) ref)
            | none ↦ more
          ])
      collect-Only p none h more s = s
      collect-Only p (some ref) h more s = tt

      prepare_loop-Only :
          (index : ℕ) (raws : List RawExtension) (seen : Dict ResourceRef)
          (resources : List PreparedManagedResource) (h : History)
          → Only P h (prepare_loop lib policy namespace class_name index raws seen resources)
      unfolding prepare_loop
      prepare_loop-Only index [] seen resources h = tt
      prepare_loop-Only index (raw ∷ raws) seen resources h =
          Only-bind P h (prepare_resource lib policy namespace class_name index raw) _
            (prepare_resource-Only index raw h)
            (Only-next P _ λ h' p. collect-Only p (get (resource_ref_key p.ref) seen) h' _ (
              prepare_loop-Only (suc index) raws (set (resource_ref_key p.ref) p.ref seen)
                (resources ++ p ∷ []) h'))

    -- The preparation of a class's resources resolves mappings and reads objects.
    pub prepare_managed_resources-Only :
        (maps : (kind : GroupVersionKind) → P (rest_mapping kind)) (policy : Policy)
        (class : NamespaceClass) (h : History)
        → Only P h (prepare_managed_resources lib policy namespace class)
    unfolding prepare_managed_resources
    prepare_managed_resources-Only maps policy class h =
        prepare_loop-Only maps policy class.name 0 class.resources [] [] h
