-- ===== src/Contract/Requests.antt =====
-- Programs all of whose requests have a property, and the operations of
-- internal/controller/namespace_reconciler.go that make requests of few kinds.
pub mod Objects
pub mod Bindings
use namespace_class.Base.{
  ◌≡◌, refl, String, Bool, true, false, Option, none, some, List, [], ◌∷◌, map, if◌then◌else◌, not,
  ◌==◌, ◌||◌, ◌++◌, ℕ, suc,
}
use namespace_class.Base.Dict.{Dict, has, get, set}
use namespace_class.Errors.{Result, ok, err, Message, is_not_found}
use namespace_class.GroupVersionKind.{GroupVersionKind}
use namespace_class.Json.{Fields}
use namespace_class.Api.{
  Namespace, NamespaceClass, NamespaceClassBinding, RawExtension, ResourceRef,
}
use namespace_class.Policy.{Policy}
use namespace_class.Libraries.{Libraries}
use namespace_class.Inventory.{resource_ref_key}
use namespace_class.Render.{raw_to_unstructured, template_values, render_object_templates}
use namespace_class.Resources.Objects.{is_managed_by_namespace, can_manage, place}
use namespace_class.Resources.Prepare.{
  PreparedManagedResource, check_object, duplicate, finish, prefixed, conditioned_at,
  prepare_managed_resource, prepare_resource, prepare_loop, prepare_managed_resources,
}
use namespace_class.Resources.Stale.{
  object_from_resource_ref, after_delete, after_read, delete_one, stale_loop,
  delete_stale_managed_resources,
}
use namespace_class.Reconcile.Finalizer.{
  has_namespace_finalizer, with_finalizer, without_finalizer, ensure_namespace_finalizer,
  remove_namespace_finalizer,
}
use namespace_class.Reconcile.Binding.{new_binding, settle_binding, finalizer_for}
use namespace_class.Cluster.{
  Request, Program, Exec, call, bind, next, pure, fail, request_or, wrapped, get_binding,
  create_binding, update_binding, get_object, rest_mapping, delete_object, update_namespace,
}
use namespace_class.Cluster.Safety.{History, Safe, Safe-bind}

-- Every request of the program has the property.
abbrev pub Only : {A : Type 0} → (Request → Type 0) → History → Program A → Type 0
Only P h m = Safe (λ _ q. P q) (λ _ _. Unit {0}) h m

module _ (P : Request → Type 0) where
  pub Only-bind :
      {A B : Type 0} (h : History) (m : Program A) (f : A → Program B)
      → Only P h m
      → ((h' : History) (a : A) → Only P h' (f a))
      → Only P h (bind m f)
  Only-bind h m f s go =
      Safe-bind (λ _ q. P q) (λ _ _. Unit {0}) (λ _ _. Unit {0}) h m f s (λ h' a _ _. go h' a)

  pub Only-next :
      {A B : Type 0} (f : A → Exec B)
      → ((h : History) (a : A) → Only P h (f a))
      → (h : History) (r : Result A) → Only P h (next f r)
  Only-next f go h (ok a) = go h a
  Only-next f go h (err e) = tt

  -- A branch, which knows its test.
  pub Only-if :
      {A : Type 0} (h : History) (b : Bool) (m n : Program A)
      → (b ≡ true → Only P h m)
      → (b ≡ false → Only P h n)
      → Only P h (if b then m else n)
  Only-if h true m n s t = s refl
  Only-if h false m n s t = t refl
