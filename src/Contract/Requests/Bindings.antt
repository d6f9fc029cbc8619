-- ===== src/Contract/Requests/Bindings.antt =====
-- The requests for finalizers and bindings in internal/controller/namespace_reconciler.go.
use namespace_class.Base.{String, Option, none, some, not, ◌==◌, ◌||◌}
use namespace_class.Errors.{Result, ok, err, Message, is_not_found}
use namespace_class.Api.{Namespace, NamespaceClass, NamespaceClassBinding}
use namespace_class.Policy.{Policy}
use namespace_class.Libraries.{Libraries}
use namespace_class.Reconcile.Finalizer.{
  has_namespace_finalizer, with_finalizer, without_finalizer, ensure_namespace_finalizer,
  remove_namespace_finalizer,
}
use namespace_class.Reconcile.Binding.{new_binding, settle_binding, finalizer_for}
use namespace_class.Cluster.{
  Request, call, bind, next, request_or, wrapped, get_binding, create_binding, update_binding,
  update_namespace,
}
use namespace_class.Cluster.Safety.{History}
use namespace_class.Contract.Requests.{Only, Only-if}

module _ (P : Request → Type 0) where
  module _ (updates : (namespace : Namespace) → P (update_namespace namespace)) where
    pub remove_finalizer-Only :
        (namespace : Namespace) (h : History) → Only P h (remove_namespace_finalizer namespace)
    unfolding remove_namespace_finalizer
    remove_finalizer-Only namespace h =
        Only-if P h (has_namespace_finalizer namespace) _ _
          (λ _. (updates (without_finalizer namespace), elim [ ok stored ↦ tt | err e ↦ tt ]))
          (λ _. tt)

    pub finalizer_for-Only :
        (lib : Libraries) (policy : Policy) (namespace : Namespace) (class : Option NamespaceClass)
        (h : History)
        → Only P h (finalizer_for lib policy namespace class)
    unfolding finalizer_for ensure_namespace_finalizer
    finalizer_for-Only lib policy namespace none h = tt
    finalizer_for-Only lib policy namespace (some class) h =
        Only-if P h (has_namespace_finalizer namespace) _ _ (λ _. tt)
          (λ _. (updates (with_finalizer namespace), elim [ ok stored ↦ tt | err e ↦ tt ]))

  module _ (gets : (name : String) → P (get_binding name))
      (creates : (binding : NamespaceClassBinding) → P (create_binding binding))
      (updates : (binding : NamespaceClassBinding) → P (update_binding binding)) where
    reread-Only :
        (name : String) (m : Message) (h : History) → Only P h (request_or (get_binding name) m)
    reread-Only name m h = (gets name, elim [ ok binding ↦ tt | err e ↦ tt ])

    after_write-Only :
        (name : String) (m m' : Message) (h : History) (r : Result (Unit {0}))
        → Only P h (bind (wrapped m r) (next (λ _. request_or (get_binding name) m')))
    unfolding bind
    after_write-Only name m m' h (ok done) = reread-Only name m' h
    after_write-Only name m m' h (err e) = tt

    settle_binding-Only :
        (namespace : Namespace) (class_name : String) (h : History)
        (r : Result NamespaceClassBinding)
        → Only P h (settle_binding namespace class_name r)
    unfolding settle_binding
    settle_binding-Only namespace class_name h (err e) =
        Only-if P h (is_not_found e) _ _
          (λ _. (creates (new_binding namespace class_name), λ r. after_write-Only _ _ _ _ r))
          (λ _. tt)
    settle_binding-Only namespace class_name h (ok binding) =
        Only-if P h
          (not (binding.namespace_name == namespace.name) || not (binding.class_name == class_name))
          _ _ (λ _. (updates _, λ r. after_write-Only _ _ _ _ r)) (λ _. tt)

    -- The binding is read, and created or updated if need be.
    pub settle-Only :
        (namespace : Namespace) (class_name : String) (h : History)
        → Only P h (call (get_binding namespace.name) (settle_binding namespace class_name))
    settle-Only namespace class_name h =
        (gets namespace.name, λ r. settle_binding-Only namespace class_name _ r)
