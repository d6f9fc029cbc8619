-- ===== src/Reconcile/Finalizer.antt =====
-- `ensureNamespaceFinalizer`, `removeNamespaceFinalizer` and `hasNamespaceFinalizer` of
-- internal/controller/namespace_reconciler.go. A successful update replaces the namespace by the
-- one that the server returned.
use namespace_class.Base.{String, ◌==◌, Bool, List, [], ◌∷◌, ◌++◌, if◌then◌else◌}
use namespace_class.Base.Dict.{has}
use namespace_class.Errors.{plain}
use namespace_class.Api.{Namespace, namespace_finalizer}
use namespace_class.Cluster.{update_namespace, Exec, ◌>>◌, bind, pure, request_or}

unfoldable pub has_namespace_finalizer : Namespace → Bool
has_namespace_finalizer namespace = has namespace_finalizer namespace.finalizers

unfoldable pub with_finalizer : Namespace → Namespace
with_finalizer namespace = record namespace {
  finalizers = namespace.finalizers ++ namespace_finalizer ∷ [];
}

unfoldable pub ensure_namespace_finalizer : Namespace → Exec Namespace
unfolding has_namespace_finalizer with_finalizer
ensure_namespace_finalizer namespace =
    if has_namespace_finalizer namespace
    then pure namespace
    else request_or (update_namespace (with_finalizer namespace))
        (plain "add namespace finalizer" ∷ [])

-- The finalizers but for the controller's.
unfoldable pub other_finalizers : List String → List String
other_finalizers [] = []
other_finalizers (finalizer ∷ finalizers) =
    let rest = other_finalizers finalizers in
    if finalizer == namespace_finalizer then rest else finalizer ∷ rest

unfoldable pub without_finalizer : Namespace → Namespace
unfolding other_finalizers
without_finalizer namespace = record namespace {
  finalizers = other_finalizers namespace.finalizers;
}

unfoldable pub remove_namespace_finalizer : Namespace → Exec (Unit {0})
unfolding has_namespace_finalizer without_finalizer bind
remove_namespace_finalizer namespace =
    if has_namespace_finalizer namespace
    then (do
      request_or (update_namespace (without_finalizer namespace))
          (plain "remove namespace finalizer" ∷ [])
      pure tt)
    else pure tt
