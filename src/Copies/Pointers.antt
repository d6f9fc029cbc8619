-- ===== src/Copies/Pointers.antt =====
-- DeepCopy and DeepCopyObject of the types of api/v1alpha1/zz_generated.deepcopy.go.
use namespace_class.Base.{Option, none, some}
use namespace_class.Api.{ResourceRef}
use namespace_class.Copies.Memory.{
  Library, NamespaceClassSpec, NamespaceClassStatus, NamespaceClassBindingSpec,
  NamespaceClassBindingStatus, NamespaceClass, NamespaceClassList, NamespaceClassBinding,
  NamespaceClassBindingList,
}
use namespace_class.Copies.Objects.{
  Copier, Copiers, copy_spec, copy_status, copy_class, copy_class_list, copy_binding_spec, copy_ref,
  copy_binding_status, copy_binding, copy_binding_list,
}

module _ (L : Library) where
  -- Nil for nil, and otherwise `new`, then DeepCopyInto.
  abbrev pub unless_nil : {A : Type 0} → Copier L A → Copier L (Option A)
  unless_nil copy none m = (none, m)
  unless_nil copy (some x) m = let (y, m') = copy x m in (some y, m')

  -- The interface value of a pointer, which is nil where the pointer is.
  abbrev pub as_object : {A : Type 0} → Option A → Option A
  as_object none = none
  as_object (some x) = some x

  unfoldable pub deep_copy_status : Copier L (Option NamespaceClassStatus)
  unfolding copy_status
  deep_copy_status = unless_nil (copy_status L)

  unfoldable pub deep_copy_binding_spec : Copier L (Option NamespaceClassBindingSpec)
  unfolding copy_binding_spec
  deep_copy_binding_spec = unless_nil (copy_binding_spec L)

  unfoldable pub deep_copy_ref : Copier L (Option ResourceRef)
  unfolding copy_ref
  deep_copy_ref = unless_nil (copy_ref L)

  unfoldable pub deep_copy_binding_status : Copier L (Option NamespaceClassBindingStatus)
  unfolding copy_binding_status
  deep_copy_binding_status = unless_nil (copy_binding_status L)

  module _ (C : Copiers L) where
    unfoldable pub deep_copy_spec : Copier L (Option NamespaceClassSpec)
    unfolding copy_spec
    deep_copy_spec = unless_nil (copy_spec L C)

    unfoldable pub deep_copy_class : Copier L (Option (NamespaceClass L))
    unfolding copy_class
    deep_copy_class = unless_nil (copy_class L C)

    unfoldable pub deep_copy_object_class : Copier L (Option (NamespaceClass L))
    unfolding deep_copy_class
    deep_copy_object_class x m = let (c, m') = deep_copy_class x m in (as_object c, m')

    unfoldable pub deep_copy_class_list : Copier L (Option (NamespaceClassList L))
    unfolding copy_class_list
    deep_copy_class_list = unless_nil (copy_class_list L C)

    unfoldable pub deep_copy_object_class_list : Copier L (Option (NamespaceClassList L))
    unfolding deep_copy_class_list
    deep_copy_object_class_list x m = let (c, m') = deep_copy_class_list x m in (as_object c, m')

    unfoldable pub deep_copy_binding : Copier L (Option (NamespaceClassBinding L))
    unfolding copy_binding
    deep_copy_binding = unless_nil (copy_binding L C)

    unfoldable pub deep_copy_object_binding : Copier L (Option (NamespaceClassBinding L))
    unfolding deep_copy_binding
    deep_copy_object_binding x m = let (c, m') = deep_copy_binding x m in (as_object c, m')

    unfoldable pub deep_copy_binding_list : Copier L (Option (NamespaceClassBindingList L))
    unfolding copy_binding_list
    deep_copy_binding_list = unless_nil (copy_binding_list L C)

    unfoldable pub deep_copy_object_binding_list : Copier L (Option (NamespaceClassBindingList L))
    unfolding deep_copy_binding_list
    deep_copy_object_binding_list x m =
        let (c, m') = deep_copy_binding_list x m in (as_object c, m')
