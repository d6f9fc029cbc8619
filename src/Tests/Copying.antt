-- ===== src/Tests/Copying.antt =====
-- Copies of a list of bindings and of a list of classes in a small memory.
use namespace_class.Base.{◌≡◌, refl, arith, ℕ, ◌≤◌, some, [], ltb, if◌then◌else◌}
use namespace_class.Copies.Memory.{NamespaceClassBindingList, ref_array, Heap, Memory}
use namespace_class.Copies.Objects.{copy_binding_list}
use namespace_class.Copies.Pointers.{deep_copy_object_class_list, deep_copy_object_binding_list}
use namespace_class.Copies.Meaning.{ClassList, BindingList}
use namespace_class.Copies.Separate.{
  CopiedObject, deep_copy_object_class_list-CopiedObject,
  deep_copy_object_binding_list-CopiedObject, deep_copy_object_binding_list-Separate,
}
use namespace_class.Tests.Arrays.{
  library, copiers, meaning, meaning-IsLawful, memory, list_of_bindings, bindings_value,
  bindings_held, list_of_classes, classes_value, classes_held,
}

deep_copy_object_class_list-CopiedObject_example :
    CopiedObject library
      (ClassList library meaning)
      memory
      classes_value
      (deep_copy_object_class_list library copiers (some list_of_classes) memory)
deep_copy_object_class_list-CopiedObject_example =
    deep_copy_object_class_list-CopiedObject library copiers meaning memory list_of_classes
      classes_value meaning-IsLawful classes_held

deep_copy_object_binding_list-CopiedObject_example :
    CopiedObject library
      (BindingList library meaning)
      memory
      bindings_value
      (deep_copy_object_binding_list library copiers (some list_of_bindings) memory)
deep_copy_object_binding_list-CopiedObject_example =
    deep_copy_object_binding_list-CopiedObject library copiers meaning memory list_of_bindings
      bindings_value meaning-IsLawful bindings_held

-- The list of bindings after the copy, with its memory.
abbrev copy_of_bindings : NamespaceClassBindingList library
copy_of_bindings = record list_of_bindings { items = some 5 }

abbrev memory_after : Memory library
memory_after = (copy_binding_list library copiers list_of_bindings memory).1

-- All old arrays are overwritten.
abbrev overwritten : Heap library
overwritten a = if ltb a 5 then some (ref_array []) else memory_after.at a

made :
    deep_copy_object_binding_list library copiers (some list_of_bindings) memory
    ≡ (some copy_of_bindings, memory_after)
unfolding deep_copy_object_binding_list copy_binding_list
made = refl

otherwise : {A : Type 0} (a b : ℕ) (x y : A) → b ≤ a → (if ltb a b then x else y) ≡ y
otherwise a b x y above = ground arith

overwritten-above : (a : ℕ) → 5 ≤ a → overwritten a ≡ memory_after.at a
overwritten-above a above = otherwise a 5 (some (ref_array [])) (memory_after.at a) above

deep_copy_object_binding_list-Separate_example :
    BindingList library meaning 5 memory_after.free overwritten copy_of_bindings bindings_value
    × BindingList library meaning 0 5 memory_after.at list_of_bindings bindings_value
deep_copy_object_binding_list-Separate_example =
    deep_copy_object_binding_list-Separate library copiers meaning memory memory_after
      list_of_bindings copy_of_bindings bindings_value overwritten memory_after.at meaning-IsLawful
      bindings_held made overwritten-above (λ a below. refl)
