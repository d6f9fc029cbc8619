-- ===== src/Tests/Arrays.antt =====
-- A small memory with a list of bindings and a list of classes, and a library for it.
use namespace_class.Base.{refl, arith, zero, suc, String, Option, none, some, List, [], ◌∷◌}
use namespace_class.Api.{ResourceRef}
use namespace_class.Copies.Memory.{
  Slice, Library, NamespaceClassBindingSpec, NamespaceClassList, NamespaceClassBindingList, Array,
  ref_array, raw_array, class_array, binding_array, block_array, Heap, Memory,
}
use namespace_class.Copies.Objects.{Copier, Copiers, plain_copy, copy_slice}
use namespace_class.Copies.Meaning.{
  Plain, Elements, Meaning, IsLawful, ClassListValue, ClassList, BindingListValue, BindingList,
}
use namespace_class.Copies.Slices.{Plain-Framed, Plain-Copies, Elements-Framed, Elements-Copies}

-- Metadata is a slice of finalizers, and a raw extension is a slice of texts.
abbrev pub library : Library
library = record {
  ObjectMeta = Slice;
  ListMeta = String;
  RawExtension = Slice;
  Block = List String;
}

abbrev pub texts_in : Option (Array library) → List String
texts_in (some (block_array l)) = l
texts_in _ = []

abbrev pub copy_texts : Copier library Slice
copy_texts = copy_slice library block_array texts_in (plain_copy library)

abbrev pub copiers : Copiers library
copiers = record {
  object_meta = copy_texts;
  list_meta = plain_copy library;
  raw_extension = copy_texts;
}

abbrev pub meaning : Meaning library
meaning = record {
  MetaValue = Option (List String);
  ListValue = String;
  RawValue = Option (List String);
  object_meta = Elements library block_array (Plain library);
  list_meta = Plain library;
  raw_extension = Elements library block_array (Plain library);
}

pub meaning-IsLawful : IsLawful library copiers meaning
meaning-IsLawful = record {
  framed_object_meta = Elements-Framed library (Plain library) (Plain-Framed library) block_array;
  framed_list_meta = Plain-Framed library;
  framed_raw_extension = Elements-Framed library (Plain library) (Plain-Framed library) block_array;
  copies_object_meta =
      Elements-Copies library (Plain library) (Plain-Framed library) (plain_copy library)
        (Plain-Copies library) block_array texts_in (λ l. refl);
  copies_list_meta = Plain-Copies library;
  copies_raw_extension =
      Elements-Copies library (Plain library) (Plain-Framed library) (plain_copy library)
        (Plain-Copies library) block_array texts_in (λ l. refl);
}

abbrev pub role : ResourceRef
role = record {
  api_version = "rbac.authorization.k8s.io/v1";
  kind = "ClusterRole";
  namespace = "";
  name = "viewer";
}

abbrev pub for_web : NamespaceClassBindingSpec
for_web = record { namespace_name = "web"; class_name = "public" }

-- Array 0 has the finalizers, 1 the inventory, 2 the bindings, 3 the resources and 4 the classes.
abbrev pub arrays : Heap library
arrays zero = some (block_array ("guard" ∷ []))
arrays (suc zero) = some (ref_array (role ∷ []))
arrays (suc (suc zero)) = some (
    binding_array (
      record {
        type_meta = record { kind = ""; api_version = "" };
        object_meta = some 0;
        spec = for_web;
        status = record {
          observed_namespace_uid = "7f1";
          observed_class_generation = 2;
          inventory = some 1;
          conditions = none;
        };
      }
      ∷ []))
arrays (suc (suc (suc zero))) = some (raw_array (some 0 ∷ []))
arrays (suc (suc (suc (suc zero)))) = some (
    class_array (
      record {
        type_meta = record { kind = ""; api_version = "" };
        object_meta = none;
        spec = record { resources = some 3 };
        status = record { observed_generation = 0; conditions = none };
      }
      ∷ []))
arrays _ = none

abbrev pub memory : Memory library
memory = record { at = arrays; free = 5 }

abbrev pub list_of_bindings : NamespaceClassBindingList library
list_of_bindings = record {
  type_meta = record { kind = "NamespaceClassBindingList"; api_version = "" };
  list_meta = "12";
  items = some 2;
}

abbrev pub bindings_value : BindingListValue library meaning
bindings_value = (
  record { kind = "NamespaceClassBindingList"; api_version = "" },
  "12",
  some (
      (
        record { kind = ""; api_version = "" },
        some ("guard" ∷ []),
        for_web,
        ("7f1", 2, some (role ∷ []), none),
      )
      ∷ []),
)

pub bindings_held : BindingList library meaning 0 5 arrays list_of_bindings bindings_value
bindings_held = (
  refl,
  refl,
  (
    omega arith,
    omega arith,
    _,
    refl,
    (
      (
        refl,
        (omega arith, omega arith, "guard" ∷ [], refl, (refl, tt)),
        refl,
        (refl, refl, (omega arith, omega arith, role ∷ [], refl, (refl, tt)), tt),
      ),
      tt,
    ),
  ),
)

abbrev pub list_of_classes : NamespaceClassList library
list_of_classes = record {
  type_meta = record { kind = "NamespaceClassList"; api_version = "" };
  list_meta = "13";
  items = some 4;
}

abbrev pub classes_value : ClassListValue library meaning
classes_value = (
  record { kind = "NamespaceClassList"; api_version = "" },
  "13",
  some (
      (record { kind = ""; api_version = "" }, none, some (some ("guard" ∷ []) ∷ []), (0, none))
      ∷ []),
)

pub classes_held : ClassList library meaning 0 5 arrays list_of_classes classes_value
classes_held = (
  refl,
  refl,
  (
    omega arith,
    omega arith,
    _,
    refl,
    (
      (
        refl,
        tt,
        (
          omega arith,
          omega arith,
          some 0 ∷ [],
          refl,
          ((omega arith, omega arith, "guard" ∷ [], refl, (refl, tt)), tt),
        ),
        (refl, tt),
      ),
      tt,
    ),
  ),
)
