-- ===== src/Copies/Objects.antt =====
-- DeepCopyInto of the types of api/v1alpha1/zz_generated.deepcopy.go. A function that writes through `out` returns what it has written. `new` and `make` cannot fail.
use namespace_class.Base.{ℕ, suc, Option, none, some, List, [], ◌∷◌, nat_eq, if◌then◌else◌}
use namespace_class.Api.{ResourceRef, Condition}
use namespace_class.Copies.Memory.{
  Slice, Library, NamespaceClassSpec, NamespaceClassStatus, NamespaceClassBindingSpec,
  NamespaceClassBindingStatus, NamespaceClass, NamespaceClassList, NamespaceClassBinding,
  NamespaceClassBindingList, Array, ref_array, condition_array, raw_array, class_array,
  binding_array, Memory,
}

module _ (L : Library) where
  abbrev pub Copier : Type 0 → Type 0
  Copier A = A → Memory L → A × Memory L

  -- `make`, before its elements are written.
  abbrev pub make : Memory L → ℕ × Memory L
  make m = (m.free, record m { free = suc m.free })

  abbrev pub write : ℕ → Array L → Memory L → Memory L
  write a array m = record m { at = λ b. if nat_eq b a then some array else m.at b }

  -- Plain values, as `copy` and `=` copy them.
  abbrev pub plain_copy : {A : Type 0} → Copier A
  plain_copy x m = (x, m)

  -- `for i := range in { in[i].DeepCopyInto(&out[i]) }`, with what is written.
  unfoldable pub copy_each : {A : Type 0} → Copier A → Copier (List A)
  copy_each copy [] m = ([], m)
  copy_each copy (x ∷ l) m =
      let (y, m') = copy x m in let (k, m'') = copy_each copy l m' in (y ∷ k, m'')

  -- A slice of arrays that `pack` makes and `unpack` reads: nil stays nil, and otherwise there is a
  -- new array.
  unfoldable pub copy_slice :
      {A : Type 0} → (List A → Array L) → (Option (Array L) → List A) → Copier A → Copier Slice
  unfolding copy_each
  copy_slice pack unpack copy none m = (none, m)
  copy_slice pack unpack copy (some a) m =
      let (b, m') = make m in
      let (l, m'') = copy_each copy (unpack (m.at a)) m' in (some b, write b (pack l) m'')

  abbrev pub refs_in : Option (Array L) → List ResourceRef
  refs_in (some (ref_array l)) = l
  refs_in _ = []

  abbrev pub conditions_in : Option (Array L) → List Condition
  conditions_in (some (condition_array l)) = l
  conditions_in _ = []

  abbrev pub raw_extensions_in : Option (Array L) → List L.RawExtension
  raw_extensions_in (some (raw_array l)) = l
  raw_extensions_in _ = []

  abbrev pub classes_in : Option (Array L) → List (NamespaceClass L)
  classes_in (some (class_array l)) = l
  classes_in _ = []

  abbrev pub bindings_in : Option (Array L) → List (NamespaceClassBinding L)
  bindings_in (some (binding_array l)) = l
  bindings_in _ = []

  abbrev pub copy_conditions : Copier Slice
  copy_conditions = copy_slice condition_array conditions_in plain_copy

  -- The library's DeepCopyInto functions.
  pub record Copiers : Type 0 where
    pub object_meta : Copier L.ObjectMeta
    pub list_meta : Copier L.ListMeta
    pub raw_extension : Copier L.RawExtension

  unfoldable pub copy_status : Copier NamespaceClassStatus
  unfolding copy_slice
  copy_status x m =
      let (conditions, m') = copy_conditions x.conditions m in
      (record x { conditions = conditions }, m')

  unfoldable pub copy_binding_spec : Copier NamespaceClassBindingSpec
  copy_binding_spec x m = (x, m)

  unfoldable pub copy_ref : Copier ResourceRef
  copy_ref x m = (x, m)

  unfoldable pub copy_binding_status : Copier NamespaceClassBindingStatus
  unfolding copy_slice
  copy_binding_status x m =
      let (inventory, m1) = copy_slice ref_array refs_in plain_copy x.inventory m in
      let (conditions, m2) = copy_conditions x.conditions m1 in
      (record x { inventory = inventory; conditions = conditions }, m2)

  module _ (C : Copiers) where
    unfoldable pub copy_spec : Copier NamespaceClassSpec
    unfolding copy_slice
    copy_spec x m =
        let (resources, m') =
          copy_slice raw_array raw_extensions_in C.raw_extension x.resources m in
        (record x { resources = resources }, m')

    unfoldable pub copy_class : Copier (NamespaceClass L)
    unfolding copy_spec copy_status
    copy_class x m =
        let (object_meta, m1) = C.object_meta x.object_meta m in
        let (spec, m2) = copy_spec x.spec m1 in
        let (status, m3) = copy_status x.status m2 in
        (
          record {
            type_meta = x.type_meta;
            object_meta = object_meta;
            spec = spec;
            status = status;
          },
          m3,
        )

    unfoldable pub copy_class_list : Copier (NamespaceClassList L)
    unfolding copy_class copy_slice
    copy_class_list x m =
        let (list_meta, m1) = C.list_meta x.list_meta m in
        let (items, m2) = copy_slice class_array classes_in copy_class x.items m1 in
        (record { type_meta = x.type_meta; list_meta = list_meta; items = items }, m2)

    unfoldable pub copy_binding : Copier (NamespaceClassBinding L)
    unfolding copy_binding_status
    copy_binding x m =
        let (object_meta, m1) = C.object_meta x.object_meta m in
        let (status, m2) = copy_binding_status x.status m1 in
        (
          record {
            type_meta = x.type_meta;
            object_meta = object_meta;
            spec = x.spec;
            status = status;
          },
          m2,
        )

    unfoldable pub copy_binding_list : Copier (NamespaceClassBindingList L)
    unfolding copy_binding copy_slice
    copy_binding_list x m =
        let (list_meta, m1) = C.list_meta x.list_meta m in
        let (items, m2) = copy_slice binding_array bindings_in copy_binding x.items m1 in
        (record { type_meta = x.type_meta; list_meta = list_meta; items = items }, m2)
