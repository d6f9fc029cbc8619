-- ===== src/Copies/Faithful.antt =====
-- The copies of the types of api/v1alpha1/zz_generated.deepcopy.go hold what the originals hold.
use namespace_class.Base.{refl}
use namespace_class.Copies.Memory.{
  Library, ref_array, condition_array, raw_array, class_array, binding_array,
}
use namespace_class.Copies.Objects.{
  Copiers, plain_copy, copy_slice, copy_conditions, refs_in, conditions_in, raw_extensions_in,
  classes_in, bindings_in, copy_spec, copy_status, copy_class, copy_class_list, copy_binding_status,
  copy_binding, copy_binding_list,
}
use namespace_class.Copies.Meaning.{
  Denotation, Plain, Elements, Both, Framed, Copies, Meaning, IsLawful, Spec, Status, Class,
  ClassList, BindingStatus, Binding, BindingList,
}
use namespace_class.Copies.Slices.{
  Plain-Framed, Plain-Copies, Elements-Framed, Copied-then, Elements-Copies,
}

module _ (L : Library) where
  Both-Framed :
      {A B V W : Type 0} (D : Denotation L A V) (E : Denotation L B W)
      → Framed L D
      → Framed L E
      → Framed L (Both L D E)
  Both-Framed D E f g lo hi lo' hi' h h' x v low high same d = (
    f lo hi lo' hi' h h' x.0 v.0 low high same d.0,
    g lo hi lo' hi' h h' x.1 v.1 low high same d.1,
  )

  Conditions-Framed : Framed L (Elements L condition_array (Plain L))
  Conditions-Framed = Elements-Framed L (Plain L) (Plain-Framed L) condition_array

  Conditions-Copies : Copies L (Elements L condition_array (Plain L)) (copy_conditions L)
  Conditions-Copies =
      Elements-Copies L (Plain L) (Plain-Framed L) (plain_copy L) (Plain-Copies L) condition_array
        (conditions_in L) (λ l. refl)

  Refs-Framed : Framed L (Elements L ref_array (Plain L))
  Refs-Framed = Elements-Framed L (Plain L) (Plain-Framed L) ref_array

  Refs-Copies :
      Copies L (Elements L ref_array (Plain L)) (copy_slice L ref_array (refs_in L) (plain_copy L))
  Refs-Copies =
      Elements-Copies L (Plain L) (Plain-Framed L) (plain_copy L) (Plain-Copies L) ref_array
        (refs_in L) (λ l. refl)

  BindingStatus-Framed : Framed L (BindingStatus L)
  BindingStatus-Framed lo hi lo' hi' g h x v low high same d = (
    d.0,
    d.1,
    Refs-Framed lo hi lo' hi' g h x.inventory v.2 low high same d.2,
    Conditions-Framed lo hi lo' hi' g h x.conditions v.3 low high same d.3,
  )

  BindingStatus-Copies : Copies L (BindingStatus L) (copy_binding_status L)
  unfolding copy_binding_status
  BindingStatus-Copies m x v d =
      let p = copy_slice L ref_array (refs_in L) (plain_copy L) x.inventory m in
      let c =
        Copied-then L (Elements L ref_array (Plain L)) Refs-Framed
          (Elements L condition_array (Plain L)) m p x.conditions
          (copy_conditions L x.conditions p.1) v.2 v.3 Conditions-Framed
          (Refs-Copies m x.inventory v.2 d.2) d.3 (Conditions-Copies p.1 x.conditions v.3) in
      (c.0, (d.0, d.1, c.1.0, c.1.1))

  Status-Framed : Framed L (Status L)
  Status-Framed lo hi lo' hi' g h x v low high same d =
      (d.0, Conditions-Framed lo hi lo' hi' g h x.conditions v.1 low high same d.1)

  Status-Copies : Copies L (Status L) (copy_status L)
  unfolding copy_status
  Status-Copies m x v d = let c = Conditions-Copies m x.conditions v.1 d.1 in (c.0, (d.0, c.1))

  module _ (C : Copiers L) (M : Meaning L) (law : IsLawful L C M) where
    Spec-Framed : Framed L (Spec L M)
    Spec-Framed lo hi lo' hi' g h x v =
        Elements-Framed L M.raw_extension law.framed_raw_extension raw_array lo hi lo' hi' g h
          x.resources v

    Spec-Copies : Copies L (Spec L M) (copy_spec L C)
    unfolding copy_spec
    Spec-Copies m x v d =
        Elements-Copies L M.raw_extension law.framed_raw_extension C.raw_extension
          law.copies_raw_extension raw_array (raw_extensions_in L) (λ l. refl) m x.resources v d

    Class-Framed : Framed L (Class L M)
    Class-Framed lo hi lo' hi' g h x v low high same d = (
      d.0,
      law.framed_object_meta lo hi lo' hi' g h x.object_meta v.1 low high same d.1,
      Spec-Framed lo hi lo' hi' g h x.spec v.2 low high same d.2,
      Status-Framed lo hi lo' hi' g h x.status v.3 low high same d.3,
    )

    Class-Copies : Copies L (Class L M) (copy_class L C)
    unfolding copy_class
    Class-Copies m x v d =
        let p = C.object_meta x.object_meta m in
        let q = copy_spec L C x.spec p.1 in
        let r = copy_status L x.status q.1 in
        let c =
          Copied-then L M.object_meta law.framed_object_meta (Both L (Spec L M) (Status L)) m p
            (x.spec, x.status) ((q.0, r.0), r.1) v.1 (v.2, v.3)
            (Both-Framed (Spec L M) (Status L) Spec-Framed Status-Framed)
            (law.copies_object_meta m x.object_meta v.1 d.1) (d.2, d.3)
            (λ e.
              Copied-then L (Spec L M) Spec-Framed (Status L) p.1 q x.status r v.2 v.3 Status-Framed
                (Spec-Copies p.1 x.spec v.2 e.0) e.1 (Status-Copies q.1 x.status v.3)) in
        (c.0, (d.0, c.1.0, c.1.1.0, c.1.1.1))

    pub ClassList-Framed : Framed L (ClassList L M)
    ClassList-Framed lo hi lo' hi' g h x v low high same d = (
      d.0,
      law.framed_list_meta lo hi lo' hi' g h x.list_meta v.1 low high same d.1,
      Elements-Framed L (Class L M) Class-Framed class_array lo hi lo' hi' g h x.items v.2 low high
          same d.2,
    )

    pub ClassList-Copies : Copies L (ClassList L M) (copy_class_list L C)
    unfolding copy_class_list
    ClassList-Copies m x v d =
        let p = C.list_meta x.list_meta m in
        let q = copy_slice L class_array (classes_in L) (copy_class L C) x.items p.1 in
        let c =
          Copied-then L M.list_meta law.framed_list_meta (Elements L class_array (Class L M)) m p
            x.items q v.1 v.2 (Elements-Framed L (Class L M) Class-Framed class_array)
            (law.copies_list_meta m x.list_meta v.1 d.1) d.2
            (Elements-Copies L (Class L M) Class-Framed (copy_class L C) Class-Copies class_array
              (classes_in L) (λ l. refl) p.1 x.items v.2) in
        (c.0, (d.0, c.1.0, c.1.1))

    Binding-Framed : Framed L (Binding L M)
    Binding-Framed lo hi lo' hi' g h x v low high same d = (
      d.0,
      law.framed_object_meta lo hi lo' hi' g h x.object_meta v.1 low high same d.1,
      d.2,
      BindingStatus-Framed lo hi lo' hi' g h x.status v.3 low high same d.3,
    )

    Binding-Copies : Copies L (Binding L M) (copy_binding L C)
    unfolding copy_binding
    Binding-Copies m x v d =
        let p = C.object_meta x.object_meta m in
        let q = copy_binding_status L x.status p.1 in
        let c =
          Copied-then L M.object_meta law.framed_object_meta (BindingStatus L) m p x.status q v.1
            v.3 BindingStatus-Framed (law.copies_object_meta m x.object_meta v.1 d.1) d.3
            (BindingStatus-Copies p.1 x.status v.3) in
        (c.0, (d.0, c.1.0, d.2, c.1.1))

    pub BindingList-Framed : Framed L (BindingList L M)
    BindingList-Framed lo hi lo' hi' g h x v low high same d = (
      d.0,
      law.framed_list_meta lo hi lo' hi' g h x.list_meta v.1 low high same d.1,
      Elements-Framed L (Binding L M) Binding-Framed binding_array lo hi lo' hi' g h x.items v.2 low
          high same d.2,
    )

    pub BindingList-Copies : Copies L (BindingList L M) (copy_binding_list L C)
    unfolding copy_binding_list
    BindingList-Copies m x v d =
        let p = C.list_meta x.list_meta m in
        let q = copy_slice L binding_array (bindings_in L) (copy_binding L C) x.items p.1 in
        let c =
          Copied-then L M.list_meta law.framed_list_meta (Elements L binding_array (Binding L M)) m
            p x.items q v.1 v.2 (Elements-Framed L (Binding L M) Binding-Framed binding_array)
            (law.copies_list_meta m x.list_meta v.1 d.1) d.2
            (Elements-Copies L (Binding L M) Binding-Framed (copy_binding L C) Binding-Copies
              binding_array (bindings_in L) (λ l. refl) p.1 x.items v.2) in
        (c.0, (d.0, c.1.0, c.1.1))
