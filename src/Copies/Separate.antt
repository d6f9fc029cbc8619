-- ===== src/Copies/Separate.antt =====
-- The results of DeepCopyObject in api/v1alpha1/zz_generated.deepcopy.go, apart from the originals.
use namespace_class.Base.{◌≡◌, sym, ◌∙◌, arith, ℕ, ◌≤◌, ◌<◌, Option, none, some}
use namespace_class.Copies.Memory.{
  Library, NamespaceClassList, NamespaceClassBindingList, Heap, Memory,
}
use namespace_class.Copies.Objects.{Copier, Copiers, copy_class_list, copy_binding_list}
use namespace_class.Copies.Pointers.{
  as_object, deep_copy_object_class_list, deep_copy_object_binding_list,
}
use namespace_class.Copies.Meaning.{
  Denotation, Framed, Grown, Copied, Meaning, IsLawful, ClassListValue, ClassList, BindingListValue,
  BindingList,
}
use namespace_class.Copies.Faithful.{ClassList-Copies, BindingList-Framed, BindingList-Copies}

module _ (L : Library) where
  -- There is a copy, it holds the value in new arrays only, and the old arrays are as they were.
  abbrev pub CopiedObject :
      {A V : Type 0} → Denotation L A V → Memory L → V → Option A × Memory L → Type 0
  CopiedObject D m v (some y, m') = Grown L m m' × D m.free m'.free m'.at y v
  CopiedObject D m v (none, m') = ⊥

  as_object-Copied :
      {A V : Type 0} (D : Denotation L A V) (copy : Copier L A) (m : Memory L) (x : A) (v : V)
      → Copied L D m v (copy x m)
      → CopiedObject D m v (as_object L (some (copy x m).0), (copy x m).1)
  as_object-Copied D copy m x v d = d

  Separate_lem :
      {A V : Type 0} (D : Denotation L A V) (m m' : Memory L) (x y : A) (v : V) (h k : Heap L)
      → Framed L D
      → D 0 m.free m.at x v
      → CopiedObject D m v (some y, m')
      → ((a : ℕ) → m.free ≤ a → h a ≡ m'.at a)
      → ((a : ℕ) → a < m.free → k a ≡ m'.at a)
      → D m.free m'.free h y v × D 0 m.free k x v
  Separate_lem D m m' x y v h k framed d c new old = (
    framed m.free m'.free m.free m'.free m'.at h y v (omega arith) (omega arith)
        (λ a above _. sym (new a above)) c.1,
    framed 0 m.free 0 m.free m.at k x v (omega arith) (omega arith)
        (λ a _ below. c.0.1 a below ∙ sym (old a below)) d,
  )

-- For lawful copies of the library's structs: DeepCopyObject of a list of classes that holds a value
-- in a memory returns a list that holds the same value, nil slices included, only in arrays that were
-- free before, however deep, and every array of the memory is as it was.
pub deep_copy_object_class_list-CopiedObject :
    (L : Library) (C : Copiers L) (M : Meaning L) (m : Memory L) (x : NamespaceClassList L)
    (v : ClassListValue L M)
    → IsLawful L C M
    → ClassList L M 0 m.free m.at x v
    → CopiedObject L (ClassList L M) m v (deep_copy_object_class_list L C (some x) m)
unfolding deep_copy_object_class_list
deep_copy_object_class_list-CopiedObject L C M m x v law d =
    as_object-Copied L (ClassList L M) (copy_class_list L C) m x v
      (ClassList-Copies L C M law m x v d)

-- For lawful copies of the library's structs: DeepCopyObject of a list of bindings that holds a value
-- in a memory returns a list that holds the same value, nil slices included, only in arrays that were
-- free before, however deep, and every array of the memory is as it was.
pub deep_copy_object_binding_list-CopiedObject :
    (L : Library) (C : Copiers L) (M : Meaning L) (m : Memory L) (x : NamespaceClassBindingList L)
    (v : BindingListValue L M)
    → IsLawful L C M
    → BindingList L M 0 m.free m.at x v
    → CopiedObject L (BindingList L M) m v (deep_copy_object_binding_list L C (some x) m)
unfolding deep_copy_object_binding_list
deep_copy_object_binding_list-CopiedObject L C M m x v law d =
    as_object-Copied L (BindingList L M) (copy_binding_list L C) m x v
      (BindingList-Copies L C M law m x v d)

-- A list of bindings that holds a value in a memory, and its copy by DeepCopyObject, are independent,
-- for lawful copies of the library's structs: in a heap that has the new arrays of the copy, whatever
-- has been written to the old ones, the copy holds the value, and in a heap that has the old arrays,
-- whatever has been written to the new ones, the original does.
pub deep_copy_object_binding_list-Separate :
    (L : Library) (C : Copiers L) (M : Meaning L) (m m' : Memory L)
    (x y : NamespaceClassBindingList L) (v : BindingListValue L M) (h k : Heap L)
    → IsLawful L C M
    → BindingList L M 0 m.free m.at x v
    → deep_copy_object_binding_list L C (some x) m ≡ (some y, m')
    → ((a : ℕ) → m.free ≤ a → h a ≡ m'.at a)
    → ((a : ℕ) → a < m.free → k a ≡ m'.at a)
    → BindingList L M m.free m'.free h y v × BindingList L M 0 m.free k x v
deep_copy_object_binding_list-Separate L C M m m' x y v h k law d made =
    Separate_lem L (BindingList L M) m m' x y v h k (BindingList-Framed L C M law) d
      (rw made at (deep_copy_object_binding_list-CopiedObject L C M m x v law d))
