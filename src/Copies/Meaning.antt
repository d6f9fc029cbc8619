-- ===== src/Copies/Meaning.antt =====
-- What the structs of api/v1alpha1/zz_generated.deepcopy.go hold in a memory, through their slices.
use namespace_class.Base.{◌≡◌, ℕ, ◌≤◌, ◌<◌, String, Option, none, some, List, [], ◌∷◌}
use namespace_class.Api.{ResourceRef, Condition}
use namespace_class.Copies.Memory.{
  Slice, TypeMeta, Library, NamespaceClassSpec, NamespaceClassStatus, NamespaceClassBindingSpec,
  NamespaceClassBindingStatus, NamespaceClass, NamespaceClassList, NamespaceClassBinding,
  NamespaceClassBindingList, Array, ref_array, condition_array, raw_array, class_array,
  binding_array, Heap, Memory,
}
use namespace_class.Copies.Objects.{Copier, Copiers}

module _ (L : Library) where
  -- When a struct holds a value, where it reaches only addresses from the first number on and below
  -- the second.
  abbrev pub Denotation : Type 0 → Type 0 → Type 1
  Denotation A V = ℕ → ℕ → Heap L → A → V → Type 0

  abbrev pub Plain : {A : Type 0} → Denotation A A
  Plain lo hi h x v = x ≡ v

  abbrev pub Each : {A V : Type 0} → Denotation A V → Denotation (List A) (List V)
  Each D lo hi h [] [] = Unit {0}
  Each D lo hi h (x ∷ l) (v ∷ vs) = D lo hi h x v × Each D lo hi h l vs
  Each D lo hi h _ _ = ⊥

  -- Nil, or an array whose elements hold the values.
  abbrev pub Elements :
      {A V : Type 0} → (List A → Array L) → Denotation A V → Denotation Slice (Option (List V))
  Elements pack D lo hi h none none = Unit {0}
  Elements {A} pack D lo hi h (some a) (some vs) =
      (lo ≤ a) × (a < hi) × (l : List A) × (h a ≡ some (pack l)) × Each D lo hi h l vs
  Elements pack D lo hi h _ _ = ⊥

  abbrev pub Both :
      {A B V W : Type 0} → Denotation A V → Denotation B W → Denotation (A × B) (V × W)
  Both D E lo hi h p v = D lo hi h p.0 v.0 × E lo hi h p.1 v.1

  -- The value depends only on the addresses in the range, which may be widened.
  abbrev pub Framed : {A V : Type 0} → Denotation A V → Type 0
  Framed {A} {V} D =
      (lo hi lo' hi' : ℕ) (g h : Heap L) (x : A) (v : V)
      → lo' ≤ lo
      → hi ≤ hi'
      → ((a : ℕ) → lo ≤ a → a < hi → g a ≡ h a)
      → D lo hi g x v
      → D lo' hi' h x v

  -- The first memory is as it was.
  abbrev pub Grown : Memory L → Memory L → Type 0
  Grown m m' = (m.free ≤ m'.free) × ((a : ℕ) → a < m.free → m.at a ≡ m'.at a)

  -- A copy of what holds a value holds it in new arrays, and nothing else changes.
  abbrev pub Copied : {A V : Type 0} → Denotation A V → Memory L → V → A × Memory L → Type 0
  Copied D m v (y, m') = Grown m m' × D m.free m'.free m'.at y v

  abbrev pub Copies : {A V : Type 0} → Denotation A V → Copier L A → Type 0
  Copies {A} {V} D copy =
      (m : Memory L) (x : A) (v : V) → D 0 m.free m.at x v → Copied D m v (copy x m)

  -- What the library's structs hold.
  pub record Meaning : Type 1 where
    pub MetaValue : Type 0
    pub ListValue : Type 0
    pub RawValue : Type 0
    pub object_meta : Denotation L.ObjectMeta MetaValue
    pub list_meta : Denotation L.ListMeta ListValue
    pub raw_extension : Denotation L.RawExtension RawValue

  -- What the library's DeepCopyInto functions do.
  pub record IsLawful (C : Copiers L) (M : Meaning) : Type 0 where
    pub framed_object_meta : Framed M.object_meta
    pub framed_list_meta : Framed M.list_meta
    pub framed_raw_extension : Framed M.raw_extension
    pub copies_object_meta : Copies M.object_meta C.object_meta
    pub copies_list_meta : Copies M.list_meta C.list_meta
    pub copies_raw_extension : Copies M.raw_extension C.raw_extension

  abbrev pub StatusValue : Type 0
  StatusValue = ℕ × Option (List Condition)

  abbrev pub Status : Denotation NamespaceClassStatus StatusValue
  Status lo hi h x v =
      (x.observed_generation ≡ v.0) × Elements condition_array Plain lo hi h x.conditions v.1

  abbrev pub BindingStatusValue : Type 0
  BindingStatusValue = String × ℕ × Option (List ResourceRef) × Option (List Condition)

  abbrev pub BindingStatus : Denotation NamespaceClassBindingStatus BindingStatusValue
  BindingStatus lo hi h x v =
      (x.observed_namespace_uid ≡ v.0)
      × (x.observed_class_generation ≡ v.1)
      × Elements ref_array Plain lo hi h x.inventory v.2
      × Elements condition_array Plain lo hi h x.conditions v.3

  module _ (M : Meaning) where
    abbrev pub SpecValue : Type 0
    SpecValue = Option (List M.RawValue)

    abbrev pub Spec : Denotation NamespaceClassSpec SpecValue
    Spec lo hi h x v = Elements raw_array M.raw_extension lo hi h x.resources v

    abbrev pub ClassValue : Type 0
    ClassValue = TypeMeta × M.MetaValue × SpecValue × StatusValue

    abbrev pub Class : Denotation (NamespaceClass L) ClassValue
    Class lo hi h x v =
        (x.type_meta ≡ v.0)
        × M.object_meta lo hi h x.object_meta v.1
        × Spec lo hi h x.spec v.2
        × Status lo hi h x.status v.3

    abbrev pub ClassListValue : Type 0
    ClassListValue = TypeMeta × M.ListValue × Option (List ClassValue)

    abbrev pub ClassList : Denotation (NamespaceClassList L) ClassListValue
    ClassList lo hi h x v =
        (x.type_meta ≡ v.0)
        × M.list_meta lo hi h x.list_meta v.1
        × Elements class_array Class lo hi h x.items v.2

    abbrev pub BindingValue : Type 0
    BindingValue = TypeMeta × M.MetaValue × NamespaceClassBindingSpec × BindingStatusValue

    abbrev pub Binding : Denotation (NamespaceClassBinding L) BindingValue
    Binding lo hi h x v =
        (x.type_meta ≡ v.0)
        × M.object_meta lo hi h x.object_meta v.1
        × (x.spec ≡ v.2)
        × BindingStatus lo hi h x.status v.3

    abbrev pub BindingListValue : Type 0
    BindingListValue = TypeMeta × M.ListValue × Option (List BindingValue)

    abbrev pub BindingList : Denotation (NamespaceClassBindingList L) BindingListValue
    BindingList lo hi h x v =
        (x.type_meta ≡ v.0)
        × M.list_meta lo hi h x.list_meta v.1
        × Elements binding_array Binding lo hi h x.items v.2
