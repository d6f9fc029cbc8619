-- ===== src/Copies/Memory.antt =====
-- The memory in which api/v1alpha1/zz_generated.deepcopy.go copies: the arrays that slices point to,
-- by address. A struct is a value, and a pointer to a struct is the struct, or `none` for nil.
use namespace_class.Base.{ℕ, String, Option, List}
use namespace_class.Api.{ResourceRef, Condition}

-- Nil, or the address of the array.
abbrev pub Slice : Type 0
Slice = Option ℕ

-- metav1.TypeMeta
pub record TypeMeta : Type 0 where
  pub kind : String
  pub api_version : String

-- The structs of apimachinery with pointers of their own, and their arrays and maps.
pub record Library : Type 1 where
  pub ObjectMeta : Type 0
  pub ListMeta : Type 0
  pub RawExtension : Type 0
  pub Block : Type 0

pub record NamespaceClassSpec : Type 0 where
  pub resources : Slice

pub record NamespaceClassStatus : Type 0 where
  pub observed_generation : ℕ
  pub conditions : Slice

pub record NamespaceClassBindingSpec : Type 0 where
  pub namespace_name : String
  pub class_name : String

pub record NamespaceClassBindingStatus : Type 0 where
  pub observed_namespace_uid : String
  pub observed_class_generation : ℕ
  pub inventory : Slice
  pub conditions : Slice

module _ (L : Library) where
  pub record NamespaceClass : Type 0 where
    pub type_meta : TypeMeta
    pub object_meta : L.ObjectMeta
    pub spec : NamespaceClassSpec
    pub status : NamespaceClassStatus

  pub record NamespaceClassList : Type 0 where
    pub type_meta : TypeMeta
    pub list_meta : L.ListMeta
    pub items : Slice

  pub record NamespaceClassBinding : Type 0 where
    pub type_meta : TypeMeta
    pub object_meta : L.ObjectMeta
    pub spec : NamespaceClassBindingSpec
    pub status : NamespaceClassBindingStatus

  pub record NamespaceClassBindingList : Type 0 where
    pub type_meta : TypeMeta
    pub list_meta : L.ListMeta
    pub items : Slice

  pub data Array : Type 0 where
    ref_array : List ResourceRef → Array
    condition_array : List Condition → Array
    raw_array : List L.RawExtension → Array
    class_array : List NamespaceClass → Array
    binding_array : List NamespaceClassBinding → Array
    block_array : L.Block → Array

  abbrev pub Heap : Type 0
  Heap = ℕ → Option Array

  -- The arrays, and the first address that is free.
  pub record Memory : Type 0 where
    pub at : Heap
    pub free : ℕ
