-- ===== src/Copies.antt =====
-- api/v1alpha1/zz_generated.deepcopy.go: copies of the API types in a memory of arrays.
pub mod Memory
pub mod Objects
pub mod Pointers
pub mod Meaning
pub mod Slices
pub mod Faithful
pub mod Separate
