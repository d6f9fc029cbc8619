-- ===== src/Contract/Distinct.antt =====
-- The identities of prepared resources, `prepareManagedResources` of
-- internal/controller/namespace_reconciler.go.
use namespace_class.Base.Lists.{length, length-snoc}
use namespace_class.Base.{
  ℕ, suc, ◌+◌, ◌≡◌, refl, ap, ◌∙◌, String, arith, Bool, true, false, Option, none, some, List, [],
  ◌∷◌, ◌++◌,
}
use namespace_class.Base.Dict.{
  Dict, get, set, has, get-set, has-append, AllDifferent, AllDifferent-append,
}
use namespace_class.Api.{Namespace, NamespaceClass, RawExtension, ResourceRef}
use namespace_class.Policy.{Policy}
use namespace_class.Libraries.{Libraries}
use namespace_class.Inventory.{resource_ref_key}
use namespace_class.Resources.Prepare.{
  PreparedManagedResource, duplicate, prepare_resource, prepare_loop, prepare_managed_resources,
}
use namespace_class.Cluster.{Exec, fail}
use namespace_class.Cluster.Safety.{History}
use namespace_class.Contract.Outcomes.{Ensures}
use namespace_class.Contract.Outcomes.{Ensures-bind, Ensures-next}

-- The identities of prepared resources.
abbrev pub identities : List PreparedManagedResource → List String
identities [] = []
identities (p ∷ l) = resource_ref_key p.ref ∷ identities l

identities-snoc :
    (l : List PreparedManagedResource) (p : PreparedManagedResource)
    → identities (l ++ p ∷ []) ≡ identities l ++ resource_ref_key p.ref ∷ []
identities-snoc [] p = refl
identities-snoc (q ∷ l) p = ap (λ rest. resource_ref_key q.ref ∷ rest) (identities-snoc l p)

abbrev is_some {ℓ} : {A : Type ℓ} → Option A → Bool
is_some none = false
is_some (some a) = true

-- The map of the loop has the identities of the resources so far, which are all different.
record Tracks (seen : Dict ResourceRef) (resources : List PreparedManagedResource) : Type 0 where
  same : (k : String) → has k (identities resources) ≡ is_some (get k seen)
  different : AllDifferent (identities resources)

Tracks-snoc :
    (seen : Dict ResourceRef) (resources : List PreparedManagedResource)
    (p : PreparedManagedResource)
    → Tracks seen resources
    → get (resource_ref_key p.ref) seen ≡ none
    → Tracks (set (resource_ref_key p.ref) p.ref seen) (resources ++ p ∷ [])
unfolding has
Tracks-snoc seen resources p t new = record {
  same = λ k. rw (identities-snoc resources p) (
      ground (
        arith,
        has-append k (identities resources) (resource_ref_key p.ref ∷ []),
        get-set (resource_ref_key p.ref) k p.ref seen,
        t.same k,
      ));
  different = rw (identities-snoc resources p) (
      AllDifferent-append (identities resources) (resource_ref_key p.ref) t.different
        (t.same (resource_ref_key p.ref) ∙ rw new refl));
}

-- One resource for each that the class has, and no identity twice.
abbrev pub Distinct : ℕ → History → List PreparedManagedResource → Type 0
Distinct n h resources = (length resources ≡ n) × AllDifferent (identities resources)

module _ (lib : Libraries) (policy : Policy) (namespace : Namespace) where
  -- After the test for duplicates.
  collect-Distinct :
      (n : ℕ) (h : History) (p : PreparedManagedResource) (existing : Option ResourceRef)
      (more : Exec (List PreparedManagedResource))
      → (existing ≡ none → Ensures (Distinct n) h more)
      → Ensures (Distinct n) h (elim existing [
        | some ref ↦ fail (duplicate lib (resource_ref_key p.ref) ref)
        | none ↦ more
      ])
  collect-Distinct n h p none more go = go refl
  collect-Distinct n h p (some ref) more go = tt

  prepare_loop-Distinct :
      (class_name : String) (index n : ℕ) (raws : List RawExtension) (seen : Dict ResourceRef)
      (resources : List PreparedManagedResource) (h : History)
      → Tracks seen resources
      → length raws + length resources ≡ n
      → Ensures
          (Distinct n)
          h
          (prepare_loop lib policy namespace class_name index raws seen resources)
  unfolding prepare_loop
  prepare_loop-Distinct class_name index n [] seen resources h t count =
      (ground (arith, count), t.different)
  prepare_loop-Distinct class_name index n (raw ∷ raws) seen resources h t count =
      Ensures-bind (Distinct n) h (prepare_resource lib policy namespace class_name index raw) _ (
        Ensures-next (Distinct n) _ λ h' p.
          collect-Distinct n h' p (get (resource_ref_key p.ref) seen) _ λ new.
            prepare_loop-Distinct class_name (suc index) n raws
              (set (resource_ref_key p.ref) p.ref seen) (resources ++ p ∷ []) h'
              (Tracks-snoc seen resources p t new)
              (rw (length-snoc resources p) (ground (arith, count))))

-- Where the preparation of a class's resources succeeds, whatever the history before it, there is
-- one prepared resource for each resource of the class, and no two have one identity.
pub prepare_managed_resources-Distinct :
    (lib : Libraries) (policy : Policy) (namespace : Namespace) (class : NamespaceClass)
    (h : History)
    → Ensures
        (Distinct (length class.resources))
        h
        (prepare_managed_resources lib policy namespace class)
unfolding prepare_managed_resources has get
prepare_managed_resources-Distinct lib policy namespace class h =
    prepare_loop-Distinct lib policy namespace class.name 0 (length class.resources) class.resources
      [] [] h (record { same = λ k. refl; different = tt }) (ground arith)
