-- ===== src/Watch/FanOut.antt =====
-- The fan-out of a class to its namespaces, `requestsForNamespaceClass` and
-- `requestsForNamespaceClassBinding` of internal/controller/namespace_reconciler.go.
use namespace_class.Base.Dict.{AllDifferent}
use namespace_class.Base.{
  ◌≡◌, refl, inl, inr, Bool-cases, String, ◌==◌, eq_iff, eq_refl, arith, not, ◌&&◌, List, [], ◌∷◌,
  ◌++◌,
}
use namespace_class.Base.Dict.{has, add, has-add}
use namespace_class.Api.{NamespaceClassBinding}
use namespace_class.Watch.{fan_out, namespace_name_of, requests_for_namespace_class_binding}

-- All requests that the bindings make one by one.
abbrev pub one_by_one : List NamespaceClassBinding → List String
one_by_one [] = []
one_by_one (binding ∷ bindings) =
    requests_for_namespace_class_binding binding ++ one_by_one bindings

-- What is left to be requested.
has-fan_out :
    (k : String) (bindings : List NamespaceClassBinding) (seen : List String)
    → has k (fan_out bindings seen) ≡ (has k (one_by_one bindings) && not (has k seen))
unfolding fan_out has requests_for_namespace_class_binding
has-fan_out k [] seen = refl
has-fan_out k (binding ∷ bindings) seen =
    let name = namespace_name_of binding in
    ground (
      arith,
      has-fan_out k bindings seen,
      has-fan_out k bindings (add name seen),
      has-add k name seen,
      eq_iff name k,
      eq_iff name "",
    )

fan_out-AllDifferent :
    (bindings : List NamespaceClassBinding) (seen : List String)
    → AllDifferent (fan_out bindings seen)
unfolding fan_out
fan_out-AllDifferent [] seen = tt
fan_out-AllDifferent (binding ∷ bindings) seen =
    elim (Bool-cases (namespace_name_of binding == "")) [
      | inl empty ↦ rw empty (fan_out-AllDifferent bindings seen)
      | inr named ↦ rw named (elim (Bool-cases (has (namespace_name_of binding) seen)) [
        | inl old ↦ rw old (fan_out-AllDifferent bindings seen)
        | inr new ↦ rw new (
          ground (
            arith,
            has-fan_out (namespace_name_of binding) bindings (add (namespace_name_of binding) seen),
            has-add (namespace_name_of binding) (namespace_name_of binding) seen,
            eq_refl (namespace_name_of binding),
          ),
          fan_out-AllDifferent bindings (add (namespace_name_of binding) seen),
        )
      ])
    ]

-- For a class whose bindings have been listed, the fan-out requests each namespace once, and it
-- requests exactly the namespaces that the watch of a binding requests for some of them.
pub fan_out_once :
    (bindings : List NamespaceClassBinding)
    → AllDifferent (fan_out bindings [])
      × ((k : String) → has k (fan_out bindings []) ≡ has k (one_by_one bindings))
unfolding has
fan_out_once bindings =
    (fan_out-AllDifferent bindings [], λ k. ground (arith, has-fan_out k bindings []))
