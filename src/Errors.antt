-- ===== src/Errors.antt =====
-- Go's error values, as far as the program builds and inspects them: `fmt.Errorf` with and without
-- `%w`, policy.DeniedError, the controller's conditionedError, and the errors that come from the
-- Kubernetes libraries. A text that fmt formats is kept as the list of its parts.
use namespace_class.Base.{
  ℕ, String, Bool, true, false, Option, none, some, List, [], ◌∷◌, ◌++◌, ◌≡◌, refl, ◌⊎◌, inl, inr,
}
use namespace_class.GroupVersionKind.{GroupVersionKind, format}
use namespace_class.Reason.{Reason}

pub data Part : Type 0 where
  plain : String → Part
  -- `%q`
  quoted : String → Part
  -- `%d`
  number : ℕ → Part

abbrev pub Message : Type 0
Message = List Part

-- What apierrors.ReasonForError finds in an error of the libraries.
pub data Status : Type 0 where
  not_found conflict other : Status

pub data Error : Type 0 where
  -- an error that a library returned, with its text
  library : Status → String → Error
  -- fmt.Errorf without `%w`
  errorf : Message → Error
  -- fmt.Errorf("...: %w", err)
  wrap : Message → Error → Error
  -- fmt.Errorf("...: %w; ...: %w", err, statusErr)
  wrap_two : Message → Error → Message → Error → Error
  -- *policy.DeniedError
  denied : GroupVersionKind → String → Error
  -- *conditionedError
  conditioned : Reason → Error → Error

-- err.Error()
unfoldable pub message : Error → Message
message (library s t) = plain t ∷ []
message (errorf m) = m
message (wrap m e) = m ++ (plain ": " ∷ message e)
message (wrap_two m e n f) =
    m ++ (plain ": " ∷ (message e ++ (plain "; " ∷ (n ++ (plain ": " ∷ message f)))))
message (denied gvk reason) =
    plain "GVK " ∷ plain (format gvk) ∷ plain " is denied: " ∷ plain reason ∷ []
message (conditioned reason e) = message e

abbrev pub or_else {ℓ} : {A : Type ℓ} → Option A → Option A → Option A
or_else none o = o
or_else (some a) o = some a

-- errors.As for *policy.DeniedError: the first in the tree of wrapped errors, in depth-first order.
unfoldable pub as_denied : Error → Option (GroupVersionKind × String)
as_denied (library s t) = none
as_denied (errorf m) = none
as_denied (wrap m e) = as_denied e
as_denied (wrap_two m e n f) = or_else (as_denied e) (as_denied f)
as_denied (denied gvk reason) = some (gvk, reason)
as_denied (conditioned reason e) = as_denied e

-- errors.As for *conditionedError, of which the program reads the reason.
unfoldable pub as_conditioned : Error → Option Reason
as_conditioned (library s t) = none
as_conditioned (errorf m) = none
as_conditioned (wrap m e) = as_conditioned e
as_conditioned (wrap_two m e n f) = or_else (as_conditioned e) (as_conditioned f)
as_conditioned (denied gvk reason) = none
as_conditioned (conditioned reason e) = some reason

-- The status that apierrors.IsNotFound and IsConflict look at: the first in the tree.
unfoldable pub as_status : Error → Option Status
as_status (library s t) = some s
as_status (errorf m) = none
as_status (wrap m e) = as_status e
as_status (wrap_two m e n f) = or_else (as_status e) (as_status f)
as_status (denied gvk reason) = none
as_status (conditioned reason e) = as_status e

unfoldable pub is_not_found : Error → Bool
unfolding as_status
is_not_found e = elim (as_status e) [ some not_found ↦ true | _ ↦ false ]

unfoldable pub is_conflict : Error → Bool
unfolding as_status
is_conflict e = elim (as_status e) [ some conflict ↦ true | _ ↦ false ]

-- What a Go function returns that has an error as its last result.
pub data Result {ℓ} (A : Type ℓ) : Type ℓ where
  -- a nil error
  ok : A → Result A
  -- the value beside the error is not used by the callers
  err : Error → Result A

-- `if err != nil { return err }` between two steps.
infixl 5 ◌>>=◌
abbrev pub ◌>>=◌ {ℓ κ} : {A : Type ℓ} {B : Type κ} → Result A → (A → Result B) → Result B
err e >>= f = err e
ok a >>= f = f a

-- `if err != nil { return fmt.Errorf("m: %w", err) }`
abbrev pub wrapping {ℓ} : {A : Type ℓ} → Message → Result A → Result A
wrapping m (ok a) = ok a
wrapping m (err e) = err (wrap m e)

pub ok-injective {ℓ} : {A : Type ℓ} {a b : A} → ok a ≡ ok b → a ≡ b
ok-injective h = cc h

-- Both steps of a successful chain have succeeded.
pub >>=-eq-ok {ℓ κ} :
    {A : Type ℓ} {B : Type κ} {b : B} (first : Result A) (then_do : A → Result B)
    → (first >>= then_do) ≡ ok b
    → (a : A) × (then_do a ≡ ok b) × (first ≡ ok a)
>>=-eq-ok (err e) then_do h = cc
>>=-eq-ok (ok a) then_do h = (a, h, refl)

pub Result-cases {ℓ} :
    {A : Type ℓ} (r : Result A) → ((a : A) × (r ≡ ok a)) ⊎ ((e : Error) × (r ≡ err e))
Result-cases (ok a) = inl (a, refl)
Result-cases (err e) = inr (e, refl)
