-- ===== src/Base/Chars/Laws.antt =====
-- Laws of `split` and `trim_space`.
use Prim.Native.Nat.{ℕ}
use Prim.Native.Char.{Char, code}
use Prim.Native.String.{String, [], ◌∷◌, ◌++◌ as ◌<>◌}
use mathlib.Core.Path.{◌≡◌, refl, ap, ◌∙◌, sym}
use mathlib.Core.Logic.{◌≢◌, inl, inr}
use mathlib.Core.Bool.{Bool, true, false, false≢true}
use mathlib.Core.List.{List}
use native.Mathlib.Omega.{arith}
use text.Mathlib.TextEquality.{Char-path}
use text.Mathlib.TextLemmas.{nil-append, cons-append, cons≢nil}
use namespace_class.Base.Tests.{nat_eq, Bool-cases}
use namespace_class.Base.Chars.{
  is_space, trim_left, trim_right, trim_space, split, prepend, keep_right,
}

-- The character `k` does not occur.
abbrev pub Lacks : ℕ → String → Type 0
Lacks k [] = Unit
Lacks k (c ∷ s) = (code c ≢ k) × Lacks k s

-- No character is white space.
abbrev pub IsSolid : String → Type 0
IsSolid [] = Unit
IsSolid (c ∷ s) = (is_space (code c) ≡ false) × IsSolid s

pub split-Lacks : (k : ℕ) (s : String) → Lacks k s → split k s ≡ List.◌∷◌ s List.[]
unfolding split
split-Lacks k [] h = refl
split-Lacks k (c ∷ s) h = rw (split-Lacks k s h.1) (ground arith)

pub split-append :
    (c : Char) (p s : String)
    → Lacks (code c) p
    → split (code c) (p <> (c ∷ s)) ≡ List.◌∷◌ p (split (code c) s)
unfolding split
split-append c [] s h = rw nil-append (ground arith)
split-append c (d ∷ p) s h = rw (cons-append, split-append c p s h.1) (ground arith)

-- The parts with the separator between them.
abbrev pub glue : Char → List String → String
glue c List.[] = []
glue c (List.◌∷◌ p List.[]) = p
glue c (List.◌∷◌ p (List.◌∷◌ q ps)) = p <> (c ∷ glue c (List.◌∷◌ q ps))

split-ne-nil : (k : ℕ) (s : String) → split k s ≢ List.[]
unfolding split
split-ne-nil k [] = λ e. cc e
split-ne-nil k (c ∷ s) = λ e. ground (arith, split-ne-nil k s)

glue-nil_cons : (c : Char) (l : List String) → l ≢ List.[] → glue c (List.◌∷◌ [] l) ≡ c ∷ glue c l
glue-nil_cons c List.[] h = absurd (h refl)
glue-nil_cons c (List.◌∷◌ p ps) h = nil-append _

glue-prepend : (c d : Char) (l : List String) → l ≢ List.[] → glue c (prepend d l) ≡ d ∷ glue c l
glue-prepend c d List.[] h = absurd (h refl)
glue-prepend c d (List.◌∷◌ p List.[]) h = refl
glue-prepend c d (List.◌∷◌ p (List.◌∷◌ q ps)) h = cons-append d p _

pub glue-split : (c : Char) (s : String) → glue c (split (code c) s) ≡ s
unfolding split
glue-split c [] = refl
glue-split c (d ∷ s) = elim (Bool-cases (nat_eq (code d) (code c))) [
  | inl same ↦ rw same (
      glue-nil_cons c _ (split-ne-nil _ s)
      ∙ ap (λ t. c ∷ t) (glue-split c s)
      ∙ ap (λ (e : Char). e ∷ s) (Char-path c d (ground arith)))
  | inr other ↦ rw other (glue-prepend c d _ (split-ne-nil _ s) ∙ ap (λ t. d ∷ t) (glue-split c s))
]

trim_left_IsSolid : (s : String) → IsSolid s → trim_left s ≡ s
unfolding trim_left
trim_left_IsSolid [] h = refl
trim_left_IsSolid (c ∷ s) h = rw h.0

trim_right_IsSolid : (s : String) → IsSolid s → trim_right s ≡ s
unfolding trim_right
trim_right_IsSolid [] h = refl
trim_right_IsSolid (c ∷ []) h = rw h.0
trim_right_IsSolid (c ∷ d ∷ s) h = rw (trim_right_IsSolid (d ∷ s) h.1)

pub trim_space_IsSolid : (s : String) → IsSolid s → trim_space s ≡ s
unfolding trim_space
trim_space_IsSolid s h = rw (trim_left_IsSolid s h) (trim_right_IsSolid s h)

pub IsSolid-append : (s t : String) → IsSolid s → IsSolid t → IsSolid (s <> t)
IsSolid-append [] t hs ht = rw nil-append ht
IsSolid-append (c ∷ s) t hs ht = rw cons-append (hs.0, IsSolid-append s t hs.1 ht)

-- The first character, if there is one, is no white space.
abbrev StartsSolid : String → Type 0
StartsSolid [] = Unit
StartsSolid (c ∷ s) = is_space (code c) ≡ false

trim_left-StartsSolid : (s : String) → StartsSolid (trim_left s)
unfolding trim_left
trim_left-StartsSolid [] = tt
trim_left-StartsSolid (c ∷ s) = elim (Bool-cases (is_space (code c))) [
  | inl e ↦ rw e (trim_left-StartsSolid s)
  | inr e ↦ rw e (let h : is_space (code c) ≡ false = e in h)
]

keep_right-StartsSolid :
    (c : Char) (s : String) → StartsSolid (c ∷ s) → StartsSolid (keep_right (is_space (code c)) c s)
keep_right-StartsSolid c [] h = rw h h
keep_right-StartsSolid c (d ∷ s) h = h

trim_right-StartsSolid : (s : String) → StartsSolid s → StartsSolid (trim_right s)
unfolding trim_right
trim_right-StartsSolid [] h = tt
trim_right-StartsSolid (c ∷ s) h = keep_right-StartsSolid c (trim_right s) h

trim_left_solid : (s : String) → StartsSolid s → trim_left s ≡ s
unfolding trim_left
trim_left_solid [] h = refl
trim_left_solid (c ∷ s) h = rw h

trim_right-keep_right :
    (c : Char) (s : String)
    → trim_right s ≡ s
    → trim_right (keep_right (is_space (code c)) c s) ≡ keep_right (is_space (code c)) c s
unfolding trim_right
trim_right-keep_right c [] h = elim (Bool-cases (is_space (code c))) [
  | inl e ↦ rw e
  | inr e ↦ rw (e, trim_right) (rw e)
]
trim_right-keep_right c (d ∷ s) h = ap (keep_right (is_space (code c)) c) h

trim_right_idem : (s : String) → trim_right (trim_right s) ≡ trim_right s
unfolding trim_right
trim_right_idem [] = refl
trim_right_idem (c ∷ s) = trim_right-keep_right c (trim_right s) (trim_right_idem s)

pub trim_space_idem : (s : String) → trim_space (trim_space s) ≡ trim_space s
unfolding trim_space
trim_space_idem s =
    ap trim_right
      (trim_left_solid _ (trim_right-StartsSolid (trim_left s) (trim_left-StartsSolid s)))
    ∙ trim_right_idem (trim_left s)

-- Every character is white space.
abbrev IsBlank : String → Type 0
IsBlank [] = Unit
IsBlank (c ∷ s) = (is_space (code c) ≡ true) × IsBlank s

keep_right-eq-nil :
    (b : Bool) (c : Char) (s : String) → keep_right b c s ≡ [] → (b ≡ true) × (s ≡ [])
keep_right-eq-nil true c [] h = (refl, refl)
keep_right-eq-nil false c [] h = absurd (cons≢nil h)
keep_right-eq-nil b c (d ∷ s) h = absurd (cons≢nil h)

trim_right-eq-nil : (s : String) → trim_right s ≡ [] → IsBlank s
unfolding trim_right
trim_right-eq-nil [] h = tt
trim_right-eq-nil (c ∷ s) h =
    let (space, rest) = keep_right-eq-nil (is_space (code c)) c (trim_right s) h in
    (space, trim_right-eq-nil s rest)

trim_left-IsBlank : (s : String) → IsBlank (trim_left s) → IsBlank s
unfolding trim_left
trim_left-IsBlank [] h = tt
trim_left-IsBlank (c ∷ s) h = elim (Bool-cases (is_space (code c))) [
  | inl e ↦ (e, trim_left-IsBlank s (let h' : _ = h in rw e at h'))
  | inr e ↦ let h' : _ = h in rw e at h'
]

IsBlank-Lacks : (k : ℕ) (s : String) → is_space k ≡ false → IsBlank s → Lacks k s
IsBlank-Lacks k [] h b = tt
IsBlank-Lacks k (c ∷ s) h b =
    (λ e. false≢true (sym h ∙ ap is_space (sym e) ∙ b.0), IsBlank-Lacks k s h b.1)

pub Lacks-of_blank : (k : ℕ) (s : String) → is_space k ≡ false → trim_space s ≡ [] → Lacks k s
unfolding trim_space
Lacks-of_blank k s h e =
    IsBlank-Lacks k s h (trim_left-IsBlank s (trim_right-eq-nil (trim_left s) e))

abbrev pub slash : Char
slash = "/"

pub slash-append : (s : String) → "/" <> s ≡ slash ∷ s
slash-append s = cons-append slash "" s ∙ ap (λ t. slash ∷ t) (nil-append s)
