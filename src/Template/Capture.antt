-- ===== src/Template/Capture.antt =====
-- The key that the callback of internal/template/render.go looks up, in terms of the text between
-- the braces.
use Prim.Native.Char.{Char, code}
use Prim.Native.String.{String, [], ◌∷◌}
use namespace_class.Base.{◌≡◌, refl, ◌∙◌, ap, sym, Bool, true, false, inl, inr, Bool-cases, arith}
use namespace_class.Base.{if◌then◌else◌}
use namespace_class.Base.Chars.{is_space, trim_left, trim_right, trim_space, keep_right}
use namespace_class.Template.{is_blank, skip_blank, drop_blank, keep, shortest, capture}

is_blank-is_space : (k : _) → is_blank k ≡ true → is_space k ≡ true
unfolding is_blank is_space
is_blank-is_space k h = ground arith

trim_left-skip_blank : (s : String) → trim_left (skip_blank s) ≡ trim_left s
unfolding skip_blank trim_left
trim_left-skip_blank [] = refl
trim_left-skip_blank (c ∷ []) = refl
trim_left-skip_blank (c ∷ d ∷ s) = elim (Bool-cases (is_blank (code c))) [
  | inl e ↦ rw (e, is_blank-is_space (code c) e) (trim_left-skip_blank (d ∷ s))
  | inr e ↦ rw e
]

trim_right-keep :
    (k : Bool) (c : Char) (s : String)
    → (k ≡ true → is_space (code c) ≡ true)
    → trim_right (keep k c s) ≡ keep_right (is_space (code c)) c (trim_right s)
unfolding trim_right
trim_right-keep true c [] h = rw (h refl)
trim_right-keep false c [] h = refl
trim_right-keep k c (d ∷ s) h = refl

trim_right-drop_blank : (s : String) → trim_right (drop_blank s) ≡ trim_right s
unfolding drop_blank trim_right
trim_right-drop_blank [] = refl
trim_right-drop_blank (c ∷ s) =
    trim_right-keep (is_blank (code c)) c (drop_blank s) (is_blank-is_space (code c))
    ∙ ap (keep_right (is_space (code c)) c) (trim_right-drop_blank s)

-- `trim_space`, one character at a time.
trim_step : Char → String → String
trim_step c s =
    if is_space (code c) then trim_right (trim_left s) else keep_right false c (trim_right s)

trim-keep :
    (k : Bool) (c : Char) (s : String)
    → (k ≡ true → is_space (code c) ≡ true)
    → trim_right (trim_left (keep k c s)) ≡ trim_step c s
unfolding trim_right trim_left trim_step
trim-keep true c [] h = rw (h refl)
trim-keep false c [] h = elim (Bool-cases (is_space (code c))) [
  | inl e ↦ rw e
  | inr e ↦ rw e (rw e)
]
trim-keep k c (d ∷ s) h = elim (Bool-cases (is_space (code c))) [
  | inl e ↦ rw e
  | inr e ↦ rw e (rw e)
]

trim_step_lem : (c : Char) (s : String) → trim_right (trim_left (c ∷ s)) ≡ trim_step c s
unfolding trim_right trim_left trim_step
trim_step_lem c s = elim (Bool-cases (is_space (code c))) [ inl e ↦ rw e | inr e ↦ rw e (rw e) ]

trim_step_cong :
    (c : Char) (s t : String)
    → trim_right s ≡ trim_right t
    → trim_right (trim_left s) ≡ trim_right (trim_left t)
    → trim_step c s ≡ trim_step c t
unfolding trim_step
trim_step_cong c s t p q = rw (p, q)

drop_blank-cons :
    (c : Char) (s : String) → drop_blank (c ∷ s) ≡ keep (is_blank (code c)) c (drop_blank s)
unfolding drop_blank
drop_blank-cons c s = refl

trim-drop_blank : (s : String) → trim_right (trim_left (drop_blank s)) ≡ trim_right (trim_left s)
trim-drop_blank [] = unfold drop_blank in refl
trim-drop_blank (c ∷ s) =
    ap (λ t. trim_right (trim_left t)) (drop_blank-cons c s)
    ∙ trim-keep (is_blank (code c)) c (drop_blank s) (is_blank-is_space (code c))
    ∙ trim_step_cong c (drop_blank s) s (trim_right-drop_blank s) (trim-drop_blank s)
    ∙ sym (trim_step_lem c s)

trim-shortest : (s : String) → trim_right (trim_left (shortest s)) ≡ trim_right (trim_left s)
trim-shortest [] = refl
trim-shortest (c ∷ s) =
    trim_step_lem c (drop_blank s)
    ∙ trim_step_cong c (drop_blank s) s (trim_right-drop_blank s) (trim-drop_blank s)
    ∙ sym (trim_step_lem c s)

pub trim_space-capture : (body : String) → trim_space (capture body) ≡ trim_space body
unfolding trim_space capture
trim_space-capture body =
    trim-shortest (skip_blank body) ∙ ap trim_right (trim_left-skip_blank body)
