-- ===== src/Template/Inner.antt =====
-- What a search finds after the opening braces of a token of internal/template/render.go.
use Prim.Native.Char.{Char, code}
use Prim.Native.String.{String, [], ◌∷◌, ◌++◌ as ◌<>◌}
use text.Mathlib.TextLemmas.{nil-append, cons-append}
use namespace_class.Base.{
  ◌≡◌, refl, sym, ◌∙◌, ap, Bool, true, false, Bool-cases, Option, none, some, inl, inr, ◌==◌,
  if◌then◌else◌,
}
use namespace_class.Template.{
  is_blank, is_brace, run, after_run, skip_blank, drop_blank, shortest, capture,
}
use namespace_class.Template.Pattern.{Found, or_else, match_star}
use namespace_class.Template.Search.{
  match_star-cons, cons-eq-nil, group_close, group_close_lem, group_close-at, brace-not_blank,
  left_over, taking, NoBrace, AtBrace,
}

-- All items after the opening braces.
abbrev pub inner : String → Found
inner = match_star is_blank group_close

inner-at : (r : String) → AtBrace r → inner r ≡ none
unfolding match_star
inner-at [] h = group_close-at [] h
inner-at (c ∷ s) h = rw (brace-not_blank (code c) h) (group_close-at (c ∷ s) h)

or_else_same : (b : Bool) (x : Found) → (if b then or_else none x else x) ≡ x
or_else_same true x = refl
or_else_same false x = refl

or_else_first : (g h : String) (x : Option String) → or_else (taking g x) (taking h x) ≡ taking g x
or_else_first g h none = refl
or_else_first g h (some rest) = refl

inner_step :
    (c : Char) (u : String) (x : Option String)
    → (if is_blank (code c)
        then or_else (if u == "" then none else taking (capture u) x) (taking (shortest (c ∷ u)) x)
        else taking (shortest (c ∷ u)) x)
      ≡ taking (capture (c ∷ u)) x
unfolding skip_blank capture drop_blank
inner_step c [] x = or_else_same (is_blank (code c)) (taking (c ∷ []) x)
inner_step c (e ∷ v) x = elim (Bool-cases (is_blank (code c))) [
  | inl b ↦ rw (b, cons-eq-nil e v) (or_else_first (capture (e ∷ v)) (shortest (c ∷ e ∷ v)) x)
  | inr b ↦ rw b refl
]

pub inner_lem :
    (u r : String)
    → NoBrace u
    → AtBrace r
    → inner (u <> r) ≡ (if u == "" then none else taking (capture u) (left_over r))
inner_lem [] r h k = ap inner (nil-append r) ∙ inner-at r k
inner_lem (c ∷ u) r h k =
    let one_fewer : group_close (c ∷ (u <> r)) ≡ taking (shortest (c ∷ u)) (left_over r) =
      ap group_close (sym (cons-append c u r))
      ∙ group_close_lem (c ∷ u) r h k
      ∙ rw (cons-eq-nil c u) refl in
    ap inner (cons-append c u r)
    ∙ match_star-cons is_blank group_close c (u <> r)
    ∙ rw (inner_lem u r h.1 k, one_fewer, cons-eq-nil c u) (inner_step c u (left_over r))

pub run-NoBrace : (s : String) → NoBrace (run s)
unfolding run
run-NoBrace [] = tt
run-NoBrace (c ∷ s) = elim (Bool-cases (is_brace (code c))) [
  | inl e ↦ rw e tt
  | inr e ↦ rw e (e, run-NoBrace s)
]

after_run-AtBrace : (s : String) → AtBrace (after_run s)
unfolding after_run
after_run-AtBrace [] = tt
after_run-AtBrace (c ∷ s) = elim (Bool-cases (is_brace (code c))) [
  | inl e ↦ rw e e
  | inr e ↦ rw e (after_run-AtBrace s)
]

pub run-append-after_run : (s : String) → run s <> after_run s ≡ s
unfolding run after_run
run-append-after_run [] = nil-append ""
run-append-after_run (c ∷ s) = elim (Bool-cases (is_brace (code c))) [
  | inl e ↦ rw e (nil-append (c ∷ s))
  | inr e ↦ rw e (cons-append c (run s) (after_run s) ∙ ap (λ t. c ∷ t) (run-append-after_run s))
]

pub inner-run :
    (s : String)
    → inner s ≡ (if run s == "" then none else taking (capture (run s)) (left_over (after_run s)))
inner-run s =
    ap inner (sym (run-append-after_run s))
    ∙ inner_lem (run s) (after_run s) (run-NoBrace s) (after_run-AtBrace s)
