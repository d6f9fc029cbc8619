-- ===== src/Template/Search.antt =====
-- The token of internal/template/render.go is what a search for the pattern finds.
use Prim.Native.Nat.{ℕ}
use Prim.Native.Char.{Char, code}
use Prim.Native.String.{String, [], ◌∷◌, ◌++◌ as ◌<>◌}
use text.Mathlib.TextLemmas.{nil-append, cons-append, cons≢nil}
use namespace_class.Base.{
  ◌≡◌, refl, ◌∙◌, ap, arith, Bool, true, false, Bool-cases, Option, none, some, inl, inr, ◌==◌,
  eq_iff, if◌then◌else◌,
}
use namespace_class.Template.{is_blank, is_brace, closes, drop_blank, keep, shortest}
use namespace_class.Template.Pattern.{
  Found, or_else, captured, match_star, match_group, match_literal, no_brace,
}

-- No character is a brace.
abbrev pub NoBrace : String → Type 0
NoBrace [] = Unit {0}
NoBrace (c ∷ s) = (is_brace (code c) ≡ false) × NoBrace s

-- Nothing, or a brace first.
abbrev pub AtBrace : String → Type 0
AtBrace [] = Unit {0}
AtBrace (c ∷ s) = is_brace (code c) ≡ true

-- The end of the pattern.
abbrev close : String → Found
close = match_literal b'}' (match_literal b'}' (λ s. some ([], s)))

-- What is left where the text closes.
abbrev pub left_over : String → Option String
left_over (c ∷ d ∷ s) = if closes (c ∷ d ∷ s) then some s else none
left_over _ = none

-- With what the group has taken.
abbrev pub taking : String → Option String → Found
taking g none = none
taking g (some rest) = some (g, rest)

pub brace-not_blank : (k : ℕ) → is_brace k ≡ true → is_blank k ≡ false
unfolding is_brace is_blank
brace-not_blank k h = ground arith

close-left_over : (s : String) → close s ≡ taking [] (left_over s)
unfolding closes
close-left_over [] = refl
close-left_over (c ∷ []) = ground arith
close-left_over (c ∷ d ∷ s) = ground arith

close-no_brace : (c : Char) (s : String) → is_brace (code c) ≡ false → close (c ∷ s) ≡ none
unfolding is_brace
close-no_brace c s h = ground arith

pub match_star-cons :
    (class : ℕ → Bool) (onward : String → Found) (c : Char) (s : String)
    → match_star class onward (c ∷ s) ≡ (
        if class (code c)
        then or_else (match_star class onward s) (onward (c ∷ s))
        else onward (c ∷ s))
unfolding match_star
match_star-cons class onward c s = refl

match_group-cons :
    (class : ℕ → Bool) (onward : String → Found) (c : Char) (s : String)
    → match_group class onward (c ∷ s) ≡ (
        if class (code c)
        then captured c (or_else (onward s) (match_group class onward s))
        else none)
unfolding match_group
match_group-cons class onward c s = refl

white_close-at : (r : String) → AtBrace r → match_star is_blank close r ≡ taking [] (left_over r)
unfolding match_star
white_close-at [] h = refl
white_close-at (c ∷ s) h = rw (brace-not_blank (code c) h) (close-left_over (c ∷ s))

or_else-none : (x : Found) → or_else x none ≡ x
or_else-none none = refl
or_else-none (some found) = refl

pub cons-eq-nil : (c : Char) (s : String) → ((c ∷ s) == "") ≡ false
cons-eq-nil c s = elim (Bool-cases ((c ∷ s) == "")) [
  | inl e ↦ absurd (cons≢nil ((eq_iff (c ∷ s) "").0 e))
  | inr e ↦ e
]

keep_step :
    (b : Bool) (c : Char) (d : String) (x : Found)
    → (if b then or_else (if d == "" then x else none) none else none)
      ≡ (if keep b c d == "" then x else none)
keep_step true c [] x = or_else-none x
keep_step false c [] x = rw (cons-eq-nil c "") refl
keep_step true c (e ∷ d) x = rw (cons-eq-nil e d, cons-eq-nil c (e ∷ d)) refl
keep_step false c (e ∷ d) x = rw (cons-eq-nil c (e ∷ d)) (ground arith)

-- White space, then the end.
white_close :
    (u r : String)
    → NoBrace u
    → AtBrace r
    → match_star is_blank close (u <> r)
      ≡ (if drop_blank u == "" then taking [] (left_over r) else none)
unfolding drop_blank
white_close [] r h k = rw (nil-append r) (white_close-at r k)
white_close (c ∷ u) r h k =
    ap (match_star is_blank close) (cons-append c u r)
    ∙ match_star-cons is_blank close c (u <> r)
    ∙ rw (white_close u r h.1 k, close-no_brace c (u <> r) h.0)
        (keep_step (is_blank (code c)) c (drop_blank u) (taking [] (left_over r)))

-- The items after the first white space.
abbrev pub group_close : String → Found
group_close = match_group no_brace (match_star is_blank close)

pub group_close-at : (r : String) → AtBrace r → group_close r ≡ none
unfolding match_group
group_close-at [] h = refl
group_close-at (c ∷ s) h = rw h

taking_step :
    (b : Bool) (c e : Char) (d : String) (x : Option String)
    → captured c (or_else (if keep b e d == "" then taking [] x else none) (taking (e ∷ d) x))
      ≡ taking (c ∷ keep b e d) x
taking_step true c e [] none = refl
taking_step true c e [] (some rest) = refl
taking_step false c e [] none = rw (cons-eq-nil e "") refl
taking_step false c e [] (some rest) = rw (cons-eq-nil e "") refl
taking_step b c e (f ∷ d) none = rw (cons-eq-nil e (f ∷ d)) refl
taking_step b c e (f ∷ d) (some rest) = rw (cons-eq-nil e (f ∷ d)) refl

group_step :
    (c : Char) (u : String) (x : Option String)
    → captured c (
        or_else
          (if drop_blank u == "" then taking [] x else none)
          (if u == "" then none else taking (shortest u) x))
      ≡ taking (c ∷ drop_blank u) x
unfolding drop_blank
group_step c [] none = refl
group_step c [] (some rest) = refl
group_step c (e ∷ v) x = rw (cons-eq-nil e v) (taking_step (is_blank (code e)) c e (drop_blank v) x)

-- The group, then white space, then the end.
pub group_close_lem :
    (u r : String)
    → NoBrace u
    → AtBrace r
    → group_close (u <> r) ≡ (if u == "" then none else taking (shortest u) (left_over r))
group_close_lem [] r h k = ap group_close (nil-append r) ∙ group_close-at r k
group_close_lem (c ∷ u) r h k =
    ap group_close (cons-append c u r)
    ∙ match_group-cons no_brace (match_star is_blank close) c (u <> r)
    ∙ rw (white_close u r h.1 k, group_close_lem u r h.1 k, h.0, cons-eq-nil c u)
        (group_step c u (left_over r))
