-- ===== src/Template/Equivalence.antt =====
-- The tokens of internal/template/render.go and the search for its pattern.
use Prim.Native.Char.{Char, code}
use Prim.Native.String.{String, [], ◌∷◌, ◌++◌ as ◌<>◌}
use text.Mathlib.TextEquality.{Char-path}
use text.Mathlib.TextLemmas.{append-nil}
use namespace_class.Base.{
  ◌≡◌, ◌≢◌, refl, sym, ◌∙◌, ap, arith, Bool, true, false, not, ◌&&◌, Bool-cases, none, some, inl,
  inr, ◌⊎◌, ◌==◌, nat_eq, eq_iff, if◌then◌else◌,
}
use namespace_class.Base.Chars.Laws.{Lacks}
use namespace_class.Template.{is_brace, run, after_run, closes, token, capture}
use namespace_class.Template.Laws.{IsBody, braced, braced_lem, opening, closing}
use namespace_class.Template.Pattern.{Found, token_pattern, match}
use namespace_class.Template.Search.{NoBrace, left_over, taking}
use namespace_class.Template.Inner.{inner_lem, run-NoBrace, run-append-after_run, inner, inner-run}

-- Whether a token begins, by the test of `token`.
abbrev pub begins : Char → Char → String → Bool
begins c d s =
    nat_eq (code c) b'{' && nat_eq (code d) b'{' && not (run s == "") && closes (after_run s)

abbrev opened : Char → Char → Found → Found
opened c d found =
    if nat_eq (code c) b'{' then if nat_eq (code d) b'{' then found else none else none

match-inner : (c d : Char) (s : String) → match token_pattern (c ∷ d ∷ s) ≡ opened c d (inner s)
match-inner c d s = refl

pub token_lem :
    (c d : Char) (s : String) → token (c ∷ d ∷ s) ≡ (if begins c d s then some (run s) else none)
unfolding token
token_lem c d s = refl

left_over-closes : (s : String) → closes s ≡ false → left_over s ≡ none
unfolding closes
left_over-closes [] h = refl
left_over-closes (c ∷ []) h = refl
left_over-closes (c ∷ d ∷ s) h = rw h refl

NoBrace-Lacks : (s : String) → NoBrace s → Lacks b'{' s × Lacks b'}' s
unfolding is_brace
NoBrace-Lacks [] h = (tt, tt)
NoBrace-Lacks (c ∷ s) h =
    let rest = NoBrace-Lacks s h.1 in ((ground (arith, h.0), rest.0), (ground (arith, h.0), rest.1))

Lacks-NoBrace : (s : String) → Lacks b'{' s → Lacks b'}' s → NoBrace s
unfolding is_brace
Lacks-NoBrace [] h k = tt
Lacks-NoBrace (c ∷ s) h k = (ground (arith, h.0, k.0), Lacks-NoBrace s h.1 k.1)

eq-false : (s t : String) → s ≢ t → (s == t) ≡ false
eq-false s t h = elim (Bool-cases (s == t)) [ inl e ↦ absurd (h ((eq_iff s t).0 e)) | inr e ↦ e ]

match-braced :
    (body rest : String)
    → IsBody body
    → match token_pattern (braced body rest) ≡ some (capture body, rest)
unfolding closes
match-braced body rest b =
    inner_lem body (closing ∷ closing ∷ rest) (Lacks-NoBrace body b.no_open b.no_close)
      (unfold is_brace in refl)
    ∙ rw (eq-false body "" b.filled) refl

closes_cases : (r : String) → closes r ≡ true → (rest : String) × (r ≡ closing ∷ closing ∷ rest)
unfolding closes
closes_cases [] h = cc h
closes_cases (c ∷ []) h = cc h
closes_cases (c ∷ d ∷ s) h =
    let first : c ≡ closing = Char-path c closing (ground (arith, h)) in
    let second : d ≡ closing = Char-path d closing (ground (arith, h)) in
    (s, rw (first, second) refl)

-- Where a token begins, it is braced.
pub begins-braced :
    (c d : Char) (s : String)
    → begins c d s ≡ true
    → IsBody (run s) × (rest : String) × (c ∷ d ∷ s ≡ braced (run s) rest)
begins-braced c d s h =
    let first : c ≡ opening = Char-path c opening (ground (arith, h)) in
    let second : d ≡ opening = Char-path d opening (ground (arith, h)) in
    let (rest, ending) = closes_cases (after_run s) (ground (arith, h)) in
    let lacks = NoBrace-Lacks (run s) (run-NoBrace s) in
    (
      record {
        filled = λ e. ground (arith, h, eq_iff (run s) "");
        no_open = lacks.0;
        no_close = lacks.1;
      },
      rest,
      rw (first, second, ← ending) (ap (λ t. opening ∷ opening ∷ t) (sym (run-append-after_run s))),
    )

opened-none :
    (a b q k : Bool) (found : Found)
    → (a && b && not q && k) ≡ false
    → (k ≡ false → found ≡ none)
    → (if a then if b then if q then none else found else none else none) ≡ none
opened-none true true true k found h g = refl
opened-none true true false k found h g = g h
opened-none true false q k found h g = refl
opened-none false b q k found h g = refl

match-none :
    (c d : Char) (s : String) → begins c d s ≡ false → match token_pattern (c ∷ d ∷ s) ≡ none
match-none c d s h =
    match-inner c d s
    ∙ rw (inner-run s) (
        opened-none (nat_eq (code c) b'{') (nat_eq (code d) b'{') (run s == "")
          (closes (after_run s)) (taking (capture (run s)) (left_over (after_run s))) h
          (λ e. ap (taking (capture (run s))) (left_over-closes (after_run s) e)))

-- What `token` and the search make of a text.
abbrev pub Agree : String → Type 0
Agree s =
    ((token s ≡ none) × (match token_pattern s ≡ none))
    ⊎ (body : String) × (rest : String) × IsBody body
      × (s ≡ "{{" <> body <> "}}" <> rest)
      × (token s ≡ some body)
      × (match token_pattern s ≡ some (capture body, rest))
      × (match token_pattern ("{{" <> body <> "}}") ≡ some (capture body, ""))

alone : (body : String) → "{{" <> body <> "}}" ≡ braced body ""
alone body = ap (λ t. "{{" <> body <> t) (sym (append-nil "}}")) ∙ braced_lem body ""

-- On every text: either `token` is `none`, and a backtracking engine finds no match of
-- `{{\s*([^{}]+?)\s*}}` that begins there; or the text is two opening braces, a body without braces
-- that is not empty, two closing braces and a rest, `token` is this body, and the first match that
-- the engine finds ends where the rest begins and has `capture` of the body as its group; and on the
-- token alone it finds the same group, up to the end.
pub token-match : (s : String) → Agree s
unfolding token
token-match [] = inl (refl, refl)
token-match (c ∷ []) = inl (refl, ground arith)
token-match (c ∷ d ∷ s) = elim (Bool-cases (begins c d s)) [
  | inl e ↦
      let (body, rest, spelled) = begins-braced c d s e in
      inr (
        run s,
        rest,
        body,
        spelled ∙ sym (braced_lem (run s) rest),
        token_lem c d s ∙ rw e refl,
        ap (match token_pattern) spelled ∙ match-braced (run s) rest body,
        ap (match token_pattern) (alone (run s)) ∙ match-braced (run s) "" body,
      )
  | inr e ↦ inl (token_lem c d s ∙ rw e refl, match-none c d s e)
]
