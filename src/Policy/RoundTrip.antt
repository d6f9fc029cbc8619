-- ===== src/Policy/RoundTrip.antt =====
-- `ParseGVK` and `Format` of internal/policy/gvk_policy.go, one after the other.
use namespace_class.Base.{
  String, ◌<>◌, ◌≡◌, refl, ◌≢◌, ◌∙◌, ap, ◌⊎◌, inl, inr, List, [], ◌∷◌, ◌==◌, eq_iff, Bool-cases,
  Bool, false, true, ◌||◌, arith,
}
use namespace_class.Base.Chars.{is_space, trim_space, split}
use namespace_class.Base.Chars.Laws.{
  slash, slash-append, Lacks, IsSolid, split-Lacks, split-append, glue, glue-split,
  trim_space_IsSolid, IsSolid-append,
}
use namespace_class.GroupVersionKind.{GroupVersionKind, format}
use namespace_class.Errors.{ok, ok-injective}
use namespace_class.Policy.{gvk_of_parts, parse_gvk}

-- A field that the text form can carry.
pub record IsPart (s : String) : Type 0 where
  pub filled : s ≢ ""
  pub no_slash : Lacks b'/' s
  pub solid : IsSolid s

pub record IsPrintable (gvk : GroupVersionKind) : Type 0 where
  pub group : (gvk.group ≡ "") ⊎ IsPart gvk.group
  pub version : IsPart gvk.version
  pub kind : IsPart gvk.kind

split-two : (a b : String) → Lacks b'/' a → Lacks b'/' b → split b'/' (a <> "/" <> b) ≡ a ∷ b ∷ []
split-two a b ha hb =
    rw (slash-append b)
      (split-append slash a b ha ∙ ap (λ (l : List String). a ∷ l) (split-Lacks b'/' b hb))

split-three :
    (a b c : String)
    → Lacks b'/' a
    → Lacks b'/' b
    → Lacks b'/' c
    → split b'/' (a <> "/" <> b <> "/" <> c) ≡ a ∷ b ∷ c ∷ []
split-three a b c ha hb hc =
    rw (slash-append (b <> "/" <> c))
      (split-append slash a _ ha ∙ ap (λ (l : List String). a ∷ l) (split-two b c hb hc))

solid_two : (a b : String) → IsSolid a → IsSolid b → IsSolid (a <> "/" <> b)
unfolding is_space
solid_two a b ha hb = IsSolid-append a _ ha (IsSolid-append "/" b (refl, tt) hb)

parse_of_parts :
    (text : String) (l : List String)
    → IsSolid text
    → split b'/' text ≡ l
    → parse_gvk text ≡ gvk_of_parts text l
unfolding parse_gvk
parse_of_parts text l solid e = rw (trim_space_IsSolid text solid, e)

parse_two :
    (v k : String)
    → IsPart v
    → IsPart k
    → parse_gvk (v <> "/" <> k) ≡ ok (record { group = ""; version = v; kind = k })
unfolding gvk_of_parts
parse_two v k pv pk =
    parse_of_parts _ _ (solid_two v k pv.solid pk.solid) (split-two v k pv.no_slash pk.no_slash)
    ∙ ground (arith, eq_iff v "", eq_iff k "")

parse_three :
    (g v k : String)
    → IsPart g
    → IsPart v
    → IsPart k
    → parse_gvk (g <> "/" <> v <> "/" <> k) ≡ ok (record { group = g; version = v; kind = k })
unfolding gvk_of_parts
parse_three g v k pg pv pk =
    parse_of_parts _ _ (solid_two g _ pg.solid (solid_two v k pv.solid pk.solid))
      (split-three g v k pg.no_slash pv.no_slash pk.no_slash)
    ∙ ground (arith, eq_iff g "", eq_iff v "", eq_iff k "")

-- A printable kind is read back from its text form, with a group and without.
pub parse_gvk-format : (gvk : GroupVersionKind) → IsPrintable gvk → parse_gvk (format gvk) ≡ ok gvk
unfolding format
parse_gvk-format gvk p = elim p.group [
  | inl e ↦ rw ((eq_iff gvk.group "").1 e) (parse_two _ _ p.version p.kind ∙ ground arith)
  | inr h ↦ elim (Bool-cases (gvk.group == "")) [
    | inl e ↦ absurd (h.filled ((eq_iff gvk.group "").0 e))
    | inr e ↦ rw e (parse_three _ _ _ h p.version p.kind)
  ]
]

first-false : (p q : Bool) → (p || q) ≡ false → p ≡ false
first-false false q h = refl
first-false true q h = h

format-gvk_of_parts :
    (value : String) (l : List String) (gvk : GroupVersionKind)
    → gvk_of_parts value l ≡ ok gvk
    → format gvk ≡ glue slash l
unfolding gvk_of_parts format
format-gvk_of_parts value [] gvk h = cc
format-gvk_of_parts value (a ∷ []) gvk h = cc
format-gvk_of_parts value (a ∷ b ∷ []) gvk h = elim (Bool-cases (a == "" || b == "")) [
  | inl e ↦ cc (e, h)
  | inr e ↦ rw (← ok-injective (let h' : _ = h in rw e at h')) (ap (λ t. a <> t) (slash-append b))
]
format-gvk_of_parts value (a ∷ b ∷ c ∷ []) gvk h =
    elim (Bool-cases (a == "" || b == "" || c == "")) [
      | inl e ↦ cc (e, h)
      | inr e ↦
          rw
            (
              ← ok-injective (let h' : _ = h in rw e at h'),
              first-false (a == "") (b == "") (first-false (a == "" || b == "") (c == "") e),
            )
            (ap (λ t. a <> t)
              (slash-append (b <> "/" <> c) ∙ ap (λ t. String.◌∷◌ slash (b <> t)) (slash-append c)))
    ]
format-gvk_of_parts value (a ∷ b ∷ c ∷ d ∷ l) gvk h = cc

-- What is read from a text has that text, without the white space around it, as its text form.
pub format-parse_gvk :
    (value : String) (gvk : GroupVersionKind)
    → parse_gvk value ≡ ok gvk
    → format gvk ≡ trim_space value
unfolding parse_gvk
format-parse_gvk value gvk h =
    format-gvk_of_parts value (split b'/' (trim_space value)) gvk h
    ∙ glue-split slash (trim_space value)
