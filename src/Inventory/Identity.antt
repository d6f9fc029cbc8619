-- ===== src/Inventory/Identity.antt =====
-- When two references have one key.
use Prim.Native.Char.{Char, code}
use text.Mathlib.TextLemmas.{
  nil-append, cons-append, append_assoc, append-nil, append-ne-nil_of_right_ne-nil, cons≢nil,
  head-eq_of_cons-eq, tail-eq_of_cons-eq,
}
use namespace_class.Base.{
  String, ◌<>◌, ◌≡◌, refl, sym, ap, ap₂, ◌≢◌, ◌∙◌, List, [], ◌∷◌, ◌==◌, Bool, true, false,
  if◌then◌else◌,
}
use namespace_class.Base.Chars.{join, split, trim_space}
use namespace_class.Base.Chars.Laws.{slash, slash-append, Lacks, split-Lacks, split-append}
use namespace_class.Errors.{Error, ok, err, ok-injective}
use namespace_class.Api.{ResourceRef}
use namespace_class.Inventory.{resource_ref_key, inventory_key}

-- A text without a slash has no beginning that a slash follows.
no_slash : (a s t : String) → Lacks b'/' s → s ≢ a <> String.◌∷◌ slash t
no_slash a String.[] t h e = append-ne-nil_of_right_ne-nil a (λ n. cons≢nil n) (sym e)
no_slash String.[] (String.◌∷◌ c s) t h e = h.0 (ap code (head-eq_of_cons-eq (e ∙ nil-append _)))
no_slash (String.◌∷◌ d a) (String.◌∷◌ c s) t h e =
    no_slash a s t h.1 (tail-eq_of_cons-eq (e ∙ cons-append d a _))

-- A text is cut at its last slash in one way.
last_slash :
    (a b s t : String)
    → Lacks b'/' s
    → Lacks b'/' t
    → a <> String.◌∷◌ slash s ≡ b <> String.◌∷◌ slash t
    → (a ≡ b) × (s ≡ t)
last_slash String.[] String.[] s t hs ht e =
    (refl, tail-eq_of_cons-eq (sym (nil-append _) ∙ e ∙ nil-append _))
last_slash String.[] (String.◌∷◌ d b) s t hs ht e =
    absurd (no_slash b s t hs (tail-eq_of_cons-eq (sym (nil-append _) ∙ e ∙ cons-append d b _)))
last_slash (String.◌∷◌ c a) String.[] s t hs ht e =
    absurd (no_slash a t s ht (tail-eq_of_cons-eq (sym (nil-append _) ∙ sym e ∙ cons-append c a _)))
last_slash (String.◌∷◌ c a) (String.◌∷◌ d b) s t hs ht e =
    let e' = sym (cons-append c a _) ∙ e ∙ cons-append d b _ in
    let (p, q) = last_slash a b s t hs ht (tail-eq_of_cons-eq e') in
    (ap₂ String.◌∷◌ (head-eq_of_cons-eq e') p, q)

-- The parts after the API version have no slash.
pub record IsPlain (ref : ResourceRef) : Type 0 where
  pub kind : Lacks b'/' ref.kind
  pub namespace : Lacks b'/' ref.namespace
  pub name : Lacks b'/' ref.name

-- The key with its last three slashes in front.
key_by_last_slash :
    (ref : ResourceRef)
    → resource_ref_key ref
      ≡ ((ref.api_version <> String.◌∷◌ slash ref.kind) <> String.◌∷◌ slash ref.namespace)
        <> String.◌∷◌ slash ref.name
unfolding resource_ref_key
key_by_last_slash ref = simp (slash-append, append_assoc, cons-append)

-- References whose kinds, namespaces and names have no slash have one key only if they are equal,
-- although the API version may have a slash.
pub resource_ref_key_injective :
    (a b : ResourceRef) → IsPlain a → IsPlain b → resource_ref_key a ≡ resource_ref_key b → a ≡ b
resource_ref_key_injective a b pa pb e =
    let (front, name) =
      last_slash _ _ a.name b.name pa.name pb.name
        (sym (key_by_last_slash a) ∙ e ∙ key_by_last_slash b) in
    let (rest, namespace) =
      last_slash _ _ a.namespace b.namespace pa.namespace pb.namespace front in
    let (version, kind) =
      last_slash a.api_version b.api_version a.kind b.kind pa.kind pb.kind rest in
    cc

-- No part has a NUL.
pub record IsText (ref : ResourceRef) : Type 0 where
  pub api_version : Lacks 0 ref.api_version
  pub kind : Lacks 0 ref.kind
  pub namespace : Lacks 0 ref.namespace
  pub name : Lacks 0 ref.name

abbrev nul : Char
nul = "\0"

nul-append : (s : String) → "\0" <> s ≡ String.◌∷◌ nul s
nul-append s = cons-append nul "" s ∙ ap (λ t. String.◌∷◌ nul t) (nil-append s)

accepted :
    (a b c : Bool) (e f g : Error) (s k : String)
    → (if a then err e else if b then err f else if c then err g else ok s) ≡ ok k
    → s ≡ k
accepted true b c e f g s k h = cc h
accepted false true c e f g s k h = cc h
accepted false false true e f g s k h = cc h
accepted false false false e f g s k h = ok-injective h

split-nul :
    (a b c d : String)
    → Lacks 0 a
    → Lacks 0 b
    → Lacks 0 c
    → Lacks 0 d
    → split 0 (join "\0" (a ∷ b ∷ c ∷ d ∷ [])) ≡ a ∷ b ∷ c ∷ d ∷ []
unfolding join
split-nul a b c d ha hb hc hd =
    simp (nul-append, append-nil)
      (split-append nul a _ ha
        ∙ ap (λ (l : List String). a ∷ l)
            (split-append nul b _ hb
              ∙ ap (λ (l : List String). b ∷ l)
                  (split-append nul c _ hc ∙ ap (λ (l : List String). c ∷ l) (split-Lacks 0 d hd))))

split-inventory_key :
    (ref : ResourceRef) (k : String)
    → IsText ref
    → inventory_key ref ≡ ok k
    → split 0 k ≡ ref.api_version ∷ ref.kind ∷ ref.namespace ∷ ref.name ∷ []
unfolding inventory_key
split-inventory_key ref k t h =
    ap (split 0) (
      sym (
        accepted (trim_space ref.api_version == "") (trim_space ref.kind == "")
          (trim_space ref.name == "") _ _ _ _ k h))
    ∙ (split-nul _ _ _ _ t.api_version t.kind t.namespace t.name)

-- The keys of internal/inventory tell apart all references without a NUL.
pub inventory_key_injective :
    (a b : ResourceRef) (k : String)
    → IsText a
    → IsText b
    → inventory_key a ≡ ok k
    → inventory_key b ≡ ok k
    → a ≡ b
inventory_key_injective a b k ta tb ha hb =
    let e = sym (split-inventory_key a k ta ha) ∙ split-inventory_key b k tb hb in cc
