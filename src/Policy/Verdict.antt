-- ===== src/Policy/Verdict.antt =====
-- What the policy of internal/policy/gvk_policy.go decides, in terms of its two options.
use namespace_class.Base.{
  String, ◌≡◌, refl, ◌∙◌, inl, inr, List, [], ◌∷◌, ◌==◌, eq_iff, false, ◌||◌, ◌&&◌, not, Bool-cases,
  arith, if◌then◌else◌,
}
use namespace_class.Base.Chars.{is_space, trim_space, split}
use namespace_class.Base.Chars.Laws.{split-Lacks, trim_space_idem, Lacks-of_blank}
use namespace_class.Base.Dict.{has, add, has-add}
use namespace_class.GroupVersionKind.{GroupVersionKind, format}
use namespace_class.Errors.{
  Result, ok, err, ok-injective, >>=-eq-ok, denied, plain, Message, wrapping,
}
use namespace_class.Policy.{Policy, is_empty, parse_gvk, parse_items, parse_csv, from_csv, validate}
use namespace_class.Policy.RoundTrip.{format-parse_gvk}

-- The entries that are not blank, without the white space around them.
abbrev pub entries : List String → List String
entries [] = []
entries (raw ∷ rest) =
    let more = entries rest in if trim_space raw == "" then more else trim_space raw ∷ more

-- The entries of a comma-separated option.
unfoldable pub listed : String → List String
listed csv = entries (split b',' csv)

-- The decision that the two options call for, for a kind whose text form is `key`.
unfoldable pub verdict : String → String → GroupVersionKind → Result (Unit {0})
verdict allow_csv deny_csv gvk =
    if has (format gvk) (listed deny_csv)
    then err (denied gvk "matched denylist")
    else if not (is_empty (listed allow_csv)) && not (has (format gvk) (listed allow_csv))
    then err (denied gvk "not present in allowlist")
    else ok tt

is_empty-add : (k : String) (l : List String) → is_empty (add k l) ≡ false
unfolding add has
is_empty-add k [] = refl
is_empty-add k (j ∷ l) = ground arith

-- The parsed set has the members and the emptiness of the entries read so far.
record Reads (r acc l : List String) : Type 0 where
  members : (k : String) → has k r ≡ (has k acc || has k l)
  emptiness : is_empty r ≡ (is_empty acc && is_empty l)

Reads-add : (r acc l : List String) (k : String) → Reads r (add k acc) l → Reads r acc (k ∷ l)
unfolding has
Reads-add r acc l k h = record {
  members = λ j. ground (arith, h.members j, has-add j k acc);
  emptiness = ground (arith, h.emptiness, is_empty-add k acc);
}

parse_items-Reads : (l acc r : List String) → parse_items l acc ≡ ok r → Reads r acc (entries l)
unfolding parse_items
parse_items-Reads [] acc r h =
    rw (← ok-injective h)
      (unfold has in record { members = λ k. ground arith; emptiness = ground arith })
parse_items-Reads (raw ∷ l) acc r h = elim (Bool-cases (trim_space raw == "")) [
  | inl e ↦ rw e (parse_items-Reads l acc r (let h' : _ = h in rw e at h'))
  | inr e ↦
      let (gvk, rest, parsed) =
        >>=-eq-ok (parse_gvk (trim_space raw)) (λ gvk. parse_items l (add (format gvk) acc))
          (let h' : _ = h in rw e at h') in
      rw e (
        Reads-add r acc (entries l) (trim_space raw) (
          rw (← format-parse_gvk _ gvk parsed ∙ trim_space_idem raw)
            (parse_items-Reads l (add (format gvk) acc) r rest)))
]

parse_csv-Reads : (csv : String) (r : List String) → parse_csv csv ≡ ok r → Reads r [] (listed csv)
unfolding parse_csv listed
parse_csv-Reads csv r h = elim (Bool-cases (trim_space csv == "")) [
  | inl e ↦
      let no_comma = Lacks-of_blank b',' csv (unfold is_space in refl) ((eq_iff _ _).0 e) in
      rw (← ok-injective (let h' : _ = h in rw e at h'), split-Lacks b',' csv no_comma)
        (unfold has in record { members = λ k. rw e; emptiness = rw e })
  | inr e ↦ parse_items-Reads _ [] r (let h' : _ = h in rw e at h')
]

pub wrapping-eq-ok {ℓ} :
    {A : Type ℓ} (m : Message) (r : Result A) {a : A} → wrapping m r ≡ ok a → r ≡ ok a
wrapping-eq-ok m (ok b) h = h
wrapping-eq-ok m (err e) h = cc

from_csv-Reads :
    (allow_csv deny_csv : String) (p : Policy)
    → from_csv allow_csv deny_csv ≡ ok p
    → Reads p.allow [] (listed allow_csv) × Reads p.deny [] (listed deny_csv)
unfolding from_csv
from_csv-Reads allow_csv deny_csv p h =
    let (allow, h', ha) =
      >>=-eq-ok (wrapping (plain "parse allow GVKs" ∷ []) (parse_csv allow_csv)) _ h in
    let (deny, built, hd) =
      >>=-eq-ok (wrapping (plain "parse deny GVKs" ∷ []) (parse_csv deny_csv)) _ h' in
    let a = parse_csv-Reads allow_csv allow (wrapping-eq-ok _ _ ha) in
    let d = parse_csv-Reads deny_csv deny (wrapping-eq-ok _ _ hd) in
    rw (← ok-injective built) (a, d)

-- A policy read from the two options decides each kind as the options say: a kind that the deny
-- option lists is denied, whatever the allow option lists; else a kind is denied if the allow
-- option lists something and not this kind; else it may be managed.
pub validate-from_csv :
    (allow_csv deny_csv : String) (p : Policy) (gvk : GroupVersionKind)
    → from_csv allow_csv deny_csv ≡ ok p
    → validate p gvk ≡ verdict allow_csv deny_csv gvk
unfolding validate verdict has
validate-from_csv allow_csv deny_csv p gvk h =
    let (a, d) = from_csv-Reads allow_csv deny_csv p h in
    ground (arith, a.members (format gvk), a.emptiness, d.members (format gvk))
