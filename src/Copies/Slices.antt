-- ===== src/Copies/Slices.antt =====
-- Copies of slices, and of one value after another, in api/v1alpha1/zz_generated.deepcopy.go.
use namespace_class.Base.{
  ap, ◌≢◌, ◌≡◌, refl, sym, ◌∙◌, arith, ℕ, suc, ◌≤◌, Option, none, some, List, [], ◌∷◌,
}
use namespace_class.Copies.Memory.{Library, Array, Memory}
use namespace_class.Copies.Objects.{Copier, make, write, plain_copy, copy_each, copy_slice}
use namespace_class.Copies.Meaning.{Denotation, Plain, Each, Elements, Both, Framed, Copied, Copies}

module _ (L : Library) where
  pub Plain-Framed : {A : Type 0} → Framed L (Plain L {A = A})
  Plain-Framed lo hi lo' hi' g h x v low high same d = d

  pub Plain-Copies : {A : Type 0} → Copies L (Plain L {A = A}) (plain_copy L)
  Plain-Copies m x v d = ((omega arith, λ a below. refl), d)

  at-write : (a : ℕ) (array : Array L) (m : Memory L) → (write L a array m).at a ≡ some array
  at-write a array m = ground arith

  at-write_other :
      (a b : ℕ) (array : Array L) (m : Memory L) → b ≢ a → (write L a array m).at b ≡ m.at b
  at-write_other a b array m other = ground arith

  module _ {A V : Type 0} (D : Denotation L A V) (framed : Framed L D) where
    Each-Framed : Framed L (Each L D)
    Each-Framed lo hi lo' hi' g h [] [] low high same d = tt
    Each-Framed lo hi lo' hi' g h (x ∷ l) (v ∷ vs) low high same d = (
      framed lo hi lo' hi' g h x v low high same d.0,
      Each-Framed lo hi lo' hi' g h l vs low high same d.1,
    )
    Each-Framed lo hi lo' hi' g h [] (v ∷ vs) low high same d = d
    Each-Framed lo hi lo' hi' g h (x ∷ l) [] low high same d = d

    pub Elements-Framed : (pack : List A → Array L) → Framed L (Elements L pack D)
    Elements-Framed pack lo hi lo' hi' g h none none low high same d = tt
    Elements-Framed pack lo hi lo' hi' g h (some a) (some vs) low high same
          (above, below, l, held, each) =
        (
          omega arith,
          omega arith,
          l,
          sym (same a above below) ∙ held,
          Each-Framed lo hi lo' hi' g h l vs low high same each,
        )
    Elements-Framed pack lo hi lo' hi' g h none (some vs) low high same d = d
    Elements-Framed pack lo hi lo' hi' g h (some a) none low high same d = d

    -- What is copied first stays, and what is copied second is still there.
    pub Copied-then :
        {B W : Type 0} (E : Denotation L B W) (m : Memory L) (p : A × Memory L) (y : B)
        (q : B × Memory L) (v : V) (w : W)
        → Framed L E
        → Copied L D m v p
        → E 0 m.free m.at y w
        → (E 0 p.1.free p.1.at y w → Copied L E p.1 w q)
        → Copied L (Both L D E) m (v, w) ((p.0, q.0), q.1)
    Copied-then E m (x, m') y (z, m'') v w framed' first e copies =
        let second = copies (
          framed' 0 m.free 0 m'.free m.at m'.at y w (omega arith) first.0.0
            (λ a _ below. first.0.1 a below) e) in
        (
          (
            omega (arith, first.0.0, second.0.0),
            λ a below. first.0.1 a below ∙ second.0.1 a (omega (arith, first.0.0)),
          ),
          (
            framed m.free m'.free m.free m''.free m'.at m''.at x v (omega arith) second.0.0
                (λ a _ below. second.0.1 a below) first.1,
            framed' m'.free m''.free m.free m''.free m''.at m''.at z w first.0.0 (omega arith)
                (λ a _ _. refl) second.1,
          ),
        )

  module _ {A V : Type 0} (D : Denotation L A V) (framed : Framed L D) (copy : Copier L A)
      (copies : Copies L D copy) where
    Each-Copies : Copies L (Each L D) (copy_each L copy)
    unfolding copy_each
    Each-Copies m [] [] d = ((omega arith, λ a below. refl), tt)
    Each-Copies m (x ∷ l) (v ∷ vs) d =
        Copied-then D framed (Each L D) m (copy x m) l (copy_each L copy l (copy x m).1) v vs
          (Each-Framed D framed) (copies m x v d.0) d.1 (λ rest. Each-Copies (copy x m).1 l vs rest)
    Each-Copies m [] (v ∷ vs) d = absurd d
    Each-Copies m (x ∷ l) [] d = absurd d

    pub Elements-Copies :
        (pack : List A → Array L) (unpack : Option (Array L) → List A)
        → ((l : List A) → unpack (some (pack l)) ≡ l)
        → Copies L (Elements L pack D) (copy_slice L pack unpack copy)
    unfolding copy_slice
    Elements-Copies pack unpack back m none none d = ((omega arith, λ a below. refl), tt)
    Elements-Copies pack unpack back m (some a) (some vs) (_, below, l, held, each) =
        let m' : Memory L = (make L m).1 in
        let q : List A × Memory L = copy_each L copy (unpack (m.at a)) m' in
        let read : unpack (m.at a) ≡ l = ap unpack held ∙ back l in
        let done : Copied L (Each L D) m' vs q = Each-Copies m' (unpack (m.at a)) vs (
          rw read (
            Each-Framed D framed 0 m.free 0 m'.free m.at m'.at l vs (omega arith) (omega arith)
              (λ b _ _. refl) each)) in
        let after : Memory L = write L m.free (pack q.0) q.1 in
        let grown : suc m.free ≤ q.1.free = done.0.0 in
        (
          (
            omega (arith, grown),
            λ b b_below.
                done.0.1 b (omega arith)
                ∙ sym (at-write_other m.free b (pack q.0) q.1 (omega arith)),
          ),
          (
            omega arith,
            omega (arith, grown),
            q.0,
            at-write m.free (pack q.0) q.1,
            Each-Framed D framed m'.free q.1.free m.free q.1.free q.1.at after.at q.0 vs
                (omega arith) (omega arith)
                (λ b above _. sym (at-write_other m.free b (pack q.0) q.1 (omega arith))) done.1,
          ),
        )
    Elements-Copies pack unpack back m none (some vs) d = absurd d
    Elements-Copies pack unpack back m (some a) none d = absurd d
